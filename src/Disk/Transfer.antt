-- ===== src/Disk/Transfer.antt =====
-- `read_blocks` and `write_blocks` of src/disk.c. The blocks that the host sends are a list, and so are
-- those sent to it; `ready` is `Endpoint_WaitUntilReady() == 0`. The `int` that counts
-- them has 16 bits: behind 32767 it is taken to go on at -32768.
use phatio.Prelude.{
  ℕ, zero, suc, ◌+◌, ◌-◌, ◌%◌, ◌^◌, Bool, true, false, not, ◌&&◌, ◌||◌, List, [], ◌∷◌, ltb, ◌==◌,
  if◌then◌else◌,
}
use phatio.Fat.{Disk}
use phatio.Disk.State.{Handler, Tables}
use phatio.Disk.Handlers.{has_handler, has_watcher}

-- The state after a write; `rebooted` if the watchdog was left to reset the device.
pub record Written (W : Type 0) : Type 0 where
  pub rebooted : Bool
  pub tables : Tables
  pub disk : Disk
  pub rest : W

-- `current == 1 || fs_dd_block_count == current - 1`
abbrev pub consecutive : ℕ → Tables → Bool
consecutive current t = current == 1 || t.fs_dd_block_count == (current + 2 ^ 32 - 1) % 2 ^ 32

abbrev pub count_block : ℕ → Tables → Tables
count_block n t = record t { fs_dd_block_count = n }

-- the block behind `current`, of a transfer from `start`
abbrev pub next_block : ℕ → ℕ → ℕ
next_block start current =
    if current == (start + 32767) % 2 ^ 32
    then (start + 2 ^ 32 - 32768) % 2 ^ 32
    else (current + 1) % 2 ^ 32

module _ {W : Type 0} (sd_read_block : ℕ → Disk → W → Bool × Disk × W)
    (sd_write_block : ℕ → Disk → W → Bool × W)
    (run_handler : Handler → Bool → ℕ → Disk → W → Disk × W)
    (eval : ℕ → Tables → Disk → W → Tables × Disk × W) (led_flash led_error : ℕ → W → W) where
  -- a read whose result is not looked at
  abbrev pub read_block : ℕ → Disk → W → Disk × W
  read_block block fs w = ((sd_read_block block fs w).1, (sd_read_block block fs w).2)

  -- one round of `read_blocks`
  unfoldable pub read_one : ℕ → Tables → Disk → W → Tables × Disk × W
  read_one current t fs w =
      let (handled, t', fs', w') =
        has_handler read_block run_handler eval current false t fs (led_flash 1 w) in
      let (ok, fs1, w1) = sd_read_block current fs' w' in
      if handled then (t', fs', w') else (t', fs1, if ok then w1 else led_error 2 w1)

  -- the loop, with the blocks left, and the blocks sent
  unfoldable pub read_loop : ℕ → ℕ → ℕ → Tables → Disk → W → List (List ℕ) × Tables × Disk × W
  read_loop start current zero t fs w = ([], t, fs, w)
  read_loop start current (suc n) t fs w =
      let (t1, fs1, w1) = read_one current t fs w in
      let (sent, t2, fs2, w2) = read_loop start (next_block start current) n t1 fs1 w1 in
      (fs1.buf ∷ sent, t2, fs2, w2)

  unfoldable pub read_blocks : Bool → ℕ → ℕ → Tables → Disk → W → List (List ℕ) × Tables × Disk × W
  read_blocks ready start count t fs w =
      if ready then read_loop start start count t fs w else ([], t, fs, w)

  -- `if (!sd_write_block(...)) led_error(...)`, with `has_watcher` after a write that is watched
  unfoldable pub store_block : ℕ → Bool → Tables → Disk → W → Tables × Disk × W
  store_block current watched t fs w =
      let (ok, w1) = sd_write_block current fs w in
      let (seen, t2, fs2, w2) = has_watcher read_block run_handler eval current t fs w1 in
      if ok then (if watched then (t2, fs2, w2) else (t, fs, w1)) else (t, fs, led_error 2 w1)

  -- one round of `write_blocks` after the count of consecutive blocks, with `dd`
  unfoldable pub write_one : ℕ → Bool → Tables → Disk → W → Tables × Disk × W
  write_one current dd t fs w =
      let (handled, t', fs', w') = has_handler read_block run_handler eval current true t fs w in
      if dd
      then store_block current false t fs w
      else if handled
      then (t', fs', w')
      else store_block current true t' fs' w'

  -- the loop over the blocks that the host sends
  unfoldable pub write_loop : ℕ → ℕ → Bool → List (List ℕ) → Tables → Disk → W → Written W
  write_loop start current dd [] t fs w = record {
    rebooted = false;
    tables = t;
    disk = fs;
    rest = w;
  }
  write_loop start current dd (b ∷ bs) t fs w =
      let w0 = led_flash 0 w in
      let chained = consecutive current t in
      let t0 = count_block (if chained then current else 1) t in
      let dd0 = chained || dd in
      let (t1, fs1, w1) = write_one current dd0 t0 (record fs { buf = b }) w0 in
      let later = write_loop start (next_block start current) dd0 bs t1 fs1 w1 in
      if not chained && ltb 450 t.fs_dd_block_count
      then record { rebooted = true; tables = t; disk = fs; rest = w0 }
      else later

  unfoldable pub write_blocks : Bool → ℕ → ℕ → List (List ℕ) → Tables → Disk → W → Written W
  write_blocks ready millis start blocks t fs w =
      let t0 = record t { last_write = millis } in
      if ready
      then write_loop start start false blocks t0 fs w
      else record { rebooted = false; tables = t0; disk = fs; rest = w }
