-- ===== src/Disk/Writes.antt =====
-- Where the writes of src/disk.c go: to the card or to a handler; and when the device restarts.
use phatio.Prelude.{
  ℕ, ◌+◌, ◌^◌, ◌≤◌, ◌<◌, ◌≡◌, ◌≢◌, refl, ap, sym, ◌∙◌, Bool, true, false, ◌&&◌, List, [], ◌∷◌, ltb,
  leb, length, arith,
}
use phatio.Fat.{Disk}
use phatio.Disk.State.{Handler, Tables}
use phatio.Disk.Handlers.{cluster_of, has_handler}
use phatio.Disk.Lookup.{member, handled_clusters, has_handler-member}
use phatio.Disk.Transfer.{
  Written, read_block, store_block, write_one, consecutive, count_block, next_block, write_loop,
  write_blocks,
}

module _ {W : Type 0} (sd_read_block : ℕ → Disk → W → Bool × Disk × W)
    (sd_write_block : ℕ → Disk → W → Bool × W)
    (run_handler : Handler → Bool → ℕ → Disk → W → Disk × W)
    (eval : ℕ → Tables → Disk → W → Tables × Disk × W) (led_flash led_error : ℕ → W → W) where
  write_one_handled :
      (current : ℕ) (t : Tables) (fs : Disk) (w : W)
      → (leb fs.data_start current && member (cluster_of current fs) (handled_clusters t)) ≡ true
      → write_one sd_read_block sd_write_block run_handler eval led_flash led_error current false t
          fs w
        ≡ (let (taken, t', fs', w') =
              has_handler
                (read_block sd_read_block sd_write_block run_handler eval led_flash led_error)
                run_handler
                eval
                current
                true
                t
                fs
                w in
            (t', fs', w'))
  unfolding write_one
  write_one_handled current t fs w h =
      let taken =
        has_handler-member
          (read_block sd_read_block sd_write_block run_handler eval led_flash led_error) run_handler
          eval current true t fs w in
      rw (taken, h)

  -- one block outside a run of consecutive blocks
  write_blocks_single :
      (millis start : ℕ) (b : List ℕ) (t : Tables) (fs : Disk) (w : W)
      → consecutive start t ≡ false
      → t.fs_dd_block_count ≤ 450
      → let t0 = count_block 1 (record t { last_write = millis }) in
        let (t1, fs1, w1) =
          write_one sd_read_block sd_write_block run_handler eval led_flash led_error start false t0
            (record fs { buf = b })
            (led_flash 0 w) in
        write_blocks sd_read_block sd_write_block run_handler eval led_flash led_error true millis
          start
          (b ∷ [])
          t
          fs
          w
        ≡ record { rebooted = false; tables = t1; disk = fs1; rest = w1 }
  unfolding write_blocks write_loop
  write_blocks_single millis start b t fs w apart few =
      let under : ltb 450 t.fs_dd_block_count ≡ false = ground arith in rw (apart, under)

-- A write of one block to a file with a handler, outside a run of consecutive blocks, does not depend
-- on what a write to the card does.
pub write_blocks_handled :
    {W : Type 0} (sd_read_block : ℕ → Disk → W → Bool × Disk × W)
    (writer writer' : ℕ → Disk → W → Bool × W)
    (run_handler : Handler → Bool → ℕ → Disk → W → Disk × W)
    (eval : ℕ → Tables → Disk → W → Tables × Disk × W) (led_flash led_error : ℕ → W → W)
    (millis start : ℕ) (b : List ℕ) (t : Tables) (fs : Disk) (w : W)
    → consecutive start t ≡ false
    → t.fs_dd_block_count ≤ 450
    → (leb fs.data_start start && member (cluster_of start fs) (handled_clusters t)) ≡ true
    → write_blocks sd_read_block writer run_handler eval led_flash led_error true millis start
        (b ∷ [])
        t
        fs
        w
      ≡ write_blocks sd_read_block writer' run_handler eval led_flash led_error true millis start
          (b ∷ [])
          t
          fs
          w
write_blocks_handled {W} sd_read_block writer writer' run_handler eval led_flash led_error millis
      start b t fs w apart few taken =
    once writer ∙ sym (once writer')
  where
    t0 : Tables
    t0 = count_block 1 (record t { last_write = millis })

    handled : Bool × Tables × Disk × W
    handled =
        has_handler (λ n d v. ((sd_read_block n d v).1, (sd_read_block n d v).2)) run_handler eval
          start true t0 (record fs { buf = b }) (led_flash 0 w)

    once :
        (wr : ℕ → Disk → W → Bool × W)
        → write_blocks sd_read_block wr run_handler eval led_flash led_error true millis start
            (b ∷ [])
            t
            fs
            w
          ≡ record { rebooted = false; tables = handled.1; disk = handled.2; rest = handled.3 }
    once wr =
        write_blocks_single sd_read_block wr run_handler eval led_flash led_error millis start b t
          fs w apart few
        ∙ ap
            (λ (r : Tables × Disk × W). record {
              rebooted = false;
              tables = r.0;
              disk = r.1;
              rest = r.2;
            })
            (write_one_handled sd_read_block wr run_handler eval led_flash led_error start t0
              (record fs { buf = b }) (led_flash 0 w) taken)

module _ {W : Type 0} (sd_read_block : ℕ → Disk → W → Bool × Disk × W)
    (sd_write_block : ℕ → Disk → W → Bool × W)
    (run_handler : Handler → Bool → ℕ → Disk → W → Disk × W)
    (eval : ℕ → Tables → Disk → W → Tables × Disk × W) (led_flash led_error : ℕ → W → W) where
  abbrev one : ℕ → Tables → Disk → W → Tables × Disk × W
  one current t fs w =
      write_one sd_read_block sd_write_block run_handler eval led_flash led_error current true t fs
        w

  tables_kept : (current : ℕ) (t : Tables) (fs : Disk) (w : W) → (one current t fs w).0 ≡ t
  unfolding write_one store_block
  tables_kept current t fs w = ground arith

  write_loop_chained :
      (start current : ℕ) (dd : Bool) (b : List ℕ) (bs : List (List ℕ)) (t : Tables) (fs : Disk)
      (w : W)
      → consecutive current t ≡ true
      → let (t1, fs1, w1) =
          one current (count_block current t) (record fs { buf = b }) (led_flash 0 w) in
        write_loop sd_read_block sd_write_block run_handler eval led_flash led_error start current
          dd
          (b ∷ bs)
          t
          fs
          w
        ≡ write_loop sd_read_block sd_write_block run_handler eval led_flash led_error start
            (next_block start current)
            true
            bs
            t1
            fs1
            w1
  unfolding write_loop
  write_loop_chained start current dd b bs t fs w c = rw c

  abbrev Ran : ℕ → Tables → Written W → Type 0
  Ran last t r = (r.rebooted ≡ false) × (r.tables ≡ count_block last t)

  next_consecutive :
      (current : ℕ) (t : Tables)
      → current + 1 < 2 ^ 32
      → 0 < current
      → consecutive (current + 1) (count_block current t) ≡ true
  next_consecutive current t h p = ground arith

  next_block_lem :
      (start current : ℕ)
      → current + 1 < 2 ^ 32
      → start ≤ current
      → current < start + 32767
      → next_block start current ≡ current + 1
  next_block_lem start current small from short = ground arith

  -- a run of blocks, each chained to the one before
  write_loop_run :
      (bs : List (List ℕ)) (b : List ℕ) (start current last : ℕ) (dd : Bool) (t : Tables)
      (fs : Disk) (w : W)
      → consecutive current t ≡ true
      → 0 < current
      → start ≤ current
      → last < start + 2 ^ 15
      → last ≡ current + length bs
      → last + 1 < 2 ^ 32
      → Ran last t (
          write_loop sd_read_block sd_write_block run_handler eval led_flash led_error start current
            dd
            (b ∷ bs)
            t
            fs
            w)
  unfolding write_loop
  write_loop_run [] b start current last dd t fs w c p from short e fits =
      let same : last ≡ current = omega arith in
      rw (write_loop_chained start current dd b [] t fs w c, same)
        (refl, tables_kept current (count_block current t) (record fs { buf = b }) (led_flash 0 w))
  write_loop_run (b' ∷ bs) b start current last dd t fs w c p from short e fits =
      let done = one current (count_block current t) (record fs { buf = b }) (led_flash 0 w) in
      let kept =
        tables_kept current (count_block current t) (record fs { buf = b }) (led_flash 0 w) in
      let small : current + 1 < 2 ^ 32 = omega arith in
      let same : next_block start current ≡ current + 1 =
        next_block_lem start current small from (omega arith) in
      let chained : consecutive (next_block start current) done.0 ≡ true =
        rw (same, kept) (next_consecutive current t small p) in
      let later =
        write_loop_run bs b' start (next_block start current) last true done.0 done.1 done.2 chained
          (rw same (omega arith)) (rw same (omega arith)) short (rw same (omega arith)) fits in
      rw (write_loop_chained start current dd b (b' ∷ bs) t fs w c)
        (later.0, later.1 ∙ ap (count_block last) kept)

  rebooted_single :
      (millis next last : ℕ) (c : List ℕ) (t : Tables) (fs : Disk) (w : W)
      → t.fs_dd_block_count ≡ last
      → 0 < last
      → last + 1 < 2 ^ 32
      → next < 2 ^ 32
      → next ≢ 1
      → next ≢ last + 1
      → (write_blocks sd_read_block sd_write_block run_handler eval led_flash led_error true millis
          next
          (c ∷ [])
          t
          fs
          w).rebooted
        ≡ ltb 450 last
  unfolding write_blocks write_loop
  rebooted_single millis next last c t fs w e p fits small n1 n2 =
      let apart : consecutive next t ≡ false = rw e (ground arith) in rw (apart, e) (ground arith)

-- A chained run of fewer than 2 ^ 15 blocks never restarts the device, and leaves the tables as they were
-- but for the number of its last block and the time. A block written next that does not go on with the
-- run, and is not block 1, restarts the device if and only if that number is more than 450.
pub write_blocks_restart :
    {W : Type 0} (sd_read_block : ℕ → Disk → W → Bool × Disk × W)
    (sd_write_block : ℕ → Disk → W → Bool × W)
    (run_handler : Handler → Bool → ℕ → Disk → W → Disk × W)
    (eval : ℕ → Tables → Disk → W → Tables × Disk × W) (led_flash led_error : ℕ → W → W)
    (millis start : ℕ) (b : List ℕ) (bs : List (List ℕ)) (t : Tables) (fs : Disk) (w : W)
    (later next last : ℕ) (c : List ℕ)
    → consecutive start t ≡ true
    → 0 < start
    → length (b ∷ bs) < 2 ^ 15
    → last ≡ start + length bs
    → last + 1 < 2 ^ 32
    → next < 2 ^ 32
    → next ≢ 1
    → next ≢ last + 1
    → let write =
        write_blocks sd_read_block sd_write_block run_handler eval led_flash led_error true in
      let r = write millis start (b ∷ bs) t fs w in
      (r.rebooted ≡ false)
      × (r.tables ≡ record t { last_write = millis; fs_dd_block_count = last })
      × ((write later next (c ∷ []) r.tables r.disk r.rest).rebooted ≡ ltb 450 last)
unfolding write_blocks
write_blocks_restart rd wr run eval flash error millis start b bs t fs w later next last c chained p
      short e fits small n1 n2 =
    let t0 = record t { last_write = millis } in
    let r = write_loop rd wr run eval flash error start start false (b ∷ bs) t0 fs w in
    let ran =
      write_loop_run rd wr run eval flash error bs b start start last false t0 fs w chained p
        (omega arith) (omega arith) e fits in
    let positive : 0 < last = omega arith in
    (
      ran.0,
      ran.1,
      rebooted_single rd wr run eval flash error later next last c r.tables r.disk r.rest
          (ap (λ u. u.fs_dd_block_count) ran.1) positive fits small n1 n2,
    )
