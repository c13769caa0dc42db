-- ===== src/Disk/Handlers.antt =====
-- The handlers and watchers of src/disk.c. `W` is the rest of the device's state; what is called there
-- is given by its effect: `read_block` reads a block of the card into the buffer, `run_handler` runs a
-- handler on the buffer, `eval` runs a stored expression, which can use the buffer and move a device. A cluster number computed from a block is an
-- int32_t there; a block before `data_start` has none.
use phatio.Prelude.{
  ℕ, zero, suc, ◌+◌, ◌-◌, ◌*◌, ◌%◌, ◌^◌, Bool, true, false, not, ◌&&◌, ◌||◌, Option, none, some,
  List, [], ◌∷◌, bit_and, set, length, replicate, ltb, leb, ◌==◌, if◌then◌else◌,
}
use phatio.Fat.{
  Disk, byte_at, uint32_value, fatdirent_get_cluster, cluster_to_block, find_sfn_entry,
}
use phatio.Disk.State.{
  IopinFile, Handler, WatchedDir, HandledFile, DeviceFile, Tables, num_dir_clusters, file_at,
}

-- the runfile's short name, "RUN     LIO"
abbrev pub runfile : List ℕ
runfile = b'R' ∷ b'U' ∷ b'N' ∷ b' ' ∷ b' ' ∷ b' ' ∷ b' ' ∷ b' ' ∷ b'L' ∷ b'I' ∷ b'O' ∷ []

-- the first entry of a directory's table that has the cluster
unfoldable pub find_cluster : ℕ → List IopinFile → Option IopinFile
find_cluster cluster [] = none
find_cluster cluster (f ∷ fs) = if cluster == f.cluster then some f else find_cluster cluster fs

unfoldable pub find_iodir : ℕ → List WatchedDir → Option (Handler × ℕ)
unfolding find_cluster
find_iodir cluster [] = none
find_iodir cluster (d ∷ ds) = elim (find_cluster cluster d.files) [
  | some f ↦ some (d.handler, f.id)
  | none ↦ find_iodir cluster ds
]

unfoldable pub find_handled : ℕ → List HandledFile → Option Handler
find_handled cluster [] = none
find_handled cluster (f ∷ fs) =
    if cluster == f.cluster then some f.handler else find_handled cluster fs

unfoldable pub find_device : ℕ → List DeviceFile → Option DeviceFile
find_device cluster [] = none
find_device cluster (d ∷ ds) = if cluster == d.cluster then some d else find_device cluster ds

-- `if (!write) memset(fs->buf, 0, 512);`
abbrev pub clear_for_read : Bool → Disk → Disk
clear_for_read true fs = fs
clear_for_read false fs = record fs { buf = replicate 512 0 }

-- the cluster of a block from `data_start` on
abbrev pub cluster_of : ℕ → Disk → ℕ
cluster_of block fs = block - fs.data_start + 2

abbrev pub in_dir : ℕ → ℕ → Bool
in_dir cluster start = leb start cluster && ltb cluster ((start + num_dir_clusters) % 2 ^ 16)

-- `for (c = 0; c < 2 && isdigit; c++) id = id * 10 + ...`: the number, and `c`
unfoldable pub scan_id : ℕ → List ℕ → ℕ → ℕ → ℕ → ℕ × ℕ
scan_id zero buf i c id = (id, c)
scan_id (suc n) buf i c id =
    let ch = byte_at buf (i + c) in
    let rest = scan_id n buf i (c + 1) (id * 10 + ch - b'0') in
    if leb b'0' ch && leb ch b'9' then rest else (id, c)

-- `for (; p < size && pins[p].id != id && pins[p].id != 0xFF; p++);`
unfoldable pub find_slot : ℕ → ℕ → List IopinFile → ℕ
find_slot id p [] = p
find_slot id p (f ∷ fs) = if f.id == id || f.id == 0xff then p else find_slot id (p + 1) fs

-- The loop of `changed_devdir_block`: it ends at the first device whose file has moved, and gives its
-- handler, the new cluster, and the devices with it.
unfoldable pub changed_devices : List DeviceFile → Disk → Option (ℕ × ℕ × List DeviceFile)
changed_devices [] fs = none
changed_devices (d ∷ ds) fs =
    let later = elim (changed_devices ds fs) as (λ _. Option (ℕ × ℕ × List DeviceFile)) [
      | none ↦ none
      | some (handler, cluster, ds') ↦ some (handler, cluster, d ∷ ds')
    ] in
    elim (find_sfn_entry fs.buf d.name 0xdf 0) [
      | none ↦ later
      | some entry ↦
          let member_cluster = fatdirent_get_cluster fs.buf entry in
          if not (member_cluster == 0) && not (member_cluster == d.cluster)
          then some (d.handler, member_cluster, record d { cluster = member_cluster } ∷ ds)
          else later
    ]

module _ {W : Type 0} (read_block : ℕ → Disk → W → Disk × W)
    (run_handler : Handler → Bool → ℕ → Disk → W → Disk × W)
    (eval : ℕ → Tables → Disk → W → Tables × Disk × W) where
  record_file : ℕ → ℕ → ℕ → List IopinFile → List IopinFile
  record_file p id cluster files = set files p (record { id = id; cluster = cluster })

  -- The body of `changed_iodir_block` for the entry at `i`, once the number `id` is read and slot `p`
  -- is found: the disk, the rest of the state, the table and `reload`.
  unfoldable pub changed_entry :
      Handler → ℕ → ℕ → ℕ → List IopinFile → Disk → W → Disk × W × List IopinFile × Bool
  unfolding record_file
  changed_entry handler i id p files fs w =
      let member_cluster = fatdirent_get_cluster fs.buf i in
      let old = file_at files p in
      let moved = not (member_cluster == 0) && not (member_cluster == old.cluster) in
      let (fs1, w1) = read_block (cluster_to_block fs member_cluster) fs w in
      let (fs2, w2) = run_handler handler true id fs1 w1 in
      if moved && old.id == id
      then (fs2, w2, record_file p id member_cluster files, not (i == 480))
      else (fs, w, record_file p (if moved then id else old.id) member_cluster files, false)

  -- one entry; `none` is the return on an unexpected file
  unfoldable pub changed_at :
      Handler → ℕ → List IopinFile → Disk → W → Option (Disk × W × List IopinFile × Bool)
  unfolding changed_entry scan_id find_slot
  changed_at handler i files fs w =
      let (id, c) = scan_id 2 fs.buf i 0 0 in
      let p = find_slot id 0 files in
      if bit_and (byte_at fs.buf (i + 11)) 0xdf == 0
      then if ltb 0 c && byte_at fs.buf (i + c) == b' '
        then if ltb p (length files) then some (changed_entry handler i id p files fs w) else none
        else some (fs, w, files, false)
      else some (fs, w, files, false)

  -- the loop of `changed_iodir_block`, with the entries left
  unfoldable pub changed_loop :
      ℕ → ℕ → ℕ → Bool → Handler → List IopinFile → Disk → W → Disk × W × List IopinFile
  unfolding changed_at
  changed_loop cluster zero i reload handler files fs w = (fs, w, files)
  changed_loop cluster (suc n) i reload handler files fs w =
      let loaded = if reload then read_block (cluster_to_block fs cluster) fs w else (fs, w) in
      elim (changed_at handler i files loaded.0 loaded.1) [
        | none ↦ (loaded.0, loaded.1, files)
        | some (fs', w', files', reload') ↦
            changed_loop cluster n (i + 32) reload' handler files' fs' w'
      ]

  unfoldable pub changed_iodir_block : ℕ → WatchedDir → Disk → W → Disk × W × WatchedDir
  unfolding changed_loop
  changed_iodir_block cluster dir fs w =
      let (fs', w', files') = changed_loop cluster 16 0 true dir.handler dir.files fs w in
      (fs', w', record dir { files = files' })

  -- `if (device->handler)`
  run_device : ℕ → Tables → Disk → W → Tables × Disk × W
  run_device handler t fs w = if handler == 0 then (t, fs, w) else eval handler t fs w

  unfoldable pub changed_devdir_block : Tables → Disk → W → Tables × Disk × W
  unfolding changed_devices run_device
  changed_devdir_block t fs w = elim (changed_devices t.devices fs) [
    | none ↦ (t, fs, w)
    | some (handler, member_cluster, devices) ↦
        let (fs1, w1) = read_block (cluster_to_block fs member_cluster) fs w in
        run_device handler (record t { devices = devices }) fs1 w1
  ]

  -- what `has_handler` does for a cluster that no pin file has
  unfoldable pub other_handler : Bool → ℕ → Tables → Disk → W → Bool × Tables × Disk × W
  unfolding find_handled find_device changed_devdir_block run_device
  other_handler write cluster t fs w = elim (find_handled cluster t.handled_files) [
    | some h ↦
        let (fs', w') = run_handler h write 0 (clear_for_read write fs) w in (true, t, fs', w')
    | none ↦ elim (find_device cluster t.devices) [
      | some d ↦
          let (t', fs', w') = run_device d.handler t (clear_for_read write fs) w in
          (true, t', fs', w')
      | none ↦
          let (t', fs', w') = changed_devdir_block t fs w in
          if in_dir cluster t.devdir_start_cluster then (false, t', fs', w') else (false, t, fs, w)
    ]
  ]

  unfoldable pub has_handler : ℕ → Bool → Tables → Disk → W → Bool × Tables × Disk × W
  unfolding find_iodir other_handler
  has_handler block write t fs w =
      let cluster = cluster_of block fs in
      if ltb block fs.data_start then (false, t, fs, w) else elim (find_iodir cluster t.iodirs) [
        | some (h, id) ↦
            let (fs', w') = run_handler h write id (clear_for_read write fs) w in (true, t, fs', w')
        | none ↦ other_handler write cluster t fs w
      ]

  -- the loop of `has_watcher` over the directories; `none` if the cluster is in none of them
  unfoldable pub watch_dirs : ℕ → List WatchedDir → Disk → W → Option (Disk × W × List WatchedDir)
  unfolding changed_iodir_block
  watch_dirs cluster [] fs w = none
  watch_dirs cluster (d ∷ ds) fs w =
      let (fs', w', d') = changed_iodir_block cluster d fs w in
      if in_dir cluster d.start_cluster
      then some (fs', w', d' ∷ ds)
      else elim (watch_dirs cluster ds fs w) [
        | none ↦ none
        | some (fs1, w1, ds1) ↦ some (fs1, w1, d ∷ ds1)
      ]

  -- the watcher of the runfile, on a block of the io directory
  unfoldable pub watch_runfile : Tables → Disk → Bool × Tables
  watch_runfile t fs = elim (find_sfn_entry fs.buf runfile 0xdf 0) [
    | none ↦ (false, t)
    | some entry ↦
        let new_mod = uint32_value fs.buf (entry + 22) in
        let new_cluster = fatdirent_get_cluster fs.buf entry in
        if not (new_cluster == 0)
          && (not (new_mod == t.runfile_mod) || not (new_cluster == t.runfile_cluster))
        then (
          true,
          record t {
            runfile_cluster = new_cluster;
            runfile_triggered = true;
            runfile_mod = new_mod;
          },
        )
        else (false, t)
  ]

  unfoldable pub has_watcher : ℕ → Tables → Disk → W → Bool × Tables × Disk × W
  unfolding watch_dirs watch_runfile
  has_watcher block t fs w =
      let cluster = cluster_of block fs in
      if ltb block fs.data_start
      then (false, t, fs, w)
      else elim (watch_dirs cluster t.iodirs fs w) [
        | some (fs', w', ds') ↦ (true, record t { iodirs = ds' }, fs', w')
        | none ↦
            if in_dir cluster t.iodir_start_cluster
            then ((watch_runfile t fs).0, (watch_runfile t fs).1, fs, w)
            else (false, t, fs, w)
      ]

  -- `check_runfile_changed`, with the time and `runfile_changed`
  unfoldable pub check_runfile_changed : ℕ → (ℕ → Tables → W → Tables × W) → Tables → W → Tables × W
  check_runfile_changed millis runfile_changed t w =
      let (t', w') = runfile_changed t.runfile_cluster t w in
      if t.runfile_triggered && ltb ((t.last_write + 100) % 2 ^ 32) millis
      then (record t' { runfile_triggered = false }, w')
      else (t, w)
