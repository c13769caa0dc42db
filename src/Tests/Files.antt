-- ===== src/Tests/Files.antt =====
-- Runs for the handlers and the writes of src/disk.c.
use phatio.Prelude.{ℕ, ◌≡◌, ◌+◌, refl, Bool, true, false, [], ◌∷◌, replicate, arith}
use phatio.Fat.{Disk}
use phatio.Disk.State.{Handler, Tables}
use phatio.Disk.Handlers.{has_handler}
use phatio.Disk.Lookup.{has_handler-member}
use phatio.Disk.Transfer.{Written, write_blocks}
use phatio.Disk.Writes.{write_blocks_handled, write_blocks_restart}

abbrev disk : Disk
disk = record {
  sd_type = 6;
  sd_size = 8000;
  buf = replicate 512 0;
  p_size = 7000;
  fat_start = 10;
  data_start = 42;
  root_dir = 40;
}

-- pin 3 has the file io/mode/3 in cluster 20
abbrev tables : Tables
tables = record {
  iodir_start_cluster = 5;
  last_write = 0;
  runfile_mod = 0;
  runfile_cluster = 0;
  runfile_triggered = false;
  iodirs =
      record {
        start_cluster = 9;
        files = record { id = 3; cluster = 20 } ∷ [];
        handler = Handler.mode;
      }
      ∷ [];
  handled_files = [];
  devdir_start_cluster = 13;
  devices = [];
  fs_dd_block_count = 1;
}

abbrev loads : ℕ → Disk → ℕ → Disk × ℕ
loads n d w = (d, w)

abbrev run_handler : Handler → Bool → ℕ → Disk → ℕ → Disk × ℕ
run_handler h write id d w = (d, w + 1)

abbrev reads : ℕ → Disk → ℕ → Bool × Disk × ℕ
reads n d w = (true, d, w)

abbrev writes : ℕ → Disk → ℕ → Bool × ℕ
writes n d w = (true, w + 1000)

abbrev fails : ℕ → Disk → ℕ → Bool × ℕ
fails n d w = (false, w)

abbrev kept : ℕ → ℕ → ℕ
kept n w = w

-- a stored expression that writes the buffer
abbrev evaluated : ℕ → Tables → Disk → ℕ → Tables × Disk × ℕ
evaluated e t fs w = (t, record fs { buf = e ∷ [] }, w)

has_handler-member_example :
    (has_handler loads run_handler evaluated 60 true tables disk 0).0 ≡ true
has_handler-member_example = has_handler-member loads run_handler evaluated 60 true tables disk 0

abbrev written : (ℕ → Disk → ℕ → Bool × ℕ) → Written ℕ
written writer =
    write_blocks reads writer run_handler evaluated kept kept true 50 60 ((b'o' ∷ []) ∷ []) tables
      disk 0

write_blocks_handled_example : written writes ≡ written fails
write_blocks_handled_example =
    write_blocks_handled reads writes fails run_handler evaluated kept kept 50 60 (b'o' ∷ []) tables
      disk 0 refl (omega arith) refl

-- a run of 600 blocks from block 1 on
abbrev run : Written ℕ
run =
    write_blocks reads writes run_handler evaluated kept kept true 50 1 ([] ∷ replicate 599 [])
      tables disk 0

write_blocks_restart_example :
    (run.rebooted ≡ false)
    × (run.tables ≡ record tables { last_write = 50; fs_dd_block_count = 600 })
    × ((write_blocks reads writes run_handler evaluated kept kept true 60 900
          ([] ∷ [])
          run.tables
          run.disk
          run.rest).rebooted
        ≡ true)
write_blocks_restart_example =
    write_blocks_restart reads writes run_handler evaluated kept kept 50 1 [] (replicate 599 [])
      tables disk 0 60 900 600 [] refl (omega arith) (omega arith) refl (omega arith) (omega arith)
      (omega arith) (omega arith)
