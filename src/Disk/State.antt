-- ===== src/Disk/State.antt =====
-- The static tables of src/disk.c. `id` 0xFF marks an entry of a pin table that is not in use.
use phatio.Prelude.{ℕ, Bool, List, get_or}

pub record IopinFile : Type 0 where
  pub id : ℕ
  pub cluster : ℕ

-- The handlers are named: `mode` is `pin_mode_handler`, `pins` is `pin_value_handler`, `status` is
-- `status_handler`.
pub data Handler : Type 0 where
  mode pins status : Handler

pub record WatchedDir : Type 0 where
  pub start_cluster : ℕ
  pub files : List IopinFile
  pub handler : Handler

pub record HandledFile : Type 0 where
  pub cluster : ℕ
  pub handler : Handler

-- `handler` is the expression that a driver stored, 0 for none
pub record DeviceFile : Type 0 where
  pub name : List ℕ
  pub cluster : ℕ
  pub handler : ℕ

pub record Tables : Type 0 where
  pub iodir_start_cluster : ℕ
  pub last_write : ℕ
  pub runfile_mod : ℕ
  pub runfile_cluster : ℕ
  pub runfile_triggered : Bool
  pub iodirs : List WatchedDir
  pub handled_files : List HandledFile
  pub devdir_start_cluster : ℕ
  pub devices : List DeviceFile
  pub fs_dd_block_count : ℕ

abbrev pub num_dir_clusters : ℕ
num_dir_clusters = 4

abbrev pub no_file : IopinFile
no_file = record { id = 0; cluster = 0 }

abbrev pub file_at : List IopinFile → ℕ → IopinFile
file_at fs p = get_or fs p no_file
