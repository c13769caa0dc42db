-- ===== src/Disk/Lookup.antt =====
-- Which blocks `has_handler` of src/disk.c takes.
use phatio.Prelude.{
  ℕ, ◌≡◌, refl, Bool, true, false, ◌&&◌, ◌||◌, Option, none, some, List, [], ◌∷◌, ◌++◌, map, leb,
  ◌==◌, arith,
}
use phatio.Fat.{Disk}
use phatio.Disk.State.{IopinFile, Handler, WatchedDir, HandledFile, DeviceFile, Tables}
use phatio.Disk.Handlers.{
  find_cluster, find_iodir, find_handled, find_device, cluster_of, other_handler, has_handler,
}

abbrev pub member : ℕ → List ℕ → Bool
member x [] = false
member x (y ∷ ys) = x == y || member x ys

-- the clusters of the files of the watched directories
abbrev pub dir_clusters : List WatchedDir → List ℕ
dir_clusters [] = []
dir_clusters (d ∷ ds) = map (λ (f : IopinFile). f.cluster) d.files ++ dir_clusters ds

-- the clusters of all files with a handler
abbrev pub handled_clusters : Tables → List ℕ
handled_clusters t =
    dir_clusters t.iodirs
    ++ (map (λ (f : HandledFile). f.cluster) t.handled_files
        ++ map (λ (d : DeviceFile). d.cluster) t.devices)

abbrev is_some {ℓ} : {A : Type ℓ} → Option A → Bool
is_some none = false
is_some (some a) = true

member-append : (x : ℕ) (ys zs : List ℕ) → member x (ys ++ zs) ≡ (member x ys || member x zs)
member-append x [] zs = refl
member-append x (y ∷ ys) zs = ground (arith, member-append x ys zs)

find_cluster-member :
    (x : ℕ) (fs : List IopinFile)
    → is_some (find_cluster x fs) ≡ member x (map (λ (f : IopinFile). f.cluster) fs)
unfolding find_cluster
find_cluster-member x [] = refl
find_cluster-member x (f ∷ fs) = ground (arith, find_cluster-member x fs)

find_iodir-member :
    (x : ℕ) (ds : List WatchedDir) → is_some (find_iodir x ds) ≡ member x (dir_clusters ds)
unfolding find_iodir
find_iodir-member x [] = refl
find_iodir-member x (d ∷ ds) = ground (
  arith,
  find_cluster-member x d.files,
  find_iodir-member x ds,
  member-append x (map (λ (f : IopinFile). f.cluster) d.files) (dir_clusters ds),
)

find_handled-member :
    (x : ℕ) (fs : List HandledFile)
    → is_some (find_handled x fs) ≡ member x (map (λ (f : HandledFile). f.cluster) fs)
unfolding find_handled
find_handled-member x [] = refl
find_handled-member x (f ∷ fs) = ground (arith, find_handled-member x fs)

find_device-member :
    (x : ℕ) (ds : List DeviceFile)
    → is_some (find_device x ds) ≡ member x (map (λ (d : DeviceFile). d.cluster) ds)
unfolding find_device
find_device-member x [] = refl
find_device-member x (d ∷ ds) = ground (arith, find_device-member x ds)

module _ {W : Type 0} (read_block : ℕ → Disk → W → Disk × W)
    (run_handler : Handler → Bool → ℕ → Disk → W → Disk × W)
    (eval : ℕ → Tables → Disk → W → Tables × Disk × W) where
  other_handler-member :
      (write : Bool) (x : ℕ) (t : Tables) (fs : Disk) (w : W)
      → (other_handler read_block run_handler eval write x t fs w).0 ≡ (
          member x (map (λ (f : HandledFile). f.cluster) t.handled_files)
          || member x (map (λ (d : DeviceFile). d.cluster) t.devices))
  unfolding other_handler
  other_handler-member write x t fs w =
      ground (arith, find_handled-member x t.handled_files, find_device-member x t.devices)

  -- `has_handler` takes exactly the blocks from `data_start` on whose cluster is that of a file with a
  -- handler, for reading and for writing.
  pub has_handler-member :
      (block : ℕ) (write : Bool) (t : Tables) (fs : Disk) (w : W)
      → (has_handler read_block run_handler eval block write t fs w).0
        ≡ (leb fs.data_start block && member (cluster_of block fs) (handled_clusters t))
  unfolding has_handler
  has_handler-member block write t fs w =
      let x = cluster_of block fs in
      let named = map (λ (f : HandledFile). f.cluster) t.handled_files in
      let devices = map (λ (d : DeviceFile). d.cluster) t.devices in
      ground (
        arith,
        find_iodir-member x t.iodirs,
        other_handler-member write x t fs w,
        member-append x (dir_clusters t.iodirs) (named ++ devices),
        member-append x named devices,
      )
