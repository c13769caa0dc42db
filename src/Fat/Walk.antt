-- ===== src/Fat/Walk.antt =====
-- `find_sfn_file` of src/fat_impl.c over a directory: along the root directory's blocks, and along a
-- chain of clusters.
use phatio.Prelude.{
  ℕ, zero, suc, ◌+◌, ◌-◌, ◌<◌, ◌≡◌, ◌≢◌, refl, Bool, false, Option, none, some, List, [], ◌∷◌, ◌==◌,
  leb, length, if◌then◌else◌, arith,
}
use phatio.Fat.{
  Disk, fatdirent_get_cluster, cluster_to_block, entry_or, find_sfn_entry, read_block,
  get_next_cluster, find_file_loop, find_sfn_file,
}

-- The directory as the list of its blocks: the cluster of the first entry that matches, else 0.
abbrev pub found_or : Option ℕ → List ℕ → ℕ → ℕ
found_or (some i) b later = fatdirent_get_cluster b i
found_or none b later = later

abbrev pub lookup_blocks : List ℕ → ℕ → List (List ℕ) → ℕ
lookup_blocks name attributes [] = 0
lookup_blocks name attributes (b ∷ bs) =
    found_or (find_sfn_entry b name 0xd8 attributes) b (lookup_blocks name attributes bs)

abbrev pub first {ℓ κ} : {A : Type ℓ} {B : Type κ} → Option (A × B) → Option A
first none = none
first (some p) = some p.0

module _ (card : ℕ → Option (List ℕ)) (sd : Disk) where
  -- the directory that starts at a cluster holds these blocks, all of them readable
  pub data Directory : ℕ → List (List ℕ) → Type 0 where
    end : Directory 0 []
    block :
        {cluster next : ℕ} {b : List ℕ} {bs : List (List ℕ)}
        → cluster ≢ 0
        → card (cluster_to_block sd cluster) ≡ some b
        → (get_next_cluster card (record sd { buf = b }) cluster).0 ≡ next
        → Directory next bs
        → Directory cluster (b ∷ bs)

module _ (card : ℕ → Option (List ℕ)) where
  pub block-buf :
      (sd : Disk) (x : List ℕ) (c : ℕ)
      → cluster_to_block (record sd { buf = x }) c ≡ cluster_to_block sd c
  unfolding cluster_to_block
  block-buf sd x c = refl

  -- reading changes nothing of the disk's record but the buffer
  pub next-disk :
      (sd : Disk) (cluster : ℕ)
      → (get_next_cluster card sd cluster).1
        ≡ record sd { buf = (get_next_cluster card sd cluster).1.buf }
  unfolding get_next_cluster
  next-disk sd cluster = ground arith

  pub read-some :
      (sd : Disk) (n : ℕ) {b : List ℕ}
      → card n ≡ some b
      → (read_block card n sd).1 ≡ record sd { buf = b }
  unfolding read_block
  read-some sd n h = ground arith

  found :
      (sd : Disk) (b : List ℕ) (r : Option (ℕ × Disk)) {later : ℕ} (o : Option ℕ)
      → first r ≡ some later
      → first (entry_or o (record sd { buf = b }) r) ≡ some (found_or o b later)
  found sd b r none e = e
  found sd b r (some i) e = refl

  pub find_file_loop-Directory :
      (name : List ℕ) (attributes fuel : ℕ) (sd : Disk) (x : List ℕ) {cluster : ℕ}
      {bs : List (List ℕ)}
      → Directory card sd cluster bs
      → length bs < fuel
      → first (find_file_loop card name attributes fuel cluster (record sd { buf = x }))
        ≡ some (lookup_blocks name attributes bs)
  unfolding find_file_loop
  find_file_loop-Directory name attributes zero sd x d h = absurd (omega arith)
  find_file_loop-Directory name attributes (suc fuel) sd x end h = refl
  find_file_loop-Directory name attributes (suc fuel) sd x
        (block {cluster} {next} {b} {bs} nz read link d) h =
      let here : card (cluster_to_block (record sd { buf = x }) cluster) ≡ some b =
        rw block-buf read in
      let e =
        read-some (record sd { buf = x }) (cluster_to_block (record sd { buf = x }) cluster) here in
      let y : List ℕ = (get_next_cluster card (record sd { buf = b }) cluster).1.buf in
      let ne : (cluster == 0) ≡ false = ground arith in
      let ih = find_file_loop-Directory name attributes fuel sd y d (omega arith) in
      rw (ne, find_file_loop, e, next-disk (record sd { buf = b }) cluster, link)
        (found sd b _ (find_sfn_entry b name 0xd8 attributes) ih)

  -- With fuel for one step more than the directory has blocks, `find_sfn_file` returns, and gives the
  -- cluster of the first entry of the directory that has the name and the kind asked for, or 0.
  pub find_sfn_file-Directory :
      (name : List ℕ) (directory : Bool) (sd : Disk) {cluster : ℕ} {bs : List (List ℕ)} (fuel : ℕ)
      → Directory card sd cluster bs
      → length bs < fuel
      → first (find_sfn_file card fuel cluster name directory sd)
        ≡ some (lookup_blocks name (if directory then 0x10 else 0) bs)
  unfolding find_sfn_file
  find_sfn_file-Directory name directory sd fuel d h =
      find_file_loop-Directory name _ fuel sd sd.buf d h

-- One step along the root directory: from the cluster of its block `k` to that of the next, and 0
-- after the block before `data_start`, whatever is on the card.
pub get_next_cluster_root :
    (card : ℕ → Option (List ℕ)) (sd : Disk) (k : ℕ)
    → k < 32767
    → sd.root_dir + k + 1 < 65536
    → (cluster_to_block sd (65535 - k) ≡ sd.root_dir + k)
      × (get_next_cluster card sd (65535 - k)
          ≡ ((if leb sd.data_start (sd.root_dir + k + 1) then 0 else 65535 - (k + 1)), sd))
unfolding get_next_cluster
get_next_cluster_root card sd k h fits = (ground arith, ground arith)
