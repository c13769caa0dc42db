-- ===== src/Support/MakeFs/Accepted.antt =====
-- The card that support/make_fs.c writes, in `disk_init` of src/fat_impl.c.
use phatio.Prelude.{
  ℕ, zero, suc, ◌+◌, ◌-◌, ◌*◌, ◌<◌, ◌≤◌, ◌≡◌, refl, sym, ap, ap₂, ◌∙◌, Bool, true, Option, none,
  some, List, [], ◌∷◌, length, drop, arith,
}
use phatio.Fat.{uint32_value, Disk, disk_init}
use phatio.Fat.Init.{read_block-some}
use phatio.Support.MakeFs.{
  create_mbr, create_fat16_root_block, create_fat16_header, Image, Volume, partition_size,
  fat_start, root_dir_start, data_start, eoc, create_sfn_entry, create_file, link_clusters,
  create_directory, buffer_for_cluster, dot, dot_dot, format,
}
use phatio.Support.MakeFs.Blocks.{bytes_from, card_of}
use phatio.Support.MakeFs.Format.{disk_init-format}
use phatio.Support.MakeFs.Kept.{
  Kept, create_sfn_entry-Kept, create_directory_entry-Placed, fat_entry-Kept, create_blocks-Kept,
}
use phatio.Support.MakeFs.Tree.{
  status_text, metadata_text, trashes_text, events_text, boot_dir_name, status_name, run_name,
  dev_name, etc_name, lib_name, metadata_name, trashes_name, events_name, no_log_name, readme_name,
  io_dir_name, mode_name, pins_name, print_decimal, create_pin_files, create_files,
  create_pin_directory, create_io_files, create_mac_files, make_fs,
}

module _ (old : Image) where
  -- a file was written, and the next entry goes behind its own
  abbrev Written : ℕ × Volume → Type 0
  Written r = (32768 ≤ r.0) × Kept old r.1.image

  -- a directory, whose entries go to another place
  abbrev Opened : ℕ × (ℕ × Volume) → Type 0
  Opened r = (32768 ≤ r.0) × Written r.1

  create_file-Written :
      (entry : ℕ) (name : List ℕ) (sfn : Option (List ℕ)) (attributes : ℕ) (content : List ℕ)
      (size : Option ℕ) (v : Volume)
      → 32768 ≤ entry
      → Kept old v.image
      → Written (create_file entry name sfn attributes content size v)
  unfolding create_file
  create_file-Written entry name sfn attributes content size v l h =
      let n : ℕ = elim size [ none ↦ length content | some n ↦ n ] in
      let p =
        create_directory_entry-Placed old entry name sfn attributes v.free_cluster n v.image l h in
      (p.0, create_blocks-Kept old n n content _ p.1)

  link_clusters-Kept : (n : ℕ) (v : Volume) → Kept old v.image → Kept old (link_clusters n v).image
  unfolding link_clusters
  link_clusters-Kept zero v h = h
  link_clusters-Kept (suc n) v h =
      link_clusters-Kept n _ (fat_entry-Kept old v.free_cluster (v.free_cluster + 1) v.image h)

  create_directory-Opened :
      (entry : ℕ) (name : List ℕ) (sfn : Option (List ℕ)) (parent_cluster size : ℕ) (v : Volume)
      → 32768 ≤ entry
      → Kept old v.image
      → Opened (create_directory entry name sfn parent_cluster size v)
  unfolding create_directory create_sfn_entry
  create_directory-Opened entry name sfn parent_cluster size v l h =
      let first = v.free_cluster in
      let v₁ = link_clusters (size - 1) v in
      let p = fat_entry-Kept old v₁.free_cluster eoc v₁.image (link_clusters-Kept (size - 1) v h) in
      let q = create_directory_entry-Placed old entry name sfn 0x10 first 0 _ l p in
      let r =
        create_sfn_entry-Kept old (buffer_for_cluster first) dot 0x10 first 0 _ (omega arith) q.1 in
      let s =
        create_sfn_entry-Kept old (buffer_for_cluster first + 32) dot_dot 0x10 parent_cluster 0 _
          (omega arith) r in
      (q.0, (omega arith, s))

  create_pin_files-Written :
      (n i entry : ℕ) (v : Volume)
      → 32768 ≤ entry
      → Kept old v.image
      → Written (create_pin_files n i entry v)
  unfolding create_pin_files
  create_pin_files-Written zero i entry v l h = (l, h)
  create_pin_files-Written (suc n) i entry v l h =
      let p =
        create_file-Written entry (print_decimal i) none 0 (b'?' ∷ b'?' ∷ b'?' ∷ b'?' ∷ []) none v l
          h in
      create_pin_files-Written n (i + 1) _ _ p.0 p.1

  create_files-Written :
      (files : List (List ℕ × List ℕ)) (entry : ℕ) (v : Volume)
      → 32768 ≤ entry
      → Kept old v.image
      → Written (create_files files entry v)
  unfolding create_files
  create_files-Written [] entry v l h = (l, h)
  create_files-Written ((name, content) ∷ files) entry v l h =
      let p = create_file-Written entry name none 0 content none v l h in
      create_files-Written files _ _ p.0 p.1

  create_pin_directory-Written :
      (name : List ℕ) (io_cluster io_dir : ℕ) (v : Volume)
      → 32768 ≤ io_dir
      → Kept old v.image
      → Written (create_pin_directory name io_cluster io_dir v)
  unfolding create_pin_directory
  create_pin_directory-Written name io_cluster io_dir v l h =
      let p = create_directory-Opened io_dir name none io_cluster 4 v l h in
      (p.0, (create_pin_files-Written 20 0 _ _ p.1.0 p.1.1).1)

  create_io_files-Kept :
      (bootfile boot_text : List ℕ) (etc_files lib_files : List (List ℕ × List ℕ))
      (io_cluster io_dir : ℕ) (v : Volume)
      → 32768 ≤ io_dir
      → Kept old v.image
      → Kept old (create_io_files bootfile boot_text etc_files lib_files io_cluster io_dir v).image
  unfolding create_io_files
  create_io_files-Kept bootfile boot_text etc_files lib_files io_cluster io_dir v l h =
      let (i₁, (b, k₁)) = create_directory-Opened io_dir boot_dir_name none io_cluster 4 v l h in
      let (b', k₂) = create_file-Written _ (drop 3 bootfile) none 0 boot_text none _ b k₁ in
      let (i₃, k₃) = create_file-Written _ status_name none 0 status_text (some 512) _ i₁ k₂ in
      let (i₄, k₄) = create_file-Written _ run_name none 0 (32 ∷ []) none _ i₃ k₃ in
      let (i₅, (d, k₅)) = create_directory-Opened _ dev_name none io_cluster 4 _ i₄ k₄ in
      let (i₆, (e, k₆)) = create_directory-Opened _ etc_name none io_cluster 4 _ i₅ k₅ in
      let (i₇, (f, k₇)) = create_directory-Opened _ lib_name none io_cluster 4 _ i₆ k₆ in
      let (e', k₈) = create_files-Written etc_files _ _ e k₇ in
      (create_files-Written lib_files _ _ f k₈).1

  create_mac_files-Kept :
      (root_dir : ℕ) (v : Volume)
      → 32768 ≤ root_dir
      → Kept old v.image
      → Kept old (create_mac_files root_dir v).image
  unfolding create_mac_files
  create_mac_files-Kept root_dir v l h =
      let (r₁, k₁) = create_file-Written root_dir metadata_name none 5 metadata_text none v l h in
      let (r₂, k₂) = create_file-Written _ trashes_name none 5 trashes_text none _ r₁ k₁ in
      let (r₃, (e, k₃)) = create_directory-Opened _ events_name none 0 2 _ r₂ k₂ in
      (create_file-Written _ no_log_name none 5 events_text none _ e k₃).1

make_fs-Kept :
    (serial_number : ℕ) (readme bootfile boot_text : List ℕ)
    (etc_files lib_files : List (List ℕ × List ℕ))
    → Kept
        (format serial_number (λ a. 0))
        (make_fs serial_number readme bootfile boot_text etc_files lib_files).image
unfolding make_fs
make_fs-Kept serial_number readme bootfile boot_text etc_files lib_files =
    let old = format serial_number (λ a. 0) in
    let start : Volume = record { image = old; free_cluster = 2 } in
    let (r₁, k₁) =
      create_file-Written old (root_dir_start * 512 + 32) readme_name none 0 readme none start
        (omega arith) (λ a h. refl) in
    let (r₂, (i₂, k₂)) = create_directory-Opened old _ io_dir_name none 0 4 _ r₁ k₁ in
    let (i₃, k₃) = create_pin_directory-Written old mode_name 2 _ _ i₂ k₂ in
    let (i₄, k₄) = create_pin_directory-Written old pins_name 2 _ _ i₃ k₃ in
    create_mac_files-Kept old _ _ r₂
      (create_io_files-Kept old bootfile boot_text etc_files lib_files 2 _ _ i₄ k₄)

bytes_from-Kept :
    (n a : ℕ) (old new : Image)
    → Kept old new
    → a + n ≤ 32768
    → bytes_from n a new ≡ bytes_from n a old
bytes_from-Kept zero a old new h l = refl
bytes_from-Kept (suc n) a old new h l =
    ap₂ (λ x xs. x ∷ xs) (h a (omega arith)) (bytes_from-Kept n (a + 1) old new h (omega arith))

-- `disk_init` reads block 0 and the block that it names
disk_init_same :
    (card card' : ℕ → Option (List ℕ)) (sd : Disk) (mbr boot : List ℕ)
    → card 0 ≡ some mbr
    → card' 0 ≡ some mbr
    → card (uint32_value mbr 454) ≡ some boot
    → card' (uint32_value mbr 454) ≡ some boot
    → disk_init card sd ≡ disk_init card' sd
unfolding disk_init
disk_init_same card card' sd mbr boot p p' q q' =
    rw
      (
        read_block-some card 0 sd mbr p,
        read_block-some card' 0 sd mbr p',
        read_block-some card (uint32_value mbr 454) (record sd { buf = mbr }) boot q,
        read_block-some card' (uint32_value mbr 454) (record sd { buf = mbr }) boot q',
      )
      refl

start_of_partition :
    (serial_number : ℕ) → uint32_value (bytes_from 512 0 (format serial_number (λ a. 0))) 454 ≡ 63
unfolding format create_mbr create_fat16_root_block create_fat16_header create_sfn_entry
start_of_partition serial_number = refl

-- the bytes of the texts of files
abbrev pub bytes_of_texts : List (List ℕ × List ℕ) → ℕ
bytes_of_texts [] = 0
bytes_of_texts ((name, content) ∷ files) = length content + bytes_of_texts files

-- From at most 1000 files for /io/etc and /io/lib, and at most 15,000,000 bytes of texts in all, for which
-- `buffer`, `file_buf` and the partition have space, `main` writes a card that the firmware accepts, with
-- the places of the FAT, of the root directory and of the data that the tool has written to.
pub disk_init-make_fs :
    (serial_number : ℕ) (readme bootfile boot_text : List ℕ)
    (etc_files lib_files : List (List ℕ × List ℕ)) (sd : Disk)
    → length etc_files + length lib_files ≤ 1000
    → length readme + length boot_text + bytes_of_texts etc_files + bytes_of_texts lib_files
      ≤ 15000000
    → let image = (make_fs serial_number readme bootfile boot_text etc_files lib_files).image in
      disk_init (card_of image) sd ≡ (
        true,
        record sd {
          buf = bytes_from 512 (63 * 512) image;
          p_size = partition_size;
          fat_start = fat_start;
          root_dir = root_dir_start;
          data_start = data_start;
        },
      )
disk_init-make_fs serial_number readme bootfile boot_text etc_files lib_files sd few small =
    let old = format serial_number (λ a. 0) in
    let new = (make_fs serial_number readme bootfile boot_text etc_files lib_files).image in
    let h = make_fs-Kept serial_number readme bootfile boot_text etc_files lib_files in
    let at : (m : ℕ) → m < 64 → card_of new m ≡ card_of old m =
      λ m l. ap some (bytes_from-Kept 512 (m * 512) old new h (omega arith)) in
    let z = start_of_partition serial_number in
    let f : List ℕ → Bool × Disk = λ b. (
      true,
      record sd {
        buf = b;
        p_size = partition_size;
        fat_start = fat_start;
        root_dir = root_dir_start;
        data_start = data_start;
      },
    ) in
    let m = uint32_value (bytes_from 512 0 old) 454 in
    disk_init_same (card_of new) (card_of old) sd (bytes_from 512 0 old)
      (bytes_from 512 (m * 512) old) (at 0 (omega arith)) refl (at m (omega (arith, z))) refl
    ∙ (disk_init-format serial_number (λ a. 0) sd
        ∙ ap f (sym (bytes_from-Kept 512 (63 * 512) old new h (omega arith))))
