-- ===== src/Support/MakeFs.antt =====
-- support/make_fs.c: the image of a card. The image is the bytes by their address, `buffer`; a pointer
-- into it is an address. `buffer` has 32,000,000 bytes, and so has `file_buf`, into which a file is read;
-- the model has no end of memory and is for files with which the tool stays inside of both. The texts of files are lists of characters, without the 0 that ends them.
pub mod Blocks
pub mod Format
pub mod Rounds
pub mod Link
pub mod File
pub mod Entry
pub mod Tree
pub mod Kept
pub mod Accepted
pub mod Fat32
use phatio.Prelude.{
  strncpy, ℕ, zero, suc, ◌+◌, ◌-◌, ◌*◌, ◌/◌, ◌%◌, ◌^◌, Bool, ◌&&◌, Option, none, some, List, [],
  ◌∷◌, ◌++◌, length, get_or, drop, take, bit_or, ltb, leb, ◌==◌, if◌then◌else◌,
}
use phatio.ShortName.{fat_sfn, sfn_checksum}

abbrev pub Image : Type 0
Image = ℕ → ℕ

abbrev pub partition_size : ℕ
partition_size = 16003072 / 512

abbrev pub fat_sectors : ℕ
fat_sectors = ((partition_size + 2) * 2 + 511) / 512

abbrev pub partition_start : ℕ
partition_start = 63

abbrev pub fat_start : ℕ
fat_start = partition_start + 1

abbrev pub root_dir_sectors : ℕ
root_dir_sectors = 32

abbrev pub root_dir_start : ℕ
root_dir_start = fat_start + fat_sectors

abbrev pub data_start : ℕ
data_start = root_dir_start + root_dir_sectors

abbrev pub eoc : ℕ
eoc = 0xffff

abbrev pub buffer_for_cluster : ℕ → ℕ
buffer_for_cluster x = (data_start + x - 2) * 512

-- a byte is written
abbrev pub put : ℕ → ℕ → Image → Image
put address byte image a = if a == address then byte else image a

-- `memcpy`
abbrev pub copy : ℕ → List ℕ → Image → Image
copy address bytes image a =
    if leb address a && ltb a (address + length bytes)
    then get_or bytes (a - address) 0
    else image a

-- numbers in memory, little endian
abbrev pub bytes16 : ℕ → List ℕ
bytes16 n = n % 256 ∷ n / 256 % 256 ∷ []

abbrev pub bytes32 : ℕ → List ℕ
bytes32 n = n % 256 ∷ n / 256 % 256 ∷ n / 65536 % 256 ∷ n / 16777216 % 256 ∷ []

abbrev pub mbr_partition : List ℕ
mbr_partition = 0 ∷ 1 ∷ 1 ∷ 0 ∷ 4 ∷ 0xfe ∷ 0xff ∷ 0xff ∷ []

unfoldable pub create_mbr : ℕ → ℕ → ℕ → Image → Image
create_mbr block p1_start p1_sectors image =
    let mbr = block * 512 in
    put (mbr + 511) 0xaa (
      put (mbr + 510) 0x55 (
        copy (mbr + 446 + 12) (bytes32 p1_sectors)
          (copy (mbr + 446 + 8) (bytes32 p1_start) (copy (mbr + 446) mbr_partition image))))

-- the table `BPB` of `create_FAT16_root_block`
abbrev pub bpb_table : List ℕ
bpb_table =
    0xeb ∷ 0x3c ∷ 0x90 ∷ b'B' ∷ b'S' ∷ b'D' ∷ b' ' ∷ b' ' ∷ b'4' ∷ b'.' ∷ b'4' ∷ 0 ∷ 2 ∷ 1 ∷ 1 ∷ 0
    ∷ 1 ∷ 0 ∷ 2 ∷ 0 ∷ 0 ∷ 0xf0 ∷ 0 ∷ 0 ∷ 0 ∷ 0 ∷ 0 ∷ 0 ∷ 0 ∷ 0 ∷ 0 ∷ 0 ∷ 0 ∷ 0 ∷ 0 ∷ 0 ∷ 0x80 ∷ 0
    ∷ 0x29 ∷ 0 ∷ 0 ∷ 0 ∷ 0 ∷ b'P' ∷ b'H' ∷ b'A' ∷ b'T' ∷ b'I' ∷ b'O' ∷ b' ' ∷ b' ' ∷ b' ' ∷ b' '
    ∷ b' ' ∷ b'F' ∷ b'A' ∷ b'T' ∷ b'1' ∷ b'6' ∷ b' ' ∷ b' ' ∷ b' ' ∷ []

-- `create_FAT16_root_block`, which leaves its last three arguments alone; `serial_number` is the time
unfoldable pub create_fat16_root_block : ℕ → ℕ → ℕ → ℕ → ℕ → Image → Image
create_fat16_root_block serial_number block hidden_sectors total_sectors sectors_per_fat image =
    let bpb = block * 512 in
    put (bpb + 511) 0xaa (
      put (bpb + 510) 0x55 (
        copy (bpb + 39) (bytes32 serial_number) (
          copy (bpb + 28) (bytes32 hidden_sectors) (
            copy (bpb + 22) (bytes16 sectors_per_fat)
              (copy (bpb + 19) (bytes16 total_sectors) (copy bpb bpb_table image))))))

unfoldable pub create_fat16_header : ℕ → Image → Image
create_fat16_header buf image =
    put (buf + 3) 0x0f (put (buf + 2) 0xff (put (buf + 1) 0xff (put buf 0xf0 image)))

unfoldable pub fat_entry : ℕ → ℕ → Image → Image
fat_entry cluster value image = copy (fat_start * 512 + cluster * 2) (bytes16 value) image

-- `WRITE_TERMINATED_LFN_STRING`
abbrev pub write_terminated : List ℕ → ℕ → ℕ → Image → Image
write_terminated lfn buf i image =
    if ltb i (length lfn)
    then put buf (get_or lfn i 0) image
    else if ltb (length lfn) i
    then put (buf + 1) 0xff (put buf 0xff image)
    else image

abbrev pub lfn_offsets : List ℕ
lfn_offsets = 1 ∷ 3 ∷ 5 ∷ 7 ∷ 9 ∷ 14 ∷ 16 ∷ 18 ∷ 20 ∷ 22 ∷ 24 ∷ 28 ∷ 30 ∷ []

abbrev pub write_lfn : List ℕ → ℕ → List ℕ → ℕ → Image → Image
write_lfn lfn buf [] i image = image
write_lfn lfn buf (o ∷ os) i image =
    write_lfn lfn buf os (i + 1) (write_terminated lfn (buf + o) i image)

-- An entry is written at `buf`; the next one goes behind it.
unfoldable pub create_lfn_entry : ℕ → ℕ → List ℕ → ℕ → Image → ℕ × Image
create_lfn_entry buf entry lfn checksum image = (
  buf + 32,
  put (buf + 27) 0 (
      put (buf + 26) 0 (
        put (buf + 13) checksum (
          put (buf + 12) 0
            (put (buf + 11) 0x0f (write_lfn lfn buf lfn_offsets 0 (put buf entry image)))))),
)

abbrev pub times : List ℕ
times =
    0x4b ∷ 0x1d ∷ 0x7d ∷ 0x7b ∷ 0x40 ∷ 0x7b ∷ 0x40 ∷ 0 ∷ 0 ∷ 0x1d ∷ 0x7d ∷ 0x7b ∷ 0x40 ∷ 0x2c ∷ 0
    ∷ []

unfoldable pub create_sfn_entry : ℕ → List ℕ → ℕ → ℕ → ℕ → Image → ℕ × Image
create_sfn_entry buf short_name attributes cluster size image = (
  buf + 32,
  copy (buf + 28) (bytes32 size) (
      copy (buf + 26) (bytes16 cluster)
        (copy (buf + 13) times (put (buf + 11) attributes (copy buf (take 11 short_name) image)))),
)

-- the loop over the entries of the long name, from `num` down
unfoldable pub create_lfn_entries : ℕ → ℕ → List ℕ → ℕ → ℕ → Image → ℕ × Image
unfolding create_lfn_entry
create_lfn_entries num_lfn_entries zero name checksum buf image = (buf, image)
create_lfn_entries num_lfn_entries (suc n) name checksum buf image =
    let ordinal = bit_or (suc n) (if suc n == num_lfn_entries then 64 else 0) in
    let (buf', image') = create_lfn_entry buf ordinal (drop (n * 13) name) checksum image in
    create_lfn_entries num_lfn_entries n name checksum buf' image'

unfoldable pub create_directory_entry : ℕ → List ℕ → Option (List ℕ) → ℕ → ℕ → ℕ → Image → ℕ × Image
unfolding create_lfn_entries create_sfn_entry
create_directory_entry buf name sfn attributes cluster size image =
    let short = fat_sfn (elim sfn [ none ↦ name | some s ↦ s ]) in
    let num_lfn_entries = length name % 256 / 13 + 1 in
    let (buf', image') =
      create_lfn_entries num_lfn_entries num_lfn_entries name (sfn_checksum short) buf image in
    create_sfn_entry buf' short attributes cluster size image'

pub record Volume : Type 0 where
  pub image : Image
  pub free_cluster : ℕ

-- the loop over the blocks of a file, with what is left of it; each round takes 512 bytes
unfoldable pub create_blocks : ℕ → ℕ → List ℕ → Volume → Volume
create_blocks zero left content v = v
create_blocks (suc n) left content v =
    let linked =
      fat_entry v.free_cluster (if ltb 512 left then v.free_cluster + 1 else eoc) v.image in
    let v' : Volume = record {
      image = copy (buffer_for_cluster v.free_cluster) (strncpy 512 content) linked;
      free_cluster = (v.free_cluster + 1) % 2 ^ 16;
    } in
    let rest = create_blocks n (left - 512) (drop 512 content) v' in if left == 0 then v else rest

-- `none` is the length -1
unfoldable pub create_file :
    ℕ → List ℕ → Option (List ℕ) → ℕ → List ℕ → Option ℕ → Volume → ℕ × Volume
unfolding create_directory_entry create_blocks
create_file entry name sfn attributes content size v =
    let n : ℕ = elim size [ none ↦ length content | some n ↦ n ] in
    let (entry', image) =
      create_directory_entry entry name sfn attributes v.free_cluster n v.image in
    (entry', create_blocks n n content (record v { image = image }))

-- the loop over the clusters of a directory but the last one
unfoldable pub link_clusters : ℕ → Volume → Volume
unfolding fat_entry
link_clusters zero v = v
link_clusters (suc n) v = link_clusters n (record {
  image = fat_entry v.free_cluster (v.free_cluster + 1) v.image;
  free_cluster = (v.free_cluster + 1) % 2 ^ 16;
})

abbrev pub dot : List ℕ
dot = 46 ∷ 32 ∷ 32 ∷ 32 ∷ 32 ∷ 32 ∷ 32 ∷ 32 ∷ 32 ∷ 32 ∷ 32 ∷ []

abbrev pub dot_dot : List ℕ
dot_dot = 46 ∷ 46 ∷ 32 ∷ 32 ∷ 32 ∷ 32 ∷ 32 ∷ 32 ∷ 32 ∷ 32 ∷ 32 ∷ []

-- the place behind the entry, and where the entries of the new directory start
unfoldable pub create_directory : ℕ → List ℕ → Option (List ℕ) → ℕ → ℕ → Volume → ℕ × (ℕ × Volume)
unfolding link_clusters fat_entry create_directory_entry create_sfn_entry
create_directory entry name sfn parent_cluster size v =
    let first_cluster = v.free_cluster in
    let v₁ = link_clusters (size - 1) v in
    let image₁ = fat_entry v₁.free_cluster eoc v₁.image in
    let (entry', image₂) = create_directory_entry entry name sfn 0x10 first_cluster 0 image₁ in
    let (start₁, image₃) =
      create_sfn_entry (buffer_for_cluster first_cluster) dot 0x10 first_cluster 0 image₂ in
    let (start₂, image₄) = create_sfn_entry start₁ dot_dot 0x10 parent_cluster 0 image₃ in
    (entry', (start₂, record { image = image₄; free_cluster = (v₁.free_cluster + 1) % 2 ^ 16 }))

-- `main` up to the root directory's label, on the memory that it has cleared
unfoldable pub format : ℕ → Image → Image
unfolding create_mbr create_fat16_root_block create_fat16_header create_sfn_entry
format serial_number image =
    (create_sfn_entry (root_dir_start * 512)
      (b'P' ∷ b'H' ∷ b'A' ∷ b'T' ∷ b'I' ∷ b'O' ∷ 32 ∷ 32 ∷ 32 ∷ 32 ∷ 32 ∷ []) 0x08 0 0
      (create_fat16_header (512 * fat_start) (
        create_fat16_root_block serial_number partition_start partition_start partition_size
          fat_sectors (create_mbr 0 partition_start partition_size image)))).1
