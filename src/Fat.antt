-- ===== src/Fat.antt =====
-- The FAT16 layer: src/fat_impl.c over the struct of src/sd_info.h. Blocks of the card are read through
-- the parameter `card`, the result of `sd_read_block` at a block number: `none` where the read fails.
-- An int16_t cluster is its bit pattern below 2 ^ 16, negative from 2 ^ 15 on. Numbers are 16-bit as on
-- the AVR, where `int` has 16 bits.
pub mod Entry
pub mod Walk
pub mod Init
use phatio.Prelude.{
  ℕ, zero, suc, ◌+◌, ◌-◌, ◌*◌, ◌/◌, ◌%◌, Bool, true, false, ◌&&◌, Option, none, some, List, bit_and,
  get_or, ltb, leb, ◌==◌, if◌then◌else◌,
}

pub record Disk : Type 0 where
  pub sd_type : ℕ
  pub sd_size : ℕ
  pub buf : List ℕ
  pub p_size : ℕ
  pub fat_start : ℕ
  pub data_start : ℕ
  pub root_dir : ℕ

abbrev pub byte_at : List ℕ → ℕ → ℕ
byte_at buf i = get_or buf i 0

-- `uint16_value(buf + i)` and `uint32_value(buf + i)`, little endian
abbrev pub uint16_value : List ℕ → ℕ → ℕ
uint16_value buf i = byte_at buf i + 256 * byte_at buf (i + 1)

abbrev pub uint32_value : List ℕ → ℕ → ℕ
uint32_value buf i = uint16_value buf i + 65536 * uint16_value buf (i + 2)

-- `fatdirent_get_cluster`
abbrev pub fatdirent_get_cluster : List ℕ → ℕ → ℕ
fatdirent_get_cluster buf i = uint16_value buf (i + 26)

abbrev pub is_negative : ℕ → Bool
is_negative cluster = leb 32768 cluster

-- `-1` as an int16_t: the first block of the root directory
abbrev pub root_cluster : ℕ
root_cluster = 65535

unfoldable pub cluster_to_block : Disk → ℕ → ℕ
cluster_to_block sd cluster =
    if is_negative cluster
    then (sd.root_dir + (65536 - cluster) - 1) % 65536
    else (sd.data_start + cluster + 65534) % 65536

-- the loop `for (c = 0; name[c] == buf[i + c] && c < 11; c++)`, with the rounds left
unfoldable pub count_equal : List ℕ → List ℕ → ℕ → ℕ → ℕ → ℕ
count_equal buf name i zero c = c
count_equal buf name i (suc n) c =
    let rest = count_equal buf name i n (c + 1) in
    if byte_at name c == byte_at buf (i + c) then rest else c

-- one round of `find_sfn_entry` at offset `i`
unfoldable pub entry_matches : List ℕ → List ℕ → ℕ → ℕ → ℕ → Bool
unfolding count_equal
entry_matches buf name attr_m attr i =
    (bit_and (byte_at buf (i + 11)) attr_m == attr) && (count_equal buf name i 11 0 == 11)

unfoldable pub find_entry_from : List ℕ → List ℕ → ℕ → ℕ → ℕ → ℕ → Option ℕ
find_entry_from buf name attr_m attr zero i = none
find_entry_from buf name attr_m attr (suc n) i =
    let rest = find_entry_from buf name attr_m attr n (i + 32) in
    if entry_matches buf name attr_m attr i then some i else rest

-- The pointer that the code returns is the offset into the block; 0 is `none`.
unfoldable pub find_sfn_entry : List ℕ → List ℕ → ℕ → ℕ → Option ℕ
unfolding find_entry_from entry_matches
find_sfn_entry buf name attr_m attr = find_entry_from buf name attr_m attr 16 0

-- `if (buf) return fatdirent_get_cluster(buf)`, else the rest of the loop
abbrev pub entry_or : Option ℕ → Disk → Option (ℕ × Disk) → Option (ℕ × Disk)
entry_or (some i) sd rest = some (fatdirent_get_cluster sd.buf i, sd)
entry_or none sd rest = rest

module _ (card : ℕ → Option (List ℕ)) where
  -- `sd_read_block`: a failed read leaves the buffer alone
  unfoldable pub read_block : ℕ → Disk → Bool × Disk
  read_block block sd = elim (card block) [
    | none ↦ (false, sd)
    | some b ↦ (true, record sd { buf = b })
  ]

  -- the FAT entry read by `get_next_cluster`
  unfoldable pub next_in_fat : Disk → ℕ → ℕ × Disk
  unfolding read_block
  next_in_fat sd cluster =
      let sd' = (read_block ((sd.fat_start + cluster / 256) % 65536) sd).1 in
      let next_cluster = uint16_value sd'.buf (bit_and cluster 0xff * 2) in
      (if ltb 2 next_cluster && ltb next_cluster 0xffef then next_cluster else 0, sd')

  unfoldable pub get_next_cluster : Disk → ℕ → ℕ × Disk
  unfolding next_in_fat cluster_to_block
  get_next_cluster sd cluster =
      let next_cluster = (cluster + 65535) % 65536 in
      if is_negative cluster
      then (if leb sd.data_start (cluster_to_block sd next_cluster) then 0 else next_cluster, sd)
      else next_in_fat sd cluster

  -- the loop of `find_sfn_file`, on fuel: `none` when it runs out
  unfoldable pub find_file_loop : List ℕ → ℕ → ℕ → ℕ → Disk → Option (ℕ × Disk)
  find_file_loop name attributes zero cluster sd = none
  find_file_loop name attributes (suc fuel) cluster sd =
      let sd' = (read_block (cluster_to_block sd cluster) sd).1 in
      let step = get_next_cluster sd' cluster in
      let rest = find_file_loop name attributes fuel step.0 step.1 in
      if cluster == 0
      then some (0, sd)
      else entry_or (find_sfn_entry sd'.buf name 0xd8 attributes) sd' rest

  unfoldable pub find_sfn_file : ℕ → ℕ → List ℕ → Bool → Disk → Option (ℕ × Disk)
  unfolding find_file_loop
  find_sfn_file fuel cluster name directory sd =
      find_file_loop name (if directory then 0x10 else 0) fuel cluster sd

  -- the fields that `disk_init` sets from the partition's boot block, at `pstart`
  unfoldable pub set_geometry : ℕ → Disk → Disk
  set_geometry pstart sd =
      let fat_start = (pstart + uint16_value sd.buf 14) % 65536 in
      let root_dir = (fat_start + byte_at sd.buf 16 * uint16_value sd.buf 22) % 65536 in
      record sd {
        fat_start = fat_start;
        p_size = uint16_value sd.buf 19;
        root_dir = root_dir;
        data_start = (root_dir + uint16_value sd.buf 17 / 16) % 65536;
      }

  unfoldable pub disk_init : Disk → Bool × Disk
  unfolding read_block set_geometry
  disk_init sd =
      let (found, mbr) = read_block 0 sd in
      let pstart = uint32_value mbr.buf 454 in
      let (readable, boot) = read_block pstart mbr in
      if found
        && (byte_at mbr.buf 510 == 0x55)
        && (byte_at mbr.buf 511 == 0xaa)
        && (byte_at mbr.buf 450 == 0x04)
      then if pstart == 0
        then (false, mbr)
        else if readable
        then (true, set_geometry pstart boot)
        else (false, boot)
      else (false, mbr)
