-- ===== src/Tests/Storage.antt =====
-- Runs for src/fat_impl.c, src/sd.c, src/scsi_impl.c and src/disk.c.
use phatio.Prelude.{
  ℕ, ◌≡◌, ◌≢◌, ◌⊎◌, ◌↔◌, ◌<◌, refl, Bool, true, false, Option, none, some, List, [], ◌∷◌, ◌++◌,
  replicate, length, ◌+◌, ◌==◌, if◌then◌else◌, arith,
}
use phatio.Fat.{Disk, cluster_to_block, find_sfn_entry, find_sfn_file, get_next_cluster}
use phatio.Fat.Entry.{IsFirst, find_sfn_entry-IsFirst}
use phatio.Fat.Walk.{Directory, first, find_sfn_file-Directory}
use phatio.ShortName.{sfn_checksum, fat_sfn, fat_sfn_safe_char}
use phatio.ShortName.Checksum.{sfn_checksum-ne}
use phatio.ShortName.Form.{All, IsShort, fat_sfn-IsShort}
use phatio.ShortName.Plain.{IsKept, fat_sfn-kept}
use phatio.Scsi.{Sense, Device, illegal_request, scsi_command}
use phatio.Scsi.Laws.{scsi_command_sense}
use phatio.Sd.{sd_read_block, sd_read_start, card_address}
use phatio.Sd.Init.{size_v2}
use phatio.Sd.Size.{size_v2_iff}
use phatio.Sd.Laws.{BlockRead, answer, nothing, sd_read_block-BlockRead}

-- the name of an entry of a directory
abbrev name : List ℕ
name = b'R' ∷ b'U' ∷ b'N' ∷ b' ' ∷ b' ' ∷ b' ' ∷ b' ' ∷ b' ' ∷ b'L' ∷ b'I' ∷ b'O' ∷ []

-- a block whose second entry has the name and the cluster 7
abbrev entries : List ℕ
entries = replicate 32 0 ++ name ++ 32 ∷ replicate 14 0 ++ 7 ∷ 0 ∷ replicate 452 0

find_sfn_entry-IsFirst_example :
    IsFirst entries name 0xd8 0 16 0 (find_sfn_entry entries name 0xd8 0)
find_sfn_entry-IsFirst_example = find_sfn_entry-IsFirst entries name 0xd8 0

abbrev disk : Disk
disk = record {
  sd_type = 6;
  sd_size = 8000;
  buf = replicate 512 0;
  p_size = 7000;
  fat_start = 10;
  data_start = 42;
  root_dir = 40;
}

-- two readable blocks of the root directory
abbrev card : ℕ → Option (List ℕ)
card n = if n == 40 then some (replicate 512 0) else if n == 41 then some entries else none

root : Directory card disk 65535 (replicate 512 0 ∷ entries ∷ [])
unfolding cluster_to_block get_next_cluster
root =
    Directory.block {next = 65534} (omega arith) refl refl
      (Directory.block {next = 0} (omega arith) refl refl Directory.end)

find_sfn_file-Directory_example : first (find_sfn_file card 3 65535 name false disk) ≡ some 7
unfolding find_sfn_entry
find_sfn_file-Directory_example = find_sfn_file-Directory card name false disk 3 root (omega arith)

abbrev mbr : List ℕ
mbr = replicate 450 0 ++ 4 ∷ 0 ∷ 0 ∷ 0 ∷ 63 ∷ 0 ∷ 0 ∷ 0 ∷ replicate 52 0 ++ 0x55 ∷ 0xaa ∷ []

abbrev card_of : ℕ → Option (List ℕ)
card_of n = if n == 0 then some mbr else some (replicate 512 0)

sfn_checksum-ne_example :
    sfn_checksum (b'A' ∷ replicate 10 b' ') ≢ sfn_checksum (b'B' ∷ replicate 10 b' ')
sfn_checksum-ne_example =
    sfn_checksum-ne [] (replicate 10 b' ') b'A' b'B' refl (omega arith) (omega arith) (omega arith)

abbrev long_name : List ℕ
long_name = b'a' ∷ b' ' ∷ b'+' ∷ b'.' ∷ b'c' ∷ []

fat_sfn-IsShort_example : (length (fat_sfn long_name) ≡ 11) × All IsShort (fat_sfn long_name)
fat_sfn-IsShort_example =
    fat_sfn-IsShort long_name
      (omega arith, (omega arith, (omega arith, (omega arith, (omega arith, tt)))))

IsKept-R : IsKept b'R'
unfolding fat_sfn_safe_char
IsKept-R = (refl, omega arith, omega arith)

IsKept-L : IsKept b'L'
unfolding fat_sfn_safe_char
IsKept-L = (refl, omega arith, omega arith)

fat_sfn-kept_example :
    fat_sfn (b'R' ∷ b'.' ∷ b'L' ∷ []) ≡ b'R' ∷ replicate 7 b' ' ++ b'L' ∷ b' ' ∷ b' ' ∷ []
fat_sfn-kept_example =
    fat_sfn-kept (b'R' ∷ []) (b'L' ∷ []) (IsKept-R, tt) (IsKept-L, tt) (λ e. cc) (λ e. cc)
      (omega arith) (omega arith)

abbrev inquiry : List ℕ
inquiry = 0 ∷ 0x80 ∷ 0 ∷ 2 ∷ []

abbrev sense_bytes : Sense → List ℕ
sense_bytes e = 0x70 ∷ 0 ∷ e.key ∷ replicate 9 0 ++ e.code ∷ e.qualifier ∷ []

abbrev device : List ℕ → Device
device command = record {
  command = command;
  data_transfer_length = 1024;
  error_response = record { key = 0; code = 0; qualifier = 0 };
  sent = [];
}

abbrev kept : ℕ → ℕ → ℕ → ℕ
kept start count s = s

abbrev added : ℕ → ℕ → ℕ → ℕ
added start count s = s + start + count

-- READ(10) of two blocks from block 9 on
abbrev read_10 : Device
read_10 = device (0x28 ∷ 0 ∷ 0 ∷ 0 ∷ 0 ∷ 9 ∷ 0 ∷ 0 ∷ 2 ∷ 0 ∷ [])

abbrev inquiry_36 : Device
inquiry_36 = device (0x12 ∷ 0 ∷ 0 ∷ 0 ∷ 36 ∷ 0 ∷ [])

abbrev answered : Device → Bool × Device × ℕ
answered d = scsi_command inquiry sense_bytes kept added 10 d 5

scsi_command_sense_example :
    (((answered read_10).0 ≡ true)
      × ((answered read_10).1.error_response ≡ record { key = 0; code = 0; qualifier = 0 }))
    ⊎ (((answered read_10).0 ≡ false) × ((answered read_10).1.error_response.key ≡ illegal_request))
scsi_command_sense_example = scsi_command_sense inquiry sense_bytes kept added 10 read_10 5

sd_read_block-BlockRead_example :
    BlockRead answer nothing nothing
      (sd_read_start answer nothing nothing (card_address 3 disk) (0 ∷ [])).0
      disk
      (sd_read_block answer nothing nothing 3 disk (0 ∷ [])).0.0
      (sd_read_block answer nothing nothing 3 disk (0 ∷ [])).0.1
sd_read_block-BlockRead_example = sd_read_block-BlockRead answer nothing nothing 3 disk (0 ∷ [])

-- a register with C_SIZE 15000
abbrev csd : List ℕ
csd = 64 ∷ 0 ∷ 0 ∷ 0 ∷ 0 ∷ 0 ∷ 0 ∷ 0 ∷ 58 ∷ 152 ∷ []

size_v2_iff_example : (size_v2 csd ≡ 15361024) ↔ ((58 < 128) ⊎ (◌≡◌ {A = ℕ} 0 63))
size_v2_iff_example = size_v2_iff csd (omega arith) (omega arith)
