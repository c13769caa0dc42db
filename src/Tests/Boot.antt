-- ===== src/Tests/Boot.antt =====
-- Runs of the theorems on the boot loader and the tools at concrete inputs.
use phatio.Prelude.{
  ℕ, zero, suc, ◌*◌, ◌<◌, ◌≡◌, ◌≢◌, refl, true, false, Option, some, List, [], ◌∷◌, ◌++◌, replicate,
  if◌then◌else◌, ◌==◌, arith,
}
use phatio.Fat.{
  find_sfn_entry, Disk, cluster_to_block, read_block, get_next_cluster, next_in_fat, root_cluster,
}
use phatio.Fat.Walk.{Directory}
use phatio.Boot.Written.{Loaded}
use phatio.Boot.Card.{Boot, io_name, boot_name, is_bootfile, find_and_load_bootfile, check_bootfile}
use phatio.Boot.Check.{BootFile, IsBootFile, Contents, text_of, check_bootfile_refused}
use phatio.Boot.Search.{is_candidate, find_and_load_bootfile_first}
use phatio.Support.CrcHexfile.{crc16_round, crc16_update, main}
use phatio.Support.CrcHexfile.File.{main-text_of}
use phatio.Support.CrcHexfile.Name.{named_file-Loaded}

-- one record of two bytes, and the last one
abbrev pub boot_file : BootFile
boot_file = record {
  gap = [];
  lines =
      record {
        address_high = 0;
        address_low = 0;
        bytes = 18 ∷ 52 ∷ [];
        checksum = 184;
        gap = 13 ∷ 10 ∷ [];
      }
      ∷ [];
  last = record { address_high = 0; address_low = 0; bytes = []; checksum = 255; gap = [] };
}

not_start : (n : ℕ) → (n == 58) ≡ false → n ≢ 58
not_start n h e = ground arith

pub boot_file_lem : IsBootFile boot_file
boot_file_lem = record {
  before = tt;
  records = (
    record {
      high = omega arith;
      low = omega arith;
      few = omega arith;
      data_bytes = (omega arith, (omega arith, tt));
      sum = omega arith;
      between = (not_start 13 refl, (not_start 10 refl, tt));
    },
    tt,
  );
  final = record {
    high = omega arith;
    low = omega arith;
    few = omega arith;
    data_bytes = tt;
    sum = omega arith;
    between = tt;
  };
  no_bytes = refl;
  short = omega arith;
  fits = omega arith;
}

abbrev boot_rest : List ℕ
boot_rest = replicate 484 0

abbrev boot_block : List ℕ
boot_block = text_of boot_file ++ boot_rest

-- a card with the file in cluster 3
abbrev boot_disk : Disk
boot_disk = record {
  sd_type = 0;
  sd_size = 0;
  buf = [];
  p_size = 100;
  fat_start = 64;
  data_start = 97;
  root_dir = 65;
}

abbrev boot_card : ℕ → Option (List ℕ)
boot_card n = if n == 98 then some boot_block else some (replicate 512 0)

boot-Contents : Contents boot_card boot_disk 3 (text_of boot_file)
unfolding cluster_to_block get_next_cluster next_in_fat read_block
boot-Contents = record {
  blocks = boot_block ∷ [];
  rest = boot_rest;
  chain = Directory.block {next = 0} (omega arith) refl refl Directory.end;
  whole = (refl, tt);
  holds = refl;
}

abbrev pub boot : Boot
boot = record {
  reader = record { disk = boot_disk; offset = 0; cluster = 0 };
  flash = λ a. 255;
  version = 88 ∷ 48 ∷ 48 ∷ 49 ∷ [];
}

main-text_of_example : main (text_of boot_file) ≡ 55 ∷ 55 ∷ 48 ∷ 68 ∷ []
unfolding crc16_update crc16_round
main-text_of_example = main-text_of boot_file boot_file_lem

named_file-Loaded_example :
    let (loaded, after) =
      check_bootfile boot_card crc16_update
        (replicate 128 0)
        (98 ∷ 48 ∷ 48 ∷ 49 ∷ main (text_of boot_file))
        28
        3
        boot in
    (loaded ≡ true)
    × ((after.version ≡ 98 ∷ 48 ∷ 48 ∷ 49 ∷ []) × Loaded boot.flash (18 ∷ 52 ∷ []) after.flash)
named_file-Loaded_example =
    named_file-Loaded boot_card boot_disk crc16_update (replicate 128 0) 3 boot_file 98 48 48 49
      boot refl boot_file_lem (omega arith) boot-Contents (λ crc a h k. refl) refl refl

ne_of : (m n : ℕ) → (m == n) ≡ false → m ≢ n
ne_of m n h e = ground arith

check_bootfile_refused_example :
    let (loaded, after) =
      check_bootfile boot_card crc16_update
        (replicate 128 0)
        (98 ∷ 48 ∷ 48 ∷ 49 ∷ 55 ∷ 55 ∷ 48 ∷ 69 ∷ [])
        28
        3
        boot in
    (loaded ≡ false) × ((after.version ≡ boot.version) × (after.flash ≡ boot.flash))
unfolding crc16_update crc16_round
check_bootfile_refused_example =
    check_bootfile_refused boot_card boot_disk crc16_update (replicate 128 0) refl 3 boot_file
      boot_file_lem boot-Contents (98 ∷ 48 ∷ 48 ∷ 49 ∷ 55 ∷ 55 ∷ 48 ∷ 69 ∷ []) boot refl refl
      (ne_of 0x770e 0x770d refl)

-- a root directory of one block with IO, in it BOOT, and in that a boot file behind another entry
abbrev slot : List ℕ → ℕ → ℕ → ℕ → List ℕ
slot name attributes cluster size =
    name ++ attributes ∷ replicate 14 0 ++ cluster ∷ 0 ∷ size ∷ 0 ∷ 0 ∷ 0 ∷ []

abbrev root_slots : List ℕ
root_slots = slot io_name 0x10 3 0 ++ replicate 480 0

abbrev io_slots : List ℕ
io_slots = slot boot_name 0x10 4 0 ++ replicate 480 0

abbrev boot_slots : List ℕ
boot_slots =
    slot (46 ∷ replicate 10 32) 0x10 4 0
    ++ slot (66 ∷ 48 ∷ 48 ∷ 49 ∷ 55 ∷ 55 ∷ 48 ∷ 68 ∷ 72 ∷ 69 ∷ 88 ∷ []) 0 5 28
    ++ replicate 448 0

abbrev search_disk : Disk
search_disk = record boot_disk { data_start = 66 }

abbrev search_card : ℕ → Option (List ℕ)
search_card n =
    if n == 65
    then some root_slots
    else if n == 67
    then some io_slots
    else if n == 68
    then some boot_slots
    else some (replicate 512 0)

search_root : Directory search_card search_disk root_cluster (root_slots ∷ [])
unfolding cluster_to_block get_next_cluster next_in_fat read_block
search_root = Directory.block {next = 0} (omega arith) refl refl Directory.end

search_io : Directory search_card search_disk 3 (io_slots ∷ [])
unfolding cluster_to_block get_next_cluster next_in_fat read_block
search_io = Directory.block {next = 0} (omega arith) refl refl Directory.end

no_candidate : (k : ℕ) → k < 1 → is_candidate boot_slots (32 * k) ≡ false
unfolding is_bootfile
no_candidate zero h = refl
no_candidate (suc k) h = absurd (omega arith)

find_and_load_bootfile_first_example :
    find_and_load_bootfile search_card crc16_update (replicate 128 0) 2 search_disk boot
    ≡ some (
        check_bootfile search_card crc16_update
          (replicate 128 0)
          (66 ∷ 48 ∷ 48 ∷ 49 ∷ 55 ∷ 55 ∷ 48 ∷ 68 ∷ [])
          28
          5
          (record boot {
            reader = record boot.reader { disk = record search_disk { buf = boot_slots } };
          }))
unfolding find_sfn_entry cluster_to_block is_bootfile
find_and_load_bootfile_first_example =
    find_and_load_bootfile_first search_card crc16_update (replicate 128 0) search_disk boot 2 1
      (root_slots ∷ []) (io_slots ∷ []) boot_slots search_root (omega arith) search_io (omega arith)
      (ne_of 4 0 refl) refl (omega arith) no_candidate refl
