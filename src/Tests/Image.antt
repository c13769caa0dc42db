-- ===== src/Tests/Image.antt =====
-- Runs of the theorems on support/make_fs.c at concrete inputs.
use phatio.Prelude.{
  ap, ℕ, zero, suc, ◌+◌, ◌*◌, length, ◌<◌, ◌≡◌, ◌≢◌, refl, Bool, true, not, ◌&&◌, none, some, List,
  [], ◌∷◌, replicate, bit_and, ◌==◌, arith,
}
use phatio.Fat.{Disk, uint32_value, fatdirent_get_cluster, find_sfn_entry, disk_init}
use phatio.Fat.Entry.{Matches}
use phatio.Boot.Written.{Loaded}
use phatio.Boot.Card.{Boot, check_bootfile}
use phatio.Boot.Check.{Contents, text_of}
use phatio.Support.CrcHexfile.{crc16_update, main}
use phatio.Support.MakeFs.{Volume, create_file, create_sfn_entry}
use phatio.Support.MakeFs.Blocks.{bytes_from, card_of}
use phatio.Support.MakeFs.Rounds.{IsText}
use phatio.Support.MakeFs.Entry.{create_sfn_entry-find_sfn_entry}
use phatio.Support.MakeFs.File.{create_file-Contents}
use phatio.Support.MakeFs.Tree.{make_fs}
use phatio.Support.MakeFs.Accepted.{disk_init-make_fs}
use phatio.Support.BootImage.{create_file-Loaded}
use phatio.Tests.Boot.{boot_file, boot_file_lem, boot}

abbrev no_zero : List ℕ → Bool
no_zero [] = true
no_zero (c ∷ cs) = not (c == 0) && no_zero cs

no_zero-IsText : (s : List ℕ) → no_zero s ≡ true → IsText s
no_zero-IsText [] h = tt
no_zero-IsText (c ∷ s) h = (ground arith, no_zero-IsText s (ground arith))

some_text : (c : ℕ) (s : List ℕ) → c ∷ s ≢ []
some_text c s e = absurd (omega (arith, ap length e))

-- a disk with the geometry of the tool, and an image with clusters from 3 on free
abbrev image_disk : Disk
image_disk = record {
  sd_type = 0;
  sd_size = 0;
  buf = [];
  p_size = 31256;
  fat_start = 64;
  data_start = 219;
  root_dir = 187;
}

abbrev empty : Volume
empty = record { image = λ a. 0; free_cluster = 3 }

abbrev image_boot : Boot
image_boot = record boot { reader = record { disk = image_disk; offset = 0; cluster = 0 } }

create_file-Contents_example :
    Contents
      (card_of (create_file 112128 (b'a' ∷ []) none 0 (text_of boot_file) none empty).1.image)
      image_disk
      3
      (text_of boot_file)
create_file-Contents_example =
    create_file-Contents image_disk refl refl 112128 (b'a' ∷ []) none 0 (text_of boot_file) empty
      (no_zero-IsText (text_of boot_file) refl) (some_text _ _) (omega arith) (omega arith)

create_file-Loaded_example :
    let card =
      card_of (create_file 112128 (b'a' ∷ []) none 0 (text_of boot_file) none empty).1.image in
    let (loaded, after) =
      check_bootfile card crc16_update
        (replicate 128 0)
        (98 ∷ 48 ∷ 48 ∷ 49 ∷ main (text_of boot_file))
        28
        3
        image_boot in
    (loaded ≡ true)
    × ((after.version ≡ 98 ∷ 48 ∷ 48 ∷ 49 ∷ [])
        × Loaded image_boot.flash (18 ∷ 52 ∷ []) after.flash)
create_file-Loaded_example =
    create_file-Loaded 112128 (b'a' ∷ []) none 0 boot_file empty image_disk crc16_update
      (replicate 128 0) 98 48 48 49 image_boot refl refl refl boot_file_lem (omega arith)
      (no_zero-IsText (text_of boot_file) refl) (omega arith) (omega arith) (λ crc a h k. refl) refl
      refl

abbrev short_name : List ℕ
short_name = b'A' ∷ replicate 10 32

no_entry :
    (m : ℕ)
    → m < 1
    → ¬ Matches (bytes_from 512 (187 * 512) (λ a. 0)) short_name 0xd8 (bit_and 0x20 0xd8) (32 * m)
no_entry zero h (a, n) = absurd (omega (arith, n 0 (omega arith)))
no_entry (suc m) h n = absurd (omega arith)

create_sfn_entry-find_sfn_entry_example :
    let (next, image) = create_sfn_entry (187 * 512 + 32 * 1) short_name 0x20 9 700 (λ a. 0) in
    let b = bytes_from 512 (187 * 512) image in
    (next ≡ 187 * 512 + 32 * 2)
    × ((find_sfn_entry b short_name 0xd8 (bit_and 0x20 0xd8) ≡ some (32 * 1))
        × ((fatdirent_get_cluster b (32 * 1) ≡ 9) × (uint32_value b (32 * 1 + 28) ≡ 700)))
create_sfn_entry-find_sfn_entry_example =
    create_sfn_entry-find_sfn_entry 187 1 short_name 0x20 9 700 (λ a. 0) (omega arith) (omega arith)
      (omega arith) (omega arith) no_entry

disk_init-make_fs_example :
    let image = (make_fs 5 (104 ∷ 105 ∷ []) (46 ∷ 46 ∷ 47 ∷ 97 ∷ []) (58 ∷ []) [] []).image in
    disk_init (card_of image) image_disk
    ≡ (true, record image_disk { buf = bytes_from 512 (63 * 512) image })
disk_init-make_fs_example =
    disk_init-make_fs 5 (104 ∷ 105 ∷ []) (46 ∷ 46 ∷ 47 ∷ 97 ∷ []) (58 ∷ []) [] [] image_disk
      (omega arith) (omega arith)
