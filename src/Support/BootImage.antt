-- ===== src/Support/BootImage.antt =====
-- The boot loader, src/bootloader_sdihex.c, on a card that support/make_fs.c has written.
use phatio.Prelude.{ℕ, ◌+◌, ◌*◌, ◌≤◌, ◌≡◌, true, Option, none, List, [], ◌∷◌, length}
use phatio.Fat.{Disk}
use phatio.Boot.Written.{Loaded}
use phatio.Boot.Card.{Boot, is_new, check_bootfile}
use phatio.Boot.Keeps.{OnlyBuffer}
use phatio.Boot.Check.{BootFile, IsBootFile, text_of, data_of, some_text}
use phatio.Support.CrcHexfile.{main}
use phatio.Support.CrcHexfile.Name.{IsCrc16, named_file-Loaded}
use phatio.Support.MakeFs.{Volume, create_file}
use phatio.Support.MakeFs.Blocks.{card_of}
use phatio.Support.MakeFs.Rounds.{IsText}
use phatio.Support.MakeFs.File.{create_file-Contents}

-- A file of whole records, of at most 28 KB of bytes and without a character 0, that `create_file`
-- writes to an image with room for it is loaded from that image by `check_bootfile`, at its first
-- cluster and under a name of four characters of a new version and the four that the tool prints for
-- it. The disk has the geometry of the tool, and is the one of the reader but for its buffer; the
-- buffer on the stack has 128 bytes; and `_crc16_update` computes the documented function.
pub create_file-Loaded :
    (entry : ℕ) (name : List ℕ) (sfn : Option (List ℕ)) (attributes : ℕ) (f : BootFile) (v : Volume)
    (sd : Disk) (update : ℕ → ℕ → ℕ) (stack : List ℕ) (a b c d : ℕ) (boot : Boot)
    → sd.fat_start ≡ 64
    → sd.data_start ≡ 219
    → length stack ≡ 128
    → IsBootFile f
    → length (data_of f) ≤ 0x7000
    → IsText (text_of f)
    → 2 ≤ v.free_cluster
    → v.free_cluster * 512 + length (text_of f) ≤ 31488 * 512
    → IsCrc16 update
    → let card = card_of (create_file entry name sfn attributes (text_of f) none v).1.image in
      OnlyBuffer card sd boot.reader
      → is_new (a ∷ b ∷ c ∷ d ∷ main (text_of f)) boot ≡ true
      → let (loaded, after) =
          check_bootfile card update stack
            (a ∷ b ∷ c ∷ d ∷ main (text_of f))
            (length (text_of f))
            v.free_cluster
            boot in
        (loaded ≡ true)
        × ((after.version ≡ a ∷ b ∷ c ∷ d ∷ []) × Loaded boot.flash (data_of f) after.flash)
create_file-Loaded entry name sfn attributes f v sd update stack a b c d boot fat_at data_at room
      valid small text lo hi agrees on new =
    named_file-Loaded (card_of (create_file entry name sfn attributes (text_of f) none v).1.image)
      sd update stack v.free_cluster f a b c d boot room valid small
      (create_file-Contents sd fat_at data_at entry name sfn attributes (text_of f) v text
        (some_text f.gap f.lines f.last) lo hi)
      agrees on new
