-- ===== src/Support/CrcHexfile/Name.antt =====
-- Files that are named with support/crc_hexfile.c, in the boot loader of src/bootloader_sdihex.c.
use phatio.Prelude.{
  ℕ, ◌/◌, ◌%◌, ◌^◌, ◌<◌, ◌≤◌, ◌≡◌, refl, sym, ap, ◌∙◌, true, Option, List, [], ◌∷◌, ◌++◌, length,
  arith,
}
use phatio.Fat.{Disk}
use phatio.Boot.Load.{Line, AreLines, AllBytes, bytes_of}
use phatio.Boot.Written.{Loaded, crc_of}
use phatio.Boot.Card.{Boot, name_crc, is_new, check_bootfile}
use phatio.Boot.Keeps.{OnlyBuffer}
use phatio.Boot.Check.{BootFile, IsBootFile, Contents, text_of, data_of, check_bootfile-Loaded}
use phatio.Boot.Name.{name_crc-print_byte}
use phatio.Support.CrcHexfile.{crc16_round, crc16_update, main}
use phatio.Support.CrcHexfile.File.{main-text_of}

crc16_round_fits : (crc : ℕ) → crc16_round crc < 2 ^ 16
unfolding crc16_round
crc16_round_fits crc = omega arith

crc16_update_fits : (crc a : ℕ) → crc16_update crc a < 2 ^ 16
unfolding crc16_update
crc16_update_fits crc a = crc16_round_fits _

crc_of_fits : (bs : List ℕ) (crc : ℕ) → crc < 2 ^ 16 → crc_of crc16_update crc bs < 2 ^ 16
crc_of_fits [] crc h = h
crc_of_fits (b ∷ bs) crc h = crc_of_fits bs (crc16_update crc b) (crc16_update_fits crc b)

-- `_crc16_update` of the C library is the function that its documentation gives
abbrev pub IsCrc16 : (ℕ → ℕ → ℕ) → Type 0
IsCrc16 update = (crc a : ℕ) → crc < 2 ^ 16 → a < 256 → update crc a ≡ crc16_update crc a

crc_of-crc16_update :
    (update : ℕ → ℕ → ℕ) (agrees : IsCrc16 update) (bs : List ℕ) (crc : ℕ)
    → crc < 2 ^ 16
    → AllBytes bs
    → crc_of update crc bs ≡ crc_of crc16_update crc bs
crc_of-crc16_update update agrees [] crc h a = refl
crc_of-crc16_update update agrees (b ∷ bs) crc h a =
    ap (λ c. crc_of update c bs) (agrees crc b h a.0)
    ∙ crc_of-crc16_update update agrees bs (crc16_update crc b) (crc16_update_fits crc b) a.1

AllBytes-append : (bs cs : List ℕ) → AllBytes bs → AllBytes cs → AllBytes (bs ++ cs)
AllBytes-append [] cs h k = k
AllBytes-append (b ∷ bs) cs h k = (h.0, AllBytes-append bs cs h.1 k)

bytes_of-AllBytes : (ls : List Line) → AreLines ls → AllBytes (bytes_of ls)
bytes_of-AllBytes [] v = tt
bytes_of-AllBytes (l ∷ ls) v =
    AllBytes-append l.bytes (bytes_of ls) v.0.data_bytes (bytes_of-AllBytes ls v.1)

name_crc-main :
    (a b c d : ℕ) (f : BootFile)
    → IsBootFile f
    → name_crc (a ∷ b ∷ c ∷ d ∷ main (text_of f)) ≡ crc_of crc16_update 0 (data_of f)
name_crc-main a b c d f v =
    let n = crc_of crc16_update 0 (data_of f) in
    let small = crc_of_fits (data_of f) 0 (omega arith) in
    ap (λ m. name_crc (a ∷ b ∷ c ∷ d ∷ m)) (main-text_of f v)
    ∙ (name_crc-print_byte a b c d (n / 256) (n % 256) (omega (arith, small)) (omega arith)
        ∙ omega arith)

-- A file of whole records, of at most 28 KB of bytes, on a chain of readable blocks of the card is
-- loaded by the boot loader under a name of four characters of a version and the four that the tool
-- prints for it, when that version is new: flash has its bytes from address 0 on, the pages
-- behind that of the last one are unchanged, and the version is the new one. The buffer on the stack has 128
-- bytes, the disk of the reader is the one of the card but for its buffer, and `_crc16_update`
-- computes the documented function.
pub named_file-Loaded :
    (card : ℕ → Option (List ℕ)) (sd : Disk) (update : ℕ → ℕ → ℕ) (stack : List ℕ) (start : ℕ)
    (f : BootFile) (a b c d : ℕ) (boot : Boot)
    → length stack ≡ 128
    → IsBootFile f
    → length (data_of f) ≤ 0x7000
    → Contents card sd start (text_of f)
    → IsCrc16 update
    → OnlyBuffer card sd boot.reader
    → is_new (a ∷ b ∷ c ∷ d ∷ main (text_of f)) boot ≡ true
    → let (loaded, after) =
        check_bootfile card update stack
          (a ∷ b ∷ c ∷ d ∷ main (text_of f))
          (length (text_of f))
          start
          boot in
      (loaded ≡ true)
      × ((after.version ≡ a ∷ b ∷ c ∷ d ∷ []) × Loaded boot.flash (data_of f) after.flash)
named_file-Loaded card sd update stack start f a b c d boot room v small on_card agrees h new =
    check_bootfile-Loaded card sd update stack room start f v on_card
      (a ∷ b ∷ c ∷ d ∷ main (text_of f)) boot small h new
      (name_crc-main a b c d f v
        ∙ sym (
            crc_of-crc16_update update agrees (data_of f) 0 (omega arith)
              (bytes_of-AllBytes f.lines v.records)))
