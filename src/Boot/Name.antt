-- ===== src/Boot/Name.antt =====
-- The checksum in the name of a boot file, `check_bootfile` of src/bootloader_sdihex.c.
use phatio.Prelude.{
  ℕ, ◌+◌, ◌*◌, ◌/◌, ◌%◌, ◌^◌, ◌<◌, ◌≡◌, refl, ap, ap₂, ◌∙◌, Bool, true, ◌∷◌, ◌++◌, bit_or, ◌==◌,
  ==_iff, arith,
}
use phatio.Prelude.Bytes.{all_below, all_below_sound}
use phatio.Boot.{hex_byte}
use phatio.Boot.Hex.{digit, print_byte}
use phatio.Boot.Card.{name_crc}

abbrev word_law : ℕ → ℕ → Bool
word_law h l = bit_or (h * 256) l == h * 256 + l

word_holds : all_below 256 (λ h. all_below 256 (λ l. word_law h l)) ≡ true
word_holds = refl

bit_or_word : (h l : ℕ) → h < 256 → l < 256 → bit_or (h * 256) l ≡ h * 256 + l
bit_or_word h l hh hl =
    let row = all_below_sound 256 (λ h. all_below 256 (λ l. word_law h l)) h word_holds hh in
    (==_iff (bit_or (h * 256) l) (h * 256 + l)).0 (all_below_sound 256 (λ l. word_law h l) l row hl)

abbrev digits_law : ℕ → Bool
digits_law b = hex_byte (digit (b / 16)) (digit (b % 16)) == b

digits_hold : all_below 256 digits_law ≡ true
digits_hold = refl

hex_byte_digits : (b : ℕ) → b < 256 → hex_byte (digit (b / 16)) (digit (b % 16)) ≡ b
hex_byte_digits b h =
    (==_iff (hex_byte (digit (b / 16)) (digit (b % 16))) b).0
      (all_below_sound 256 digits_law b digits_hold h)

-- the checksum that is read from a name is the one that it was made with
pub name_crc-print_byte :
    (a b c d h l : ℕ)
    → h < 256
    → l < 256
    → name_crc (a ∷ b ∷ c ∷ d ∷ (print_byte h ++ print_byte l)) ≡ h * 256 + l
name_crc-print_byte a b c d h l hh hl =
    let p : ℕ → ℕ → ℕ = λ x y. bit_or (x * 256) y % 2 ^ 16 in
    ap₂ p (hex_byte_digits h hh) (hex_byte_digits l hl)
    ∙ (ap (λ n. n % 2 ^ 16) (bit_or_word h l hh hl) ∙ omega arith)
