-- ===== src/Boot/Hex.antt =====
-- Files of Intel HEX records, as src/bootloader_sdihex.c reads them, and the tool that names them,
-- src/support/crc_hexfile.c.
use phatio.Prelude.{
  ℕ, ◌+◌, ◌*◌, ◌/◌, ◌%◌, ◌<◌, ◌≡◌, refl, ap, Bool, true, false, List, [], ◌∷◌, ◌++◌, length, bit_or,
  ltb, ◌==◌, ==_iff, if◌then◌else◌, arith,
}
use phatio.Prelude.Bytes.{all_below, all_below_sound}
use phatio.Boot.{Source, hex_byte, next_byte, next_word}

-- What is read of a source, as an interface: the source holds a text, from which the next character
-- is taken.
pub record Reads {S : Type 0} (source : Source S) (Holds : S → List ℕ → Type 0) : Type 0 where
  pub step :
      (s : S) (c : ℕ) (cs : List ℕ)
      → Holds s (c ∷ cs)
      → (r : S) × ((source.next_char s ≡ (c, r)) × Holds r cs)
  pub going : (s : S) (cs : List ℕ) → Holds s cs → source.at_end s ≡ false

-- the digits 0 to F
abbrev pub digit : ℕ → ℕ
digit n = if ltb n 10 then n + 48 else n + 55

abbrev pub print_byte : ℕ → List ℕ
print_byte b = digit (b / 16) ∷ digit (b % 16) ∷ []

abbrev pub print_bytes : List ℕ → List ℕ
print_bytes [] = []
print_bytes (b ∷ bs) = print_byte b ++ print_bytes bs

pub length-print_bytes :
    (bs cs : List ℕ) → length (print_bytes bs ++ cs) ≡ 2 * length bs + length cs
length-print_bytes [] cs = omega arith
length-print_bytes (b ∷ bs) cs = omega (arith, length-print_bytes bs cs)

abbrev byte_law : ℕ → Bool
byte_law b = (hex_byte (digit (b / 16)) (digit (b % 16)) % 256) == b

byte_holds : all_below 256 byte_law ≡ true
byte_holds = refl

hex_byte-digit : (b : ℕ) → b < 256 → hex_byte (digit (b / 16)) (digit (b % 16)) % 256 ≡ b
hex_byte-digit b h =
    (==_iff (hex_byte (digit (b / 16)) (digit (b % 16)) % 256) b).0
      (all_below_sound 256 byte_law b byte_holds h)

module _ {S : Type 0} (source : Source S) (update : ℕ → ℕ → ℕ) (Holds : S → List ℕ → Type 0)
    (reads : Reads source Holds) where
  pub next_byte-print_byte :
      (b : ℕ) (cs : List ℕ) (s : S)
      → b < 256
      → Holds s (print_byte b ++ cs)
      → (r : S) × ((next_byte source update s ≡ (b, r)) × Holds r cs)
  unfolding next_byte
  next_byte-print_byte b cs s hb h =
      let (s₁, (p, h₁)) = reads.step s (digit (b / 16)) (digit (b % 16) ∷ cs) h in
      let (s₂, (q, h₂)) = reads.step s₁ (digit (b % 16)) cs h₁ in
      (s₂, (rw p (rw q (ap (λ n. (n, s₂)) (hex_byte-digit b hb))), h₂))

  pub next_word-print_byte :
      (high low : ℕ) (cs : List ℕ) (s : S)
      → high < 256
      → low < 256
      → Holds s (print_byte high ++ (print_byte low ++ cs))
      → (r : S) × ((next_word source update s ≡ (bit_or (high * 256) low, r)) × Holds r cs)
  unfolding next_word
  next_word-print_byte high low cs s hh hl h =
      let (s₁, (p, h₁)) = next_byte-print_byte high (print_byte low ++ cs) s hh h in
      let (s₂, (q, h₂)) = next_byte-print_byte low cs s₁ hl h₁ in (s₂, (rw p (rw q refl), h₂))
