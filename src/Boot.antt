-- ===== src/Boot.antt =====
-- The boot loader's reader of Intel HEX files, src/bootloader_sdihex.c. A byte of the file is a `:` that
-- starts a record, a hexadecimal digit of one, or anything else between two records. `hex_byte` and
-- `next_word` take their operands from left to right, which C leaves open. The LEDs are left out.
pub mod Hex
pub mod Load
pub mod Pages
pub mod Written
pub mod Card
pub mod Chain
pub mod Keeps
pub mod Check
pub mod Search
pub mod Name
use phatio.Prelude.{
  ℕ, zero, suc, ◌+◌, ◌-◌, ◌*◌, ◌/◌, ◌%◌, ◌^◌, ◌≡◌, Bool, true, false, not, ◌&&◌, List, [], ◌∷◌,
  get_or, set, replicate, bit_and, bit_or, ltb, leb, ◌==◌, if◌then◌else◌,
}

-- where characters are read: `at_end` is that there is no cluster any more
pub record Source (S : Type 0) : Type 0 where
  pub next_char : S → ℕ × S
  pub at_end : S → Bool

-- Flash is the bytes by their address.
pub record Program : Type 0 where
  pub prog_data : List ℕ
  pub prog_offset : ℕ
  pub prog_address : ℕ
  pub prog_crc : ℕ
  pub flash : ℕ → ℕ

abbrev pub spm_pagesize : ℕ
spm_pagesize = 128

-- `load_page`: the page is erased and written, word by word. This is for the addresses below 0x7000 of
-- the 32 KB of an ATmega32U4: behind them stands the boot loader that is running, and then flash ends.
unfoldable pub load_page : ℕ → List ℕ → (ℕ → ℕ) → ℕ → ℕ
load_page address page flash a =
    if leb address a && ltb a (address + spm_pagesize) then get_or page (a - address) 0 else flash a

-- what `memset` leaves
unfoldable pub blank_page : List ℕ
blank_page = replicate spm_pagesize 255

abbrev pub hex_char : ℕ → ℕ
hex_char c =
    if leb 97 c
    then (c + 256 - 87) % 256
    else if leb 65 c
    then (c + 256 - 55) % 256
    else (c + 256 - 48) % 256

abbrev pub hex_byte : ℕ → ℕ → ℕ
hex_byte high low = bit_or (hex_char high * 16) (hex_char low)

-- `update` is `_crc16_update` of the C library.
module _ {S : Type 0} (source : Source S) (update : ℕ → ℕ → ℕ) where
  unfoldable pub next_byte : S → ℕ × S
  next_byte s =
      let (high, s₁) = source.next_char s in
      let (low, s₂) = source.next_char s₁ in (hex_byte high low % 256, s₂)

  unfoldable pub next_word : S → ℕ × S
  next_word s =
      let (high, s₁) = next_byte s in let (low, s₂) = next_byte s₁ in (bit_or (high * 256) low, s₂)

  -- the body of the loop over the bytes of a record
  unfoldable pub store_byte : Bool → ℕ → Program → Program
  store_byte program b p =
      let page = set p.prog_data p.prog_offset b in
      let crc = update p.prog_crc b in
      if p.prog_offset + 1 == spm_pagesize
      then record {
        prog_data = if program then blank_page else page;
        prog_offset = 0;
        prog_address = p.prog_address + spm_pagesize;
        prog_crc = crc;
        flash = if program then load_page (p.prog_address % 2 ^ 16) page p.flash else p.flash;
      }
      else record p { prog_data = page; prog_offset = p.prog_offset + 1; prog_crc = crc }

  unfoldable pub read_data : ℕ → Bool → Program → S → Program × S
  read_data zero program p s = (p, s)
  read_data (suc n) program p s =
      let (b, s') = next_byte s in read_data n program (store_byte program b p) s'

  -- `if (type == 1 && prog_offset > 0)`
  unfoldable pub last_page : Bool → ℕ → Program → Program
  last_page program type p =
      if (type == 1) && not (p.prog_offset == 0) && program
      then record p { flash = load_page (p.prog_address % 2 ^ 16) p.prog_data p.flash }
      else p

  -- a record behind its start code, with `byte_count`
  unfoldable pub read_record : Bool → Program → S → ℕ × (Program × S)
  read_record program p s =
      let (byte_count, s₁) = next_byte s in
      let (address, s₂) = next_word s₁ in
      let (type, s₃) = next_byte s₂ in
      let (p', s₄) = read_data byte_count program p s₃ in
      let (checksum, s₅) = next_byte s₄ in (byte_count, (last_page program type p', s₅))

  -- the loop from `byte` on; each round goes on by a byte at least, so that `size` rounds are enough
  unfoldable pub load_from : ℕ → ℕ → ℕ → Bool → Program → S → Program × S
  load_from zero byte size program p s = (p, s)
  load_from (suc rounds) byte size program p s =
      let (c, s₁) = source.next_char s in
      let (n, (p', s')) = read_record program p s₁ in
      let found = load_from rounds ((byte + (n + 5) * 2 + 1) % 2 ^ 32) size program p' s' in
      let skipped = load_from rounds ((byte + 1) % 2 ^ 32) size program p s₁ in
      if ltb byte size && not (source.at_end s) then if c == 58 then found else skipped else (p, s)
