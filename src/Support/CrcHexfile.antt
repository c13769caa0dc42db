-- ===== src/Support/CrcHexfile.antt =====
-- support/crc_hexfile.c: the checksum of the bytes of an Intel HEX file. Its `hex_char`, `next_byte` and
-- `next_word` are those of the boot loader, on the array `buffer`, which is 0 behind the
-- input. It has 32,000,000 bytes; the model is for an input that fits into it.
pub mod File
pub mod Name
use phatio.Prelude.{
  ℕ, zero, suc, ◌+◌, ◌*◌, ◌/◌, ◌%◌, ◌^◌, Bool, false, List, ◌++◌, length, get_or, bit_and, ltb,
  ◌==◌, if◌then◌else◌,
}
use Prim.Native.Nat.{bit_xor}
use phatio.Boot.{Source, next_byte, next_word}
use phatio.Boot.Hex.{print_byte}

unfoldable pub crc16_round : ℕ → ℕ
crc16_round crc = (if bit_and crc 1 == 1 then bit_xor (crc / 2) 0xa001 else crc / 2) % 2 ^ 16

abbrev pub crc16_rounds : ℕ → ℕ → ℕ
crc16_rounds zero crc = crc
crc16_rounds (suc n) crc = crc16_rounds n (crc16_round crc)

unfoldable pub crc16_update : ℕ → ℕ → ℕ
crc16_update crc a = crc16_rounds 8 (bit_xor crc a % 2 ^ 16)

-- `next_char`; the state is `offset`
abbrev pub from_buffer : List ℕ → Source ℕ
from_buffer buffer = record {
  next_char = λ offset. (get_or buffer offset 0, offset + 1);
  at_end = λ offset. false;
}

module _ (buffer : List ℕ) where
  unfoldable pub crc_data : ℕ → ℕ → ℕ → ℕ × ℕ
  crc_data zero crc offset = (crc, offset)
  crc_data (suc n) crc offset =
      let (byte, offset') = next_byte (from_buffer buffer) crc16_update offset in
      crc_data n (crc16_update crc byte) offset'

  -- a record behind its start code
  unfoldable pub crc_record : ℕ → ℕ → ℕ × ℕ
  crc_record crc offset =
      let (byte_count, o₁) = next_byte (from_buffer buffer) crc16_update offset in
      let (address, o₂) = next_word (from_buffer buffer) crc16_update o₁ in
      let (type, o₃) = next_byte (from_buffer buffer) crc16_update o₂ in
      let (crc', o₄) = crc_data byte_count crc o₃ in
      let (checksum, o₅) = next_byte (from_buffer buffer) crc16_update o₄ in (crc', o₅)

  -- the loop from `offset` on; each round goes on by a byte at least, so that `size` rounds are enough
  unfoldable pub crc_from : ℕ → ℕ → ℕ → ℕ → ℕ
  crc_from zero size crc offset = crc
  crc_from (suc rounds) size crc offset =
      let (crc', offset') = crc_record crc (offset + 1) in
      let found = crc_from rounds size crc' offset' in
      let skipped = crc_from rounds size crc (offset + 1) in
      if ltb offset size then if get_or buffer offset 0 == 58 then found else skipped else crc

-- `printf("%04X", ...)` of a 16-bit number
abbrev pub print_word : ℕ → List ℕ
print_word n = print_byte (n / 256) ++ print_byte (n % 256)

-- what `main` prints for its input
unfoldable pub main : List ℕ → List ℕ
main input = print_word (crc_from input (length input) (length input) 0 0)
