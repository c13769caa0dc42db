-- ===== src/Pins/Ports.antt =====
-- src/iopin.c: the table of the 20 pins, and setting and reading one bit of a port.
use phatio.Prelude.{
  ℕ, zero, suc, ◌+◌, ◌/◌, ◌%◌, Bool, true, false, Option, none, some, List, [], ◌∷◌, get_or, set,
  ltb, ◌==◌, if◌then◌else◌,
}
use phatio.Prelude.Bytes.{set_bit, clear_bit, test_bit}

pub record Registers : Type 0 where
  pub pin : List ℕ
  pub ddr : List ℕ
  pub port : List ℕ

abbrev pub num_iopins : ℕ
num_iopins = 20

-- `iopins`
abbrev pub iopins : List ℕ
iopins =
    0xc0 ∷ 0xc1 ∷ 0xc4 ∷ 0xc5 ∷ 0xc6 ∷ 0xc7 ∷ 0x37 ∷ 0x36 ∷ 0x07 ∷ 0x06 ∷ 0x05 ∷ 0x04 ∷ 0x60 ∷ 0x61
    ∷ 0x62 ∷ 0x63 ∷ 0x64 ∷ 0x65 ∷ 0x66 ∷ 0x67 ∷ []

-- `get_iopin(pinid)`
unfoldable pub get_iopin : ℕ → Option ℕ
get_iopin pinid = if ltb pinid num_iopins then some (get_or iopins pinid 0) else none

-- the digits of `pin_names[i]`
abbrev pub pin_name : ℕ → List ℕ
pin_name i = if ltb i 10 then (b'0' + i) ∷ [] else (b'0' + i / 10) ∷ (b'0' + i % 10) ∷ []

-- `strcmp(a, b) == 0` on the bytes of two strings
unfoldable pub strcmp_eq : List ℕ → List ℕ → Bool
strcmp_eq [] [] = true
strcmp_eq [] (d ∷ ds) = false
strcmp_eq (c ∷ cs) [] = false
strcmp_eq (c ∷ cs) (d ∷ ds) = if c == d then strcmp_eq cs ds else false

unfoldable pub iopin_by_name_from : ℕ → ℕ → List ℕ → ℕ
unfolding strcmp_eq
iopin_by_name_from zero i name = 0
iopin_by_name_from (suc n) i name =
    let rest = iopin_by_name_from n (i + 1) name in
    if strcmp_eq name (pin_name i) then get_or iopins i 0 else rest

unfoldable pub get_iopin_by_name : List ℕ → ℕ
unfolding iopin_by_name_from
get_iopin_by_name name = iopin_by_name_from num_iopins 0 name

abbrev pub port_of : ℕ → ℕ
port_of iopin = iopin / 16

abbrev pub bit_of : ℕ → ℕ
bit_of iopin = iopin % 16

-- `if (val) reg |= IOBV(iopin); else reg &= ~IOBV(iopin);`, with the register's bank
unfoldable pub write_bit : List ℕ → ℕ → ℕ → List ℕ
unfolding set_bit clear_bit
write_bit bank iopin val =
    let reg = get_or bank (port_of iopin) 0 in
    set bank (port_of iopin)
      (if val == 0 then clear_bit reg (bit_of iopin) else set_bit reg (bit_of iopin))

unfoldable pub read_bit : List ℕ → ℕ → ℕ
unfolding test_bit
read_bit bank iopin = if test_bit (get_or bank (port_of iopin) 0) (bit_of iopin) then 1 else 0

-- A `val` is a uint8_t: what is passed for it is cut to a byte.
unfoldable pub set_in : ℕ → ℕ → Registers → Registers
unfolding write_bit
set_in iopin val r = record r { pin = write_bit r.pin iopin (val % 256) }

unfoldable pub get_in : ℕ → Registers → ℕ
unfolding read_bit
get_in iopin r = read_bit r.pin iopin

unfoldable pub set_out : ℕ → ℕ → Registers → Registers
unfolding write_bit
set_out iopin val r = record r { port = write_bit r.port iopin (val % 256) }

unfoldable pub get_out : ℕ → Registers → ℕ
unfolding read_bit
get_out iopin r = read_bit r.port iopin

unfoldable pub set_dir : ℕ → ℕ → Registers → Registers
unfolding write_bit
set_dir iopin val r = record r { ddr = write_bit r.ddr iopin (val % 256) }

unfoldable pub get_dir : ℕ → Registers → ℕ
unfolding read_bit
get_dir iopin r = read_bit r.ddr iopin
