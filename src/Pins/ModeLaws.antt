-- ===== src/Pins/ModeLaws.antt =====
-- src/pins.c: a mode that is written is the mode that the pin has, in its registers and in io/mode.
use phatio.Prelude.{
  ℕ, ◌%◌, ◌<◌, ◌≡◌, sym, ap, ◌∙◌, Bool, true, not, ◌&&◌, ◌||◌, some, List, [], ◌∷◌, get_or, set,
  get_or-set_self, length, lt→ltb, ◌==◌, if◌then◌else◌, arith,
}
use phatio.Pins.Ports.{Registers, get_iopin, set_dir, set_out, get_dir, read_bit, write_bit}
use phatio.Pins.Pwm.{Pwm, channel, drive, pwm}
use phatio.Pins.Modes.{Pins, mode_of, upper, apply_mode, pin_mode, mode_name_from, read_pin_mode}
use phatio.Pins.PortLaws.{IsBank, iopin, read_bit-write_bit}

-- the five modes and the names that io/mode has for them
abbrev pub name_of : ℕ → List ℕ
name_of mode =
    if mode == b'I'
    then b'I' ∷ b'N' ∷ 0 ∷ 0 ∷ 0 ∷ []
    else if mode == b'A'
    then b'A' ∷ b'D' ∷ b'C' ∷ 0 ∷ 0 ∷ []
    else if mode == b'O'
    then b'O' ∷ b'U' ∷ b'T' ∷ 0 ∷ 0 ∷ []
    else if mode == b'P'
    then b'P' ∷ b'W' ∷ b'M' ∷ 0 ∷ 0 ∷ []
    else if mode == b'H'
    then b'H' ∷ b'I' ∷ b'G' ∷ b'H' ∷ 0 ∷ []
    else 0 ∷ 0 ∷ 0 ∷ 0 ∷ 0 ∷ []

name_read : (m : ℕ) → mode_name_from m 5 0 ≡ name_of m
unfolding mode_name_from
name_read m = ground arith

-- whether a mode drives the pin
abbrev pub drives : ℕ → Bool
drives mode = mode == b'O' || mode == b'P'

abbrev pub is_mode : ℕ → Bool
is_mode mode = mode == b'I' || mode == b'A' || mode == b'O' || mode == b'P' || mode == b'H'

pwm_zero_ddr : (pin : ℕ) (b : Pwm) → (pwm pin 0 b).1.registers.ddr ≡ b.registers.ddr
unfolding pwm channel drive get_iopin set_out
pwm_zero_ddr pin b = ground arith

-- the pins after `pin_mode` on a pin of the table
abbrev moved : ℕ → List ℕ → Pins → Pins
moved pin value p =
    let mode = upper (get_or value 0 0) in
    let board =
      if not (mode == b'P') && mode_of p pin == b'P' then (pwm pin 0 p.board).1 else p.board in
    record p {
      modes = set p.modes pin mode;
      board = record board { registers = apply_mode mode (iopin pin) board.registers };
    }

pin_mode-moved :
    (pin : ℕ) (value : List ℕ) (p : Pins)
    → pin < 20
    → pin_mode pin value p ≡ some (moved pin value p)
unfolding pin_mode get_iopin
pin_mode-moved pin value p h = rw (pin_mode, get_iopin, lt→ltb pin 20 h)

apply_mode_ddr :
    (mode k i : ℕ) (r : Registers)
    → is_mode mode ≡ true
    → get_dir k (apply_mode mode i r) ≡ get_dir k (set_dir i (if drives mode then 1 else 0) r)
unfolding apply_mode set_out set_dir get_dir
apply_mode_ddr mode k i r h = ground arith

mode_moved :
    (pin : ℕ) (value : List ℕ) (p : Pins)
    → pin < 20
    → length p.modes ≡ 20
    → mode_of (moved pin value p) pin ≡ upper (get_or value 0 0)
mode_moved pin value p h size =
    get_or-set_self p.modes pin (upper (get_or value 0 0)) 0 (omega (arith, size))

read_pin_mode_lem :
    (pin : ℕ) (p : Pins) → pin < 20 → read_pin_mode pin p ≡ some (name_of (mode_of p pin))
unfolding read_pin_mode
read_pin_mode_lem pin p h =
    rw (read_pin_mode, lt→ltb pin 20 h) (ap some (name_read (mode_of p pin)))

-- What io/mode reads for a pin after a mode was written to it: the name of the mode, whose first letter
-- alone was looked at and in either case, or five bytes of 0 for a letter that is no mode's.
pub read_pin_mode-pin_mode :
    (pin : ℕ) (value : List ℕ) (p : Pins)
    → pin < 20
    → length p.modes ≡ 20
    → (p' : Pins) × (pin_mode pin value p ≡ some p')
      × (read_pin_mode pin p' ≡ some (name_of (upper (get_or value 0 0))))
read_pin_mode-pin_mode pin value p h size = (
  moved pin value p,
  pin_mode-moved pin value p h,
  read_pin_mode_lem pin (moved pin value p) h
      ∙ ap (λ m. some (name_of m)) (mode_moved pin value p h size),
)

ddr_before :
    (pin k mode : ℕ) (p : Pins)
    → (if not (mode == b'P') && mode_of p pin == b'P'
        then (pwm pin 0 p.board).1
        else p.board).registers.ddr
      ≡ p.board.registers.ddr
ddr_before pin k mode p = ground (arith, pwm_zero_ddr pin p.board)

-- Writing one of the five modes to a pin makes that pin an output if the mode is OUT or PWM and an input
-- if not, and leaves the direction of every other pin as it was.
pub pin_mode_direction :
    (pin j : ℕ) (value : List ℕ) (p : Pins)
    → pin < 20
    → j < 20
    → IsBank p.board.registers.ddr
    → is_mode (upper (get_or value 0 0)) ≡ true
    → (p' : Pins) × (pin_mode pin value p ≡ some p')
      × (get_dir (iopin j) p'.board.registers ≡ (
          if pin == j
          then (if drives (upper (get_or value 0 0)) then 1 else 0)
          else get_dir (iopin j) p.board.registers))
unfolding get_dir set_dir
pin_mode_direction pin j value p hp hj bank is =
    (moved pin value p, pin_mode-moved pin value p hp, set_in_bank)
  where
    mode : ℕ
    mode = upper (get_or value 0 0)

    board : Pwm
    board = if not (mode == b'P') && mode_of p pin == b'P' then (pwm pin 0 p.board).1 else p.board

    bit : ℕ
    bit = if drives mode then 1 else 0

    bit_kept : bit ≡ (if bit % 256 == 0 then 0 else 1)
    bit_kept = ground arith

    set_in_bank :
        get_dir (iopin j) (apply_mode mode (iopin pin) board.registers)
        ≡ (if pin == j then (if drives mode then 1 else 0) else get_dir (iopin j) p.board.registers)
    set_in_bank =
        apply_mode_ddr mode (iopin j) (iopin pin) board.registers is
        ∙ ap (λ d. read_bit (write_bit d (iopin pin) (bit % 256)) (iopin j))
            (ddr_before pin j mode p)
        ∙ read_bit-write_bit p.board.registers.ddr pin j (bit % 256) bank hp hj
        ∙ ap (λ b. if pin == j then b else get_dir (iopin j) p.board.registers) (sym bit_kept)
