-- ===== src/Pins/Modes.antt =====
-- src/pins.c: the mode of each pin, and what the files io/mode and io/pins do.
use phatio.Prelude.{
  strncpy, ℕ, zero, suc, ◌+◌, ◌-◌, ◌*◌, Bool, not, ◌&&◌, ◌||◌, Option, none, some, List, [], ◌∷◌,
  get_or, set, drop, ltb, leb, ◌==◌, if◌then◌else◌,
}
use phatio.Pins.Ports.{Registers, get_iopin, set_out, set_dir, get_in}
use phatio.Pins.Pwm.{Pwm, pwm}
use phatio.Pins.Adc.{read_adc}

pub record Pins : Type 0 where
  pub modes : List ℕ
  pub board : Pwm
  pub interrupts : Bool

-- `mode_names`: the bytes of "IN\0\0ADC\0OUT\0PWM\0HIGH\0????\0", and the 0 that ends the literal
abbrev pub mode_names : List ℕ
mode_names =
    b'I' ∷ b'N' ∷ 0 ∷ 0 ∷ b'A' ∷ b'D' ∷ b'C' ∷ 0 ∷ b'O' ∷ b'U' ∷ b'T' ∷ 0 ∷ b'P' ∷ b'W' ∷ b'M' ∷ 0
    ∷ b'H' ∷ b'I' ∷ b'G' ∷ b'H' ∷ 0 ∷ b'?' ∷ b'?' ∷ b'?' ∷ b'?' ∷ 0 ∷ 0 ∷ []

abbrev pub built_in : ℕ
built_in = 5

abbrev pub mode_of : Pins → ℕ → ℕ
mode_of p pin = get_or p.modes pin 0

abbrev pub set_board : Pins → Pwm → Pins
set_board p b = record p { board = b }

abbrev pub set_registers : Pins → Registers → Pins
set_registers p r = record p { board = record p.board { registers = r } }

-- `mode - 'a' + 'A'` on a uint8_t
abbrev pub upper : ℕ → ℕ
upper mode = if leb b'a' mode then mode - 32 else mode

-- the switch of `pin_mode`
unfoldable pub apply_mode : ℕ → ℕ → Registers → Registers
unfolding set_dir set_out
apply_mode mode iopin r =
    if mode == b'I' || mode == b'A'
    then set_out iopin 0 (set_dir iopin 0 r)
    else if mode == b'H'
    then set_out iopin 1 (set_dir iopin 0 r)
    else if mode == b'O' || mode == b'P'
    then set_dir iopin 1 r
    else r

unfoldable pub pin_mode : ℕ → List ℕ → Pins → Option Pins
unfolding apply_mode get_iopin pwm
pin_mode pin value p = elim (get_iopin pin) [
  | none ↦ none
  | some iopin ↦
      let mode = upper (get_or value 0 0) in
      let board =
        if not (mode == b'P') && mode_of p pin == b'P' then (pwm pin 0 p.board).1 else p.board in
      some (record p {
        modes = set p.modes pin mode;
        board = record board { registers = apply_mode mode iopin board.registers };
      })
]

unfoldable pub pin_init_from : ℕ → ℕ → Pins → Option Pins
unfolding pin_mode
pin_init_from zero i p = some p
pin_init_from (suc n) i p = elim (pin_mode i (b'I' ∷ []) p) [
  | none ↦ none
  | some p' ↦ pin_init_from n (i + 1) p'
]

unfoldable pub pin_init : Pins → Option Pins
unfolding pin_init_from
pin_init p = pin_init_from 20 0 p

unfoldable pub set_pin_value : ℕ → ℕ → Pins → Option Pins
unfolding get_iopin set_out pwm
set_pin_value pin value p = elim (get_iopin pin) [
  | none ↦ none
  | some iopin ↦ some (
      if mode_of p pin == b'O'
      then set_registers p (set_out iopin value p.board.registers)
      else if mode_of p pin == b'P'
      then set_board p (pwm pin value p.board).1
      else p)
]

module _ (sample : ℕ → ℕ) where
  -- The result of `read_adc` is cut to a uint16_t.
  unfoldable pub get_pin_value : ℕ → Pins → Option (ℕ × Pins)
  unfolding get_iopin get_in read_adc
  get_pin_value pin p = elim (get_iopin pin) [
    | none ↦ none
    | some iopin ↦ some (
        if mode_of p pin == b'A'
        then ((read_adc sample pin).0, record p { interrupts = (read_adc sample pin).1 })
        else if mode_of p pin == b'I' || mode_of p pin == b'H'
        then (get_in iopin p.board.registers, p)
        else (0, p))
  ]

-- the loop of `pin_mode_handler` for reading, with the rounds left before `i == BUILT_IN`
unfoldable pub mode_name_from : ℕ → ℕ → ℕ → List ℕ
unfolding strncpy
mode_name_from m zero i = strncpy 5 (drop (i * 4) mode_names)
mode_name_from m (suc n) i =
    let rest = mode_name_from m n (i + 1) in
    if m == get_or mode_names (i * 4) 0 then strncpy 5 (drop (i * 4) mode_names) else rest

-- `pin_mode_handler`: the bytes that a read leaves at the start of the block
unfoldable pub read_pin_mode : ℕ → Pins → Option (List ℕ)
unfolding mode_name_from
read_pin_mode pin p = if ltb pin 20 then some (mode_name_from (mode_of p pin) built_in 0) else none
