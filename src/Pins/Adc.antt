-- ===== src/Pins/Adc.antt =====
-- src/adc.c: `read_adc`, with the interrupt flag that `cli` and `sei` set.
use phatio.Prelude.{
  ℕ, ◌+◌, ◌-◌, Bool, true, false, Option, none, some, List, [], ◌∷◌, leb, ◌==◌, if◌then◌else◌,
}

-- `map`: the pins that have a channel, and the channel
abbrev pub channels : List (ℕ × ℕ)
channels =
    (0, 0)
    ∷ (1, 1)
    ∷ (2, 4)
    ∷ (3, 5)
    ∷ (4, 6)
    ∷ (5, 7)
    ∷ (16, 8)
    ∷ (18, 9)
    ∷ (19, 10)
    ∷ (11, 11)
    ∷ (10, 12)
    ∷ (9, 13)
    ∷ []

-- the loop of `read_adc`; `none` is the 0xFF that it starts with
unfoldable pub find_channel : ℕ → List (ℕ × ℕ) → Option ℕ
find_channel pin [] = none
find_channel pin ((p, ch) ∷ rest) = if p == pin then some ch else find_channel pin rest

-- the bits that go to ADMUX and ADCSRB
abbrev pub mux : ℕ → ℕ
mux adc = if leb adc 7 then adc else 0x20 + (adc - 8)

-- The result is an int16_t as its bit pattern, and whether interrupts are enabled afterwards. The
-- return for a pin without a channel stands before `sei`.
unfoldable pub read_adc : (ℕ → ℕ) → ℕ → ℕ × Bool
unfolding find_channel
read_adc sample pin = elim (find_channel pin channels) [
  | none ↦ (65535, false)
  | some adc ↦ (sample (mux adc), true)
]
