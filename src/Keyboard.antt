-- ===== src/Keyboard.antt =====
-- The map from characters to the keys of a keyboard report, src/keyboard.c. A report is its 8 bytes, the
-- modifiers first and the keys from byte 2 on. With the part of src/log.c that fills it.
use phatio.Prelude.{
  ℕ, zero, suc, ◌+◌, ◌-◌, ◌*◌, ◌%◌, ◌^◌, ◌<◌, ◌≡◌, ◌≢◌, refl, Bool, true, false, not, ◌&&◌, ◌||◌,
  Option, none, some, List, [], ◌∷◌, length, get_or, set, drop, replicate, bit_and, bit_or, ltb,
  ◌==◌, if◌then◌else◌, arith,
}
use phatio.Log.Keys.{KeyLog, has_next}
use phatio.Lio.Values.{byte_of}
pub mod Layout

abbrev pub keyboard_shift : ℕ
keyboard_shift = 128

-- the tables, with the bit of `KEYBOARD_SHIFT` as 128
abbrev pub ascii_from32 : List ℕ
ascii_from32 =
    0x2c ∷ 0x9e ∷ 0xb4 ∷ 0xa0 ∷ 0xa1 ∷ 0xa2 ∷ 0xa4 ∷ 0x34 ∷ 0xa6 ∷ 0xa7 ∷ 0xa5 ∷ 0xae ∷ 0x36 ∷ 0x2d
    ∷ 0x37 ∷ 0x38 ∷ 0x27 ∷ 0x1e ∷ 0x1f ∷ 0x20 ∷ 0x21 ∷ 0x22 ∷ 0x23 ∷ 0x24 ∷ 0x25 ∷ 0x26 ∷ 0xb3
    ∷ 0x33 ∷ 0xb6 ∷ 0x2e ∷ 0xb7 ∷ 0xb8 ∷ 0x9f ∷ []

abbrev pub ascii_from91 : List ℕ
ascii_from91 = 0x2f ∷ 0x31 ∷ 0x30 ∷ 0xa3 ∷ 0xad ∷ 0x34 ∷ []

abbrev pub ascii_from123 : List ℕ
ascii_from123 = 0xaf ∷ 0xb1 ∷ 0xb0 ∷ 0xb8 ∷ 0x2a ∷ []

-- the bytes of "LeftControl", "LeftShift", "LeftAlt", "LeftGUI" and the same of "Right"
abbrev pub left_ : List ℕ → List ℕ
left_ cs = 76 ∷ 101 ∷ 102 ∷ 116 ∷ cs

abbrev pub right_ : List ℕ → List ℕ
right_ cs = 82 ∷ 105 ∷ 103 ∷ 104 ∷ 116 ∷ cs

abbrev pub control : List ℕ
control = 67 ∷ 111 ∷ 110 ∷ 116 ∷ 114 ∷ 111 ∷ 108 ∷ []

abbrev pub shift : List ℕ
shift = 83 ∷ 104 ∷ 105 ∷ 102 ∷ 116 ∷ []

abbrev pub alt : List ℕ
alt = 65 ∷ 108 ∷ 116 ∷ []

abbrev pub gui : List ℕ
gui = 71 ∷ 85 ∷ 73 ∷ []

abbrev pub modifiers : List (List ℕ)
modifiers =
    left_ control
    ∷ left_ shift
    ∷ left_ alt
    ∷ left_ gui
    ∷ right_ control
    ∷ right_ shift
    ∷ right_ alt
    ∷ right_ gui
    ∷ []

-- the loop of `add_keycode` over the `n` places from `i` on
abbrev pub keycode_from : ℕ → ℕ → List ℕ → ℕ → List ℕ
keycode_from zero i report key = report
keycode_from (suc n) i report key =
    let later = keycode_from n (i + 1) report key in
    if get_or report i 0 == 0 then set report i key else later

abbrev pub add_keycode : List ℕ → ℕ → List ℕ
add_keycode report key = keycode_from 6 2 report key

unfoldable pub map_ascii_key : List ℕ → ℕ → List ℕ
map_ascii_key report key =
    let added = add_keycode report (bit_and key 127) in
    if bit_and key keyboard_shift == keyboard_shift then set added 0 2 else added

abbrev pub left_shift : List ℕ → List ℕ
left_shift report = set report 0 (bit_or (get_or report 0 0) 2)

-- the case of a backslash, with the character after it
abbrev pub map_escaped : List ℕ → ℕ → ℕ × List ℕ
map_escaped report next =
    if next == 110
    then (2, add_keycode report 0x28)
    else if next == 116
    then (2, add_keycode report 0x2b)
    else if next == 98
    then (2, add_keycode report 0x2a)
    else (1, report)

-- `map_keys` without extensions, on a character and the one after it
unfoldable pub map_key : List ℕ → ℕ → ℕ → ℕ × List ℕ
unfolding map_ascii_key
map_key report c next =
    if not (ltb c 128)
    then (1, report)
    else if c == 92
    then map_escaped report next
    else if ltb 31 c
    then if ltb c 65
      then (1, map_ascii_key report (get_or ascii_from32 (c - 32) 0))
      else if ltb c 91
      then (1, left_shift (add_keycode report (c - 61)))
      else if ltb c 97
      then (1, map_ascii_key report (get_or ascii_from91 (c - 91) 0))
      else if ltb c 123
      then (1, add_keycode report (c - 93))
      else (1, map_ascii_key report (get_or ascii_from123 (c - 123) 0))
    else if c == 9
    then (1, add_keycode report 0x2b)
    else (1, report)

-- `strncmp_P(input, m, strlen_P(m)) == 0`
abbrev pub starts_with : List ℕ → List ℕ → Bool
starts_with [] input = true
starts_with (c ∷ cs) [] = false
starts_with (c ∷ cs) (d ∷ ds) = (c == d) && starts_with cs ds

-- the first modifier that the input starts with, as its number and its length
abbrev pub find_modifier : List (List ℕ) → ℕ → List ℕ → Option (ℕ × ℕ)
find_modifier [] i input = none
find_modifier (m ∷ ms) i input =
    let later = find_modifier ms (i + 1) input in
    if starts_with m input then some (i, length m) else later

infixl 5 ◌>>=◌
abbrev ◌>>=◌ : {A B : Type 0} → Option A → (A → Option B) → Option B
none >>= f = none
some a >>= f = f a

-- A place in a block: `consumed`, the report, and `found`.
pub record Block : Type 0 where
  pub consumed : ℕ
  pub report : List ℕ
  pub found : Bool

module _ (parse_number : List ℕ → Option ℕ) (input : List ℕ) where
  abbrev pub take_modifier : Block → Block
  take_modifier b = elim (find_modifier modifiers 0 (drop b.consumed input)) [
    | none ↦ record b { found = false }
    | some m ↦ record {
      consumed = b.consumed + m.1;
      report = set b.report 0 (bit_or (get_or b.report 0 0) (2 ^ m.0));
      found = true;
    }
  ]

  -- `0x` and digits: four characters are skipped, whatever the number takes
  abbrev pub take_hex : Block → Block
  take_hex b =
      if not b.found && starts_with (48 ∷ 120 ∷ []) (drop b.consumed input)
      then elim (parse_number (drop b.consumed input)) [
        | none ↦ b
        | some hex ↦ record {
          consumed = b.consumed + 4;
          report = add_keycode b.report (hex % 256);
          found = true;
        }
      ]
      else b

  -- a single character before `+` or `}`; `none` is a read behind the input
  abbrev pub take_single : Block → Option Block
  take_single b = do
    next ← byte_of input (b.consumed + 1)
    let one = map_key b.report (get_or input b.consumed 0) next
    some (
        if (not b.found && (next == 43)) || (next == 125)
        then record { consumed = b.consumed + one.0; report = one.1; found = true }
        else b)

  -- the loop of `map_extension_block`, on fuel
  unfoldable pub extension_from : ℕ → ℕ → List ℕ → Option (ℕ × List ℕ)
  unfolding map_key
  extension_from zero consumed report = none
  extension_from (suc fuel) consumed report = do
    c ← byte_of input consumed
    if (c == 0) || (c == 125) then some ((consumed + 1) % 256, report) else do
      b ← take_single (
          take_hex (take_modifier (record { consumed = consumed; report = report; found = false })))
      last ← byte_of input b.consumed
      let more = extension_from fuel (if last == 43 then b.consumed + 1 else b.consumed) b.report
      if b.found then more else some (map_key b.report (get_or input 0 0) (get_or input 1 0))

  unfoldable pub map_extension_block : List ℕ → Option (ℕ × List ℕ)
  unfolding extension_from
  map_extension_block report = extension_from (length input) 2 report

  unfoldable pub map_keys : List ℕ → Bool → Option (ℕ × List ℕ)
  unfolding map_extension_block map_key
  map_keys report extensions =
      if starts_with (37 ∷ 123 ∷ []) input && extensions
      then map_extension_block report
      else some (map_key report (get_or input 0 0) (get_or input 1 0))

unfoldable pub log_consume_as_keyboard_report :
    (List ℕ → Option ℕ) → KeyLog → List ℕ → Option (KeyLog × List ℕ)
unfolding map_keys
log_consume_as_keyboard_report parse_number k report =
    let mapped = map_keys parse_number (drop k.read_position k.buffer) report true in
    if has_next k
    then (mapped >>= λ taken.
        some (record k { read_position = (k.read_position + taken.0) % 256 }, taken.1))
    else some (k, report)
