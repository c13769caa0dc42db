-- ===== src/Keyboard/Layout.antt =====
-- src/keyboard.c against the US layout of the HID usage tables.
use phatio.Prelude.{
  ℕ, ◌+◌, ◌-◌, ◌≤◌, ◌<◌, ◌≡◌, ◌≢◌, ap, ap₂, ◌∙◌, refl, Bool, true, false, ◌&&◌, ◌||◌, Option, some,
  List, [], ◌∷◌, get_or, replicate, ltb, ◌==◌, if◌then◌else◌, arith,
}
use phatio.Prelude.Bytes.{all_below, all_below_sound}
use phatio.Keyboard.{map_key, map_keys}

-- the keys with the usage 0x1e and the next ones: the digits, enter, escape, backspace, tab, and the
-- others up to 0x38
abbrev pub plain_keys : List ℕ
plain_keys =
    49 ∷ 50 ∷ 51 ∷ 52 ∷ 53 ∷ 54 ∷ 55 ∷ 56 ∷ 57 ∷ 48 ∷ 10 ∷ 27 ∷ 8 ∷ 9 ∷ 32 ∷ 45 ∷ 61 ∷ 91 ∷ 93 ∷ 92
    ∷ 0 ∷ 59 ∷ 39 ∷ 96 ∷ 44 ∷ 46 ∷ 47 ∷ []

-- the same with shift
abbrev pub shift_keys : List ℕ
shift_keys =
    33 ∷ 64 ∷ 35 ∷ 36 ∷ 37 ∷ 94 ∷ 38 ∷ 42 ∷ 40 ∷ 41 ∷ 10 ∷ 27 ∷ 8 ∷ 9 ∷ 32 ∷ 95 ∷ 43 ∷ 123 ∷ 125
    ∷ 124 ∷ 0 ∷ 58 ∷ 34 ∷ 126 ∷ 60 ∷ 62 ∷ 63 ∷ []

-- the character that a key types, 0 for none: the letters have the usages 4 to 29
abbrev pub types : ℕ → ℕ → ℕ
types modifier usage =
    if ltb usage 30
    then if ltb usage 4 then 0 else if modifier == 2 then usage + 61 else usage + 93
    else get_or (if modifier == 2 then shift_keys else plain_keys) (usage - 30) 0

-- what a character is typed as: itself, but for the backquote and the tilde
abbrev pub typed_as : ℕ → ℕ
typed_as c = if c == 96 then 39 else if c == 126 then 63 else c

abbrev no_keys : List ℕ
no_keys = replicate 8 0

-- the report with one key
abbrev pub press : ℕ → ℕ → List ℕ
press modifier usage = modifier ∷ 0 ∷ usage ∷ replicate 5 0

abbrev same : List ℕ → List ℕ → Bool
same [] [] = true
same (c ∷ cs) (d ∷ ds) = (c == d) && same cs ds
same [] (d ∷ ds) = false
same (c ∷ cs) [] = false

same-eq : (cs ds : List ℕ) → same cs ds ≡ true → cs ≡ ds
same-eq [] [] h = refl
same-eq [] (d ∷ ds) h = absurd (ground arith)
same-eq (c ∷ cs) [] h = absurd (ground arith)
same-eq (c ∷ cs) (d ∷ ds) h =
    let e : c ≡ d = ground arith in rw e (ap (d ∷◌) (same-eq cs ds (ground arith)))

-- The report of the printable character `c` is one key, which types what is expected.
abbrev presses : ℕ → Bool
presses c =
    let r = (map_key no_keys c 0).1 in
    ltb c 32
    || ((c == 92)
        || (same r (press (get_or r 0 0) (get_or r 2 0))
            && (types (get_or r 0 0) (get_or r 2 0) == typed_as c)))

all_press : all_below 127 presses ≡ true
unfolding map_key
all_press = refl

-- the character after a character other than the backslash is not looked at
map_key_alone : (report : List ℕ) (c next : ℕ) → c ≢ 92 → map_key report c next ≡ map_key report c 0
unfolding map_key
map_key_alone report c next h = ground arith

map_key_one : (report : List ℕ) (c next : ℕ) → c ≢ 92 → (map_key report c next).0 ≡ 1
unfolding map_key
map_key_one report c next h = ground arith

map_keys_outside :
    (parse_number : List ℕ → Option ℕ) (c next : ℕ) (rest report : List ℕ) (extensions : Bool)
    → next ≢ 123
    → map_keys parse_number (c ∷ next ∷ rest) report extensions ≡ some (map_key report c next)
unfolding map_keys
map_keys_outside parse_number c next rest report extensions h = ground arith

-- A printable character other than a backslash takes one character and presses one key, which on a US
-- keyboard types the character, on a report without keys, if no opening curly bracket is next; but the
-- backquote and the tilde type an apostrophe and a question mark.
pub map_keys-types :
    (parse_number : List ℕ → Option ℕ) (c next : ℕ) (rest : List ℕ) (extensions : Bool)
    → 32 ≤ c
    → c < 127
    → c ≢ 92
    → next ≢ 123
    → (modifier : ℕ) × (usage : ℕ) × ((map_keys parse_number
            (c ∷ next ∷ rest)
            (replicate 8 0)
            extensions
          ≡ some (1, press modifier usage))
        × (types modifier usage ≡ typed_as c))
map_keys-types parse_number c next rest extensions low high esc block =
    let r = (map_key no_keys c 0).1 in
    let h = all_below_sound 127 presses c all_press high in
    let one = same-eq r (press (get_or r 0 0) (get_or r 2 0)) (ground arith) in
    (
      get_or r 0 0,
      get_or r 2 0,
      (
        map_keys_outside parse_number c next rest no_keys extensions block
            ∙ ap some (
                map_key_alone no_keys c next esc
                ∙ ap₂ (λ a b. (a, b)) (map_key_one no_keys c 0 esc) one),
        ground arith,
      ),
    )
