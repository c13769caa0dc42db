-- ===== src/ShortName/Form.antt =====
-- `fat_sfn` of src/fat_impl.c: the form of every result.
use phatio.Prelude.{
  ℕ, zero, suc, ◌+◌, ◌-◌, ◌≤◌, ◌<◌, ◌≡◌, refl, ◌⊎◌, inl, inr, Bool, true, false, ◌||◌, Option, none,
  List, [], ◌∷◌, ◌++◌, length, length-append, length-replicate, length-take, take, replicate, ltb,
  ◌==◌, Bool-cases, if◌then◌else◌, arith,
}
use phatio.Prelude.Bytes.{all_below, all_below_sound}
use phatio.ShortName.{
  fat_sfn_safe_char, char_at, scan, base_end, extension_start, copy_safe, pad, shorten, fat_sfn,
}

abbrev pub All {ℓ} : {A : Type ℓ} → (A → Type 0) → List A → Type 0
All P [] = Unit
All P (x ∷ xs) = P x × All P xs

-- a byte that a short name may hold: a space, or one that `fat_sfn_safe_char` keeps
abbrev pub IsShort : ℕ → Type 0
IsShort c = (c ≡ b' ') ⊎ (fat_sfn_safe_char c ≡ c)

module _ (P : ℕ → Type 0) where
  All-append : (xs ys : List ℕ) → All P xs → All P ys → All P (xs ++ ys)
  All-append [] ys h k = k
  All-append (x ∷ xs) ys h k = (h.0, All-append xs ys h.1 k)

  All-replicate : (n c : ℕ) → P c → All P (replicate n c)
  All-replicate zero c h = tt
  All-replicate (suc n) c h = (h, All-replicate n c h)

  All-take : (n : ℕ) (xs : List ℕ) → All P xs → All P (take n xs)
  All-take zero xs h = tt
  All-take (suc n) [] h = tt
  All-take (suc n) (x ∷ xs) h = (h.0, All-take n xs h.1)

abbrev safe_law : ℕ → Bool
safe_law c =
    fat_sfn_safe_char c == 0 || fat_sfn_safe_char (fat_sfn_safe_char c) == fat_sfn_safe_char c

safe_table : all_below 256 safe_law ≡ true
unfolding fat_sfn_safe_char
safe_table = refl

-- what `fat_sfn_safe_char` gives is 0, or a byte that it keeps
safe-safe :
    (c : ℕ)
    → c < 256
    → (fat_sfn_safe_char c == 0) ≡ false
    → fat_sfn_safe_char (fat_sfn_safe_char c) ≡ fat_sfn_safe_char c
safe-safe c h nz = ground (arith, all_below_sound 256 safe_law c safe_table h)

char_at-lt : (s : List ℕ) (i : ℕ) → All (λ c. c < 256) s → char_at s i < 256
char_at-lt [] i h = omega arith
char_at-lt (c ∷ s) zero h = h.0
char_at-lt (c ∷ s) (suc i) h = char_at-lt s i h.1

module _ (lfn : List ℕ) (bytes : All (λ c. c < 256) lfn) (cap : ℕ) where
  -- what the copying loops add: at most up to `cap` bytes, all fit for a short name
  copy_safe-length :
      (rounds i : ℕ) (sfn : List ℕ)
      → length sfn ≤ cap
      → (length sfn ≤ length (copy_safe lfn cap rounds i sfn))
        × (length (copy_safe lfn cap rounds i sfn) ≤ cap)
  unfolding copy_safe
  copy_safe-length zero i sfn h = (omega arith, h)
  copy_safe-length (suc rounds) i sfn h =
      let c = fat_sfn_safe_char (char_at lfn i) in
      ground (
        arith,
        length-append sfn (c ∷ []),
        copy_safe-length rounds (i + 1) sfn,
        copy_safe-length rounds (i + 1) (sfn ++ c ∷ []),
      )

  copy_safe-IsShort :
      (rounds i : ℕ) (sfn : List ℕ) → All IsShort sfn → All IsShort (copy_safe lfn cap rounds i sfn)
  unfolding copy_safe
  copy_safe-IsShort zero i sfn h = h
  copy_safe-IsShort (suc rounds) i sfn h = elim (Bool-cases (ltb (length sfn) cap)) [
    | inr full ↦ rw full h
    | inl room ↦ rw room (copy_safe-IsShort rounds (i + 1) _ (added (Bool-cases (c == 0))))
  ]
    where
      c : ℕ
      c = fat_sfn_safe_char (char_at lfn i)

      added :
          (c == 0 ≡ true) ⊎ (c == 0 ≡ false) → All IsShort (if c == 0 then sfn else sfn ++ c ∷ [])
      added (inl z) = rw z h
      added (inr nz) = rw nz (
          All-append IsShort sfn _ h
            (inr (safe-safe (char_at lfn i) (char_at-lt lfn i bytes) nz), tt))

length-pad : (n : ℕ) (sfn : List ℕ) → length sfn ≤ n → length (pad n sfn) ≡ n
length-pad n sfn h = omega (
  arith,
  length-append sfn (replicate (n - length sfn) b' '),
  length-replicate {A = ℕ} (n - length sfn) b' ',
)

pad-IsShort : (n : ℕ) (sfn : List ℕ) → All IsShort sfn → All IsShort (pad n sfn)
pad-IsShort n sfn h = All-append IsShort sfn _ h (All-replicate IsShort _ b' ' (inl refl))

length-shorten : (base : List ℕ) → length (shorten base) ≡ 8
length-shorten base = elim (Bool-cases (ltb 8 (length base))) [
  | inl long ↦
      rw long (ground (arith, length-append (take 6 base) (b'~' ∷ b'1' ∷ []), length-take 6 base))
  | inr short ↦ rw short (length-pad 8 base (ground arith))
]

shorten-IsShort : (base : List ℕ) → All IsShort base → All IsShort (shorten base)
unfolding fat_sfn_safe_char
shorten-IsShort base h = elim (Bool-cases (ltb 8 (length base))) [
  | inl long ↦
      rw long
        (All-append IsShort (take 6 base) _ (All-take IsShort 6 base h) (inr refl, (inr refl, tt)))
  | inr short ↦ rw short (pad-IsShort 8 base h)
]

-- `fat_sfn` gives 11 bytes for every name, each a space or a byte that `fat_sfn_safe_char` keeps.
pub fat_sfn-IsShort :
    (lfn : List ℕ)
    → All (λ c. c < 256) lfn
    → (length (fat_sfn lfn) ≡ 11) × All IsShort (fat_sfn lfn)
unfolding fat_sfn
fat_sfn-IsShort lfn bytes = (
  length-pad 11 full long,
  pad-IsShort 11 full (copy_safe-IsShort lfn bytes 11 (end_ - start) start name name-short),
)
  where
    end_ : ℕ
    end_ = (scan lfn 0 none).0

    dot : Option ℕ
    dot = (scan lfn 0 none).1

    start : ℕ
    start = extension_start dot end_

    base : List ℕ
    base = copy_safe lfn 9 (base_end dot end_) 0 []

    name : List ℕ
    name = shorten base

    full : List ℕ
    full = copy_safe lfn 11 (end_ - start) start name

    name-short : All IsShort name
    name-short = shorten-IsShort base (copy_safe-IsShort lfn bytes 9 _ 0 [] tt)

    long : length full ≤ 11
    long =
        (copy_safe-length lfn bytes 11 (end_ - start) start name
          (omega (arith, length-shorten base))).1
