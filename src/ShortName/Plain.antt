-- ===== src/ShortName/Plain.antt =====
-- `fat_sfn` of src/fat_impl.c on names of the form 8.3, and on names that differ only in case.
use phatio.Prelude.{
  ℕ, zero, suc, ◌+◌, ◌-◌, ◌≤◌, ◌<◌, ◌≡◌, ◌≢◌, refl, sym, ap, ◌∙◌, false, ◌&&◌, Option, none, some,
  List, [], ◌∷◌, ◌++◌, map, length, length-append, length-replicate, replicate,
  get_or-append_length, leb, ◌==◌, if◌then◌else◌, arith,
}
use mathlib.Core.List.{append_assoc, append-nil}
use phatio.ShortName.{
  fat_sfn_safe_char, char_at, splits, scan, copy_safe, pad, shorten, build, fat_sfn,
}
use phatio.ShortName.Form.{All}

-- a byte that stands in a name and is kept as it is
abbrev pub IsKept : ℕ → Type 0
IsKept c = (fat_sfn_safe_char c ≡ c) × (c ≢ 0) × (c ≢ b'.')

-- The copying loop takes such bytes over, wherever they stand.
copy_kept :
    (before cs after : List ℕ) (cap i : ℕ) (sfn : List ℕ)
    → i ≡ length before
    → All IsKept cs
    → length sfn + length cs ≤ cap
    → copy_safe (before ++ (cs ++ after)) cap (length cs) i sfn ≡ sfn ++ cs
unfolding copy_safe
copy_kept before [] after cap i sfn e k h = sym (append-nil sfn)
copy_kept before (c ∷ cs) after cap i sfn e k h = ground (
  arith,
  read,
  k.0.0,
  append_assoc before (c ∷ []) (cs ++ after),
  append_assoc sfn (c ∷ []) cs,
  copy_kept (before ++ c ∷ []) cs after cap (i + 1) (sfn ++ c ∷ [])
      (omega (arith, length-append before (c ∷ []))) k.1
      (omega (arith, length-append sfn (c ∷ []))),
)
  where
    read : char_at (before ++ (c ∷ (cs ++ after))) i ≡ c
    read = rw e (get_or-append_length before (cs ++ after) c 0)

-- No dot: the first loop runs to the end, or to the dot in front of the extension.
scan_kept :
    (cs after : List ℕ) (i : ℕ) (dot : Option ℕ)
    → All IsKept cs
    → i + length cs < 255
    → scan (cs ++ after) i dot ≡ scan after (i + length cs) dot
unfolding scan
scan_kept [] after i dot k h = ap (λ j. scan after j dot) (omega arith)
scan_kept (c ∷ cs) after i dot k h =
    ground (arith, k.0, scan_kept cs after (i + 1) dot k.1 (omega arith), shift)
  where
    shift : i + 1 + length cs ≡ i + suc (length cs)
    shift = omega arith

scan_last :
    (cs : List ℕ) (i : ℕ) (dot : Option ℕ)
    → All IsKept cs
    → i + length cs < 255
    → scan cs i dot ≡ (i + length cs, dot)
unfolding scan
scan_last cs i dot k h = ap (λ s. scan s i dot) (sym (append-nil cs)) ∙ scan_kept cs [] i dot k h

scan_dot :
    (base ext : List ℕ)
    → All IsKept base
    → All IsKept ext
    → ext ≢ []
    → length base + length ext < 254
    → scan (base ++ (b'.' ∷ ext)) 0 none ≡ (length base + 1 + length ext, some (length base))
unfolding scan
scan_dot base [] kb ke ne h = absurd (ne refl)
scan_dot base (e ∷ ext) kb ke ne h = ground (
  arith,
  ke.0,
  scan_kept base (b'.' ∷ e ∷ ext) 0 none kb (omega arith),
  scan_last (e ∷ ext) (0 + length base + 1) (some (0 + length base)) ke (omega arith),
)

length-pad : (n : ℕ) (sfn : List ℕ) → length sfn ≤ n → length (pad n sfn) ≡ n
length-pad n sfn h = omega (
  arith,
  length-append sfn (replicate (n - length sfn) b' '),
  length-replicate {A = ℕ} (n - length sfn) b' ',
)

build_split :
    (lfn : List ℕ) (i end_ : ℕ)
    → 0 < i
    → build lfn (end_, some i)
      ≡ pad 11 (copy_safe lfn 11 (end_ - (i + 1)) (i + 1) (shorten (copy_safe lfn 9 i 0 [])))
unfolding build
build_split lfn i end_ h = let ne : (i == 0) ≡ false = ground arith in rw ne

build_kept :
    (base ext : List ℕ)
    → All IsKept base
    → All IsKept ext
    → base ≢ []
    → length base ≤ 8
    → length ext ≤ 3
    → build (base ++ (b'.' ∷ ext)) (length base + 1 + length ext, some (length base))
      ≡ pad 8 base ++ pad 3 ext
unfolding build
build_kept [] ext kb ke nb hb he = absurd (nb refl)
build_kept (b ∷ base) ext kb ke nb hb he =
    build_split name (length (b ∷ base)) end_ (omega arith)
    ∙ ap (λ x. pad 11 (copy_safe name 11 (end_ - start) start (shorten x))) front
    ∙ ap (λ x. pad 11 (copy_safe name 11 (end_ - start) start x)) short
    ∙ ap (λ n. pad 11 (copy_safe name 11 n start (pad 8 (b ∷ base)))) (omega arith)
    ∙ ap (pad 11) back
    ∙ tail
  where
    name : List ℕ
    name = (b ∷ base) ++ (b'.' ∷ ext)

    start : ℕ
    start = length (b ∷ base) + 1

    end_ : ℕ
    end_ = start + length ext

    short : shorten (b ∷ base) ≡ pad 8 (b ∷ base)
    short = ground arith

    front : copy_safe name 9 (length (b ∷ base)) 0 [] ≡ b ∷ base
    front = copy_kept [] (b ∷ base) (b'.' ∷ ext) 9 0 [] refl kb (omega arith)

    split : name ≡ (b ∷ base ++ b'.' ∷ []) ++ (ext ++ [])
    split = rw append-nil (sym (append_assoc (b ∷ base) (b'.' ∷ []) ext))

    back :
        copy_safe name 11 (length ext) (length (b ∷ base) + 1) (pad 8 (b ∷ base))
        ≡ pad 8 (b ∷ base) ++ ext
    back =
        ap (λ s. copy_safe s 11 (length ext) (length (b ∷ base) + 1) (pad 8 (b ∷ base))) split
        ∙ copy_kept (b ∷ base ++ b'.' ∷ []) ext [] 11 (length (b ∷ base) + 1) (pad 8 (b ∷ base))
            (omega (arith, length-append (b ∷ base) (b'.' ∷ []))) ke
            (omega (arith, length-pad 8 (b ∷ base) hb))

    tail : pad 11 (pad 8 (b ∷ base) ++ ext) ≡ pad 8 (b ∷ base) ++ pad 3 ext
    tail =
        append_assoc (pad 8 (b ∷ base)) ext _
        ∙ ap (λ n. pad 8 (b ∷ base) ++ (ext ++ replicate n b' '))
            (omega (arith, length-append (pad 8 (b ∷ base)) ext, length-pad 8 (b ∷ base) hb))

-- A name of the form 8.3 whose bytes `fat_sfn_safe_char` keeps has its two parts as they are, each
-- followed by spaces up to 8 and 3 bytes.
pub fat_sfn-kept :
    (base ext : List ℕ)
    → All IsKept base
    → All IsKept ext
    → base ≢ []
    → ext ≢ []
    → length base ≤ 8
    → length ext ≤ 3
    → fat_sfn (base ++ (b'.' ∷ ext)) ≡ pad 8 base ++ pad 3 ext
unfolding fat_sfn
fat_sfn-kept base ext kb ke nb ne hb he =
    ap (build (base ++ (b'.' ∷ ext))) (scan_dot base ext kb ke ne (omega arith))
    ∙ build_kept base ext kb ke nb hb he

abbrev pub to_upper : ℕ → ℕ
to_upper c = if leb b'a' c && leb c b'z' then c - 32 else c

safe-to_upper : (c : ℕ) → fat_sfn_safe_char (to_upper c) ≡ fat_sfn_safe_char c
unfolding fat_sfn_safe_char
safe-to_upper c = ground arith

dot-to_upper : (c : ℕ) → (to_upper c == b'.') ≡ (c == b'.')
dot-to_upper c = ground arith

zero-to_upper : (c : ℕ) → (to_upper c == 0) ≡ (c == 0)
zero-to_upper c = ground arith

splits-to_upper : (c : ℕ) (rest : List ℕ) → splits (to_upper c) (map to_upper rest) ≡ splits c rest
splits-to_upper c [] = rw dot-to_upper
splits-to_upper c (d ∷ rest) = rw (dot-to_upper c, dot-to_upper d, zero-to_upper d)

scan-to_upper :
    (lfn : List ℕ) (i : ℕ) (dot : Option ℕ) → scan (map to_upper lfn) i dot ≡ scan lfn i dot
unfolding scan
scan-to_upper [] i dot = refl
scan-to_upper (c ∷ lfn) i dot =
    rw (zero-to_upper c, splits-to_upper c lfn, scan-to_upper lfn (i + 1))

char_at-to_upper : (lfn : List ℕ) (i : ℕ) → char_at (map to_upper lfn) i ≡ to_upper (char_at lfn i)
char_at-to_upper [] i = refl
char_at-to_upper (c ∷ lfn) zero = refl
char_at-to_upper (c ∷ lfn) (suc i) = char_at-to_upper lfn i

copy_safe-to_upper :
    (lfn : List ℕ) (cap rounds i : ℕ) (sfn : List ℕ)
    → copy_safe (map to_upper lfn) cap rounds i sfn ≡ copy_safe lfn cap rounds i sfn
unfolding copy_safe
copy_safe-to_upper lfn cap zero i sfn = refl
copy_safe-to_upper lfn cap (suc rounds) i sfn =
    simp (char_at-to_upper, safe-to_upper, copy_safe-to_upper lfn cap rounds)

-- A name in capitals has the same short name as the name itself.
pub fat_sfn-to_upper : (lfn : List ℕ) → fat_sfn (map to_upper lfn) ≡ fat_sfn lfn
unfolding fat_sfn build
fat_sfn-to_upper lfn = simp (scan-to_upper, copy_safe-to_upper)
