-- ===== src/Support/MakeFs/Rounds.antt =====
-- What a round of the loop of `create_file` in support/make_fs.c writes, and what it leaves.
use phatio.Prelude.{
  strncpy, ℕ, zero, suc, ◌+◌, ◌-◌, ◌*◌, ◌%◌, ◌^◌, ◌<◌, ◌≤◌, ◌≡◌, ◌≢◌, ◌⊎◌, inl, inr, refl, ap, ◌∙◌,
  true, false, List, [], ◌∷◌, ◌++◌, length, get_or, drop, ltb, ◌==◌, if◌then◌else◌, arith,
}
use phatio.Support.MakeFs.{
  Image, Volume, fat_entry, create_blocks, copy, bytes16, buffer_for_cluster, eoc,
}
use phatio.Support.MakeFs.Blocks.{copy-inside, copy-outside}

-- a text has no 0
abbrev pub IsText : List ℕ → Type 0
IsText [] = Unit
IsText (c ∷ cs) = (c ≢ 0) × IsText cs

pub IsText-drop : (n : ℕ) (s : List ℕ) → IsText s → IsText (drop n s)
IsText-drop zero s h = h
IsText-drop (suc n) [] h = tt
IsText-drop (suc n) (c ∷ s) h = IsText-drop n s h.1

pub length-strncpy : (n : ℕ) (s : List ℕ) → length (strncpy n s) ≡ n
unfolding strncpy
length-strncpy zero s = refl
length-strncpy (suc n) [] = ground (arith, length-strncpy n [])
length-strncpy (suc n) (c ∷ s) = ground (arith, length-strncpy n (if c == 0 then [] else s))

-- the end of a text is padded
pub strncpy-short :
    (n : ℕ) (s : List ℕ) → IsText s → length s ≤ n → (rest : List ℕ) × (strncpy n s ≡ s ++ rest)
unfolding strncpy
strncpy-short n [] h l = (strncpy n [], refl)
strncpy-short zero (c ∷ s) h l = absurd (omega arith)
strncpy-short (suc n) (c ∷ s) h l =
    let (rest, e) = strncpy-short n s h.1 (omega arith) in
    let t : (c == 0) ≡ false = ground (arith, h.0) in (rest, rw t (ap (λ l. c ∷ l) e))

pub strncpy-long : (n : ℕ) (s : List ℕ) → IsText s → n ≤ length s → strncpy n s ++ drop n s ≡ s
unfolding strncpy
strncpy-long zero s h l = refl
strncpy-long (suc n) [] h l = absurd (omega arith)
strncpy-long (suc n) (c ∷ s) h l =
    let t : (c == 0) ≡ false = ground (arith, h.0) in
    rw t (ap (λ l. c ∷ l) (strncpy-long n s h.1 (omega arith)))

pub length-drop : (n : ℕ) (s : List ℕ) → length (drop n s) ≡ length s - n
length-drop zero s = omega arith
length-drop (suc n) [] = omega arith
length-drop (suc n) (c ∷ s) = length-drop n s ∙ omega arith

-- An address before the FAT entry of `cluster`, or between the FAT and the block of `cluster`.
abbrev pub Before : ℕ → ℕ → Type 0
Before cluster a = (a < 32768 + cluster * 2) ⊎ ((95744 ≤ a) × (a < (217 + cluster) * 512))

Before-suc : (c a : ℕ) → Before c a → Before (c + 1) a
Before-suc c a (inl h) = inl (omega arith)
Before-suc c a (inr h) = inr (h.0, omega (arith, h.1))

pub zero_cases : (n : ℕ) → (n ≡ 0) ⊎ (n ≢ 0)
zero_cases n = ground arith

-- one round of the loop
abbrev pub linked : ℕ → Volume → Image
linked left v = fat_entry v.free_cluster (if ltb 512 left then v.free_cluster + 1 else eoc) v.image

abbrev pub round : ℕ → List ℕ → Volume → Volume
round left content v = record {
  image = copy (buffer_for_cluster v.free_cluster) (strncpy 512 content) (linked left v);
  free_cluster = (v.free_cluster + 1) % 2 ^ 16;
}

round-Before :
    (left : ℕ) (content : List ℕ) (v : Volume) (a : ℕ)
    → 2 ≤ v.free_cluster
    → v.free_cluster < 31488
    → Before v.free_cluster a
    → (round left content v).image a ≡ v.image a
unfolding fat_entry
round-Before left content v a lo hi (inl b) =
    let value = if ltb 512 left then v.free_cluster + 1 else eoc in
    copy-outside (buffer_for_cluster v.free_cluster) a (strncpy 512 content) (linked left v)
      (inl (omega arith))
    ∙ copy-outside (32768 + v.free_cluster * 2) a (bytes16 value) v.image (inl b)
round-Before left content v a lo hi (inr b) =
    let value = if ltb 512 left then v.free_cluster + 1 else eoc in
    copy-outside (buffer_for_cluster v.free_cluster) a (strncpy 512 content) (linked left v)
      (inl (omega (arith, b.1)))
    ∙ copy-outside (32768 + v.free_cluster * 2) a (bytes16 value) v.image (inr (omega (arith, b.0)))

-- the rounds that follow leave what was written
pub blocks-Before :
    (n left : ℕ) (content : List ℕ) (v : Volume) (a : ℕ)
    → 2 ≤ v.free_cluster
    → v.free_cluster * 512 + left ≤ 31488 * 512
    → Before v.free_cluster a
    → (create_blocks n left content v).image a ≡ v.image a
unfolding create_blocks
blocks-Before zero left content v a lo hi b = refl
blocks-Before (suc n) left content v a lo hi b = elim (zero_cases left) [
  | inl z ↦ let t : (left == 0) ≡ true = ground (arith, z) in rw t refl
  | inr z ↦
      let t : (left == 0) ≡ false = ground (arith, z) in
      let m : (v.free_cluster + 1) % 2 ^ 16 ≡ v.free_cluster + 1 = omega (arith, hi) in
      let v' = round left content v in
      let b' : Before v'.free_cluster a = rw m (Before-suc v.free_cluster a b) in
      rw t (
        blocks-Before n (left - 512) (drop 512 content) v' a (omega (arith, m))
          (omega (arith, m, hi, z)) b'
        ∙ round-Before left content v a lo (omega arith) b)
]

-- the block of the round, and its link
pub round_block :
    (left : ℕ) (content : List ℕ) (v : Volume) (i : ℕ)
    → 2 ≤ v.free_cluster
    → i < 512
    → (round left content v).image ((217 + v.free_cluster) * 512 + i)
      ≡ get_or (strncpy 512 content) i 0
round_block left content v i lo h =
    let e : (217 + v.free_cluster) * 512 + i ≡ buffer_for_cluster v.free_cluster + i =
      omega arith in
    let l = length-strncpy 512 content in
    ap (round left content v).image e
    ∙ copy-inside (buffer_for_cluster v.free_cluster) i (strncpy 512 content) (linked left v)
        (omega (arith, l))

pub round_link :
    (left : ℕ) (content : List ℕ) (v : Volume) (i : ℕ)
    → 2 ≤ v.free_cluster
    → v.free_cluster < 31488
    → i < 2
    → (round left content v).image (32768 + v.free_cluster * 2 + i)
      ≡ get_or (bytes16 (if ltb 512 left then v.free_cluster + 1 else eoc)) i 0
unfolding fat_entry
round_link left content v i lo hi h =
    let value = if ltb 512 left then v.free_cluster + 1 else eoc in
    copy-outside (buffer_for_cluster v.free_cluster) (32768 + v.free_cluster * 2 + i)
      (strncpy 512 content) (linked left v) (inl (omega arith))
    ∙ copy-inside (32768 + v.free_cluster * 2) i (bytes16 value) v.image h
