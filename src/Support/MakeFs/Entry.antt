-- ===== src/Support/MakeFs/Entry.antt =====
-- Directory entries that support/make_fs.c writes, as src/fat_impl.c finds them.
use phatio.Prelude.{
  ℕ, zero, suc, ◌+◌, ◌*◌, ◌/◌, ◌%◌, ◌^◌, ◌<◌, ◌≤◌, ◌≡◌, ◌≢◌, ◌⊎◌, inl, inr, refl, sym, ap, ◌∙◌,
  Option, none, some, List, [], ◌∷◌, length, get_or, take, bit_and, arith,
}
use mathlib.Core.Path.{subst}
use phatio.Fat.{uint16_value, uint32_value, fatdirent_get_cluster, find_sfn_entry}
use phatio.Fat.Entry.{Matches, IsFirst, find_sfn_entry-IsFirst}
use phatio.Support.MakeFs.{Image, put, copy, bytes16, bytes32, times, create_sfn_entry}
use phatio.Support.MakeFs.Blocks.{bytes_from, get_or-bytes_from, copy-inside, copy-outside}

length-take : (n : ℕ) (s : List ℕ) → n ≤ length s → length (take n s) ≡ n
length-take zero s h = refl
length-take (suc n) [] h = absurd (omega arith)
length-take (suc n) (c ∷ s) h = ground (arith, length-take n s)

get_or-take : (n i : ℕ) (s : List ℕ) → i < n → get_or (take n s) i 0 ≡ get_or s i 0
get_or-take zero i s h = absurd (omega arith)
get_or-take (suc n) i [] h = refl
get_or-take (suc n) zero (c ∷ s) h = refl
get_or-take (suc n) (suc i) (c ∷ s) h = get_or-take n i s (omega arith)

three_ways : (k j : ℕ) → (k < j) ⊎ ((j < k) ⊎ (k ≡ j))
three_ways k j = ground arith

word_of :
    (b : List ℕ) (i n : ℕ)
    → get_or b i 0 ≡ n % 256
    → get_or b (i + 1) 0 ≡ n / 256 % 256
    → n < 65536
    → uint16_value b i ≡ n
word_of b i n p q h = omega (arith, p, q)

long_of :
    (b : List ℕ) (i n : ℕ)
    → get_or b i 0 ≡ n % 256
    → get_or b (i + 1) 0 ≡ n / 256 % 256
    → get_or b (i + 2) 0 ≡ n / 65536 % 256
    → get_or b (i + 2 + 1) 0 ≡ n / 16777216 % 256
    → n < 2 ^ 32
    → uint32_value b i ≡ n
long_of b i n p q r s h = omega (arith, p, q, r, s)

module _ (buf : ℕ) (short : List ℕ) (attributes cluster size : ℕ) (image : Image) where
  abbrev named : Image
  named = copy buf (take 11 short) image

  abbrev attributed : Image
  attributed = put (buf + 11) attributes named

  abbrev timed : Image
  timed = copy (buf + 13) times attributed

  abbrev linked : Image
  linked = copy (buf + 26) (bytes16 cluster) timed

  abbrev entry : Image
  entry = copy (buf + 28) (bytes32 size) linked

  put-outside : (a : ℕ) → a ≢ buf + 11 → attributed a ≡ named a
  put-outside a h = ground arith

  entry_name : (i : ℕ) → 11 ≤ length short → i < 11 → entry (buf + i) ≡ get_or short i 0
  entry_name i l h =
      let n = length-take 11 short l in
      copy-outside (buf + 28) (buf + i) (bytes32 size) linked (inl (omega arith))
      ∙ (copy-outside (buf + 26) (buf + i) (bytes16 cluster) timed (inl (omega arith))
          ∙ (copy-outside (buf + 13) (buf + i) times attributed (inl (omega arith))
              ∙ (put-outside (buf + i) (omega arith)
                  ∙ (copy-inside buf i (take 11 short) image (omega (arith, n))
                      ∙ get_or-take 11 i short h))))

  entry_attributes : entry (buf + 11) ≡ attributes
  entry_attributes =
      copy-outside (buf + 28) (buf + 11) (bytes32 size) linked (inl (omega arith))
      ∙ (copy-outside (buf + 26) (buf + 11) (bytes16 cluster) timed (inl (omega arith))
          ∙ (copy-outside (buf + 13) (buf + 11) times attributed (inl (omega arith))
              ∙ ground arith))

  entry_cluster : (a i : ℕ) → i < 2 → a ≡ buf + 26 + i → entry a ≡ get_or (bytes16 cluster) i 0
  entry_cluster a i h e =
      copy-outside (buf + 28) a (bytes32 size) linked (inl (omega (arith, e)))
      ∙ (ap linked e ∙ copy-inside (buf + 26) i (bytes16 cluster) timed h)

  entry_size : (a i : ℕ) → i < 4 → a ≡ buf + 28 + i → entry a ≡ get_or (bytes32 size) i 0
  entry_size a i h e = ap entry e ∙ copy-inside (buf + 28) i (bytes32 size) linked h

  entry_before : (a : ℕ) → a < buf → entry a ≡ image a
  entry_before a h =
      copy-outside (buf + 28) a (bytes32 size) linked (inl (omega arith))
      ∙ (copy-outside (buf + 26) a (bytes16 cluster) timed (inl (omega arith))
          ∙ (copy-outside (buf + 13) a times attributed (inl (omega arith))
              ∙ (put-outside a (omega arith) ∙ copy-outside buf a (take 11 short) image (inl h))))

module _ (block j : ℕ) (short : List ℕ) (attributes cluster size : ℕ) (image : Image)
    (slot : j < 16) (full : 11 ≤ length short) where
  abbrev at : ℕ
  at = block * 512 + 32 * j

  abbrev after : List ℕ
  after = bytes_from 512 (block * 512) (entry at short attributes cluster size image)

  byte_lem :
      (i k : ℕ) (x : ℕ)
      → i ≡ 32 * j + k
      → i < 512
      → entry at short attributes cluster size image (at + k) ≡ x
      → get_or after i 0 ≡ x
  byte_lem i k x e h v =
      let p : block * 512 + i ≡ at + k = omega (arith, e) in
      get_or-bytes_from 512 (block * 512) i (entry at short attributes cluster size image) h
      ∙ (ap (entry at short attributes cluster size image) p ∙ v)

  entry-Matches : Matches after short 0xd8 (bit_and attributes 0xd8) (32 * j)
  entry-Matches = (
    ap (λ a. bit_and a 0xd8)
        (byte_lem (32 * j + 11) 11 attributes refl (omega (arith, slot))
          (entry_attributes at short attributes cluster size image)),
    λ c h. sym (
        byte_lem (32 * j + c) c (get_or short c 0) refl (omega (arith, slot))
          (entry_name at short attributes cluster size image c full h)),
  )

  cluster_byte :
      (i k : ℕ) → k < 2 → i ≡ 32 * j + 26 + k → get_or after i 0 ≡ get_or (bytes16 cluster) k 0
  cluster_byte i k h e =
      byte_lem i (26 + k) (get_or (bytes16 cluster) k 0) (omega (arith, e)) (omega (arith, e, slot))
        (entry_cluster at short attributes cluster size image (at + (26 + k)) k h (omega arith))

  after_cluster : cluster < 65536 → fatdirent_get_cluster after (32 * j) ≡ cluster
  after_cluster h =
      word_of after (32 * j + 26) cluster (cluster_byte (32 * j + 26) 0 (omega arith) (omega arith))
        (cluster_byte (32 * j + 26 + 1) 1 (omega arith) (omega arith)) h

  size_byte : (i k : ℕ) → k < 4 → i ≡ 32 * j + 28 + k → get_or after i 0 ≡ get_or (bytes32 size) k 0
  size_byte i k h e =
      byte_lem i (28 + k) (get_or (bytes32 size) k 0) (omega (arith, e)) (omega (arith, e, slot, h))
        (entry_size at short attributes cluster size image (at + (28 + k)) k h (omega arith))

  after_size : size < 2 ^ 32 → uint32_value after (32 * j + 28) ≡ size
  after_size h =
      let i = 32 * j + 28 in
      long_of after i size (size_byte i 0 (omega arith) (omega arith))
        (size_byte (i + 1) 1 (omega arith) (omega arith))
        (size_byte (i + 2) 2 (omega arith) (omega arith))
        (size_byte (i + 2 + 1) 3 (omega arith) (omega arith)) h

  earlier :
      (i : ℕ) → i < 32 * j → get_or after i 0 ≡ get_or (bytes_from 512 (block * 512) image) i 0
  earlier i h =
      get_or-bytes_from 512 (block * 512) i (entry at short attributes cluster size image)
        (omega (arith, h, slot))
      ∙ (entry_before at short attributes cluster size image (block * 512 + i) (omega (arith, h))
          ∙ sym (get_or-bytes_from 512 (block * 512) i image (omega (arith, h, slot))))

  earlier-Matches :
      (m : ℕ)
      → m < j
      → Matches after short 0xd8 (bit_and attributes 0xd8) (32 * m)
      → Matches (bytes_from 512 (block * 512) image) short 0xd8 (bit_and attributes 0xd8) (32 * m)
  earlier-Matches m h (a, n) = (
    ap (λ x. bit_and x 0xd8) (sym (earlier (32 * m + 11) (omega (arith, h)))) ∙ a,
    λ c l. n c l ∙ earlier (32 * m + c) (omega (arith, h)),
  )

  entry-Matches_from : Matches after short 0xd8 (bit_and attributes 0xd8) (0 + 32 * j)
  entry-Matches_from =
      let z : 0 + 32 * j ≡ 32 * j = omega arith in
      subst (λ i. Matches after short 0xd8 (bit_and attributes 0xd8) i) (sym z) entry-Matches

  -- the entry is the first of its name and kind
  first_here :
      (r : Option ℕ)
      → IsFirst after short 0xd8 (bit_and attributes 0xd8) 16 0 r
      → ((m : ℕ)
          → m < j
          → ¬ Matches
              (bytes_from 512 (block * 512) image)
              short
              0xd8
              (bit_and attributes 0xd8)
              (32 * m))
      → r ≡ some (32 * j)
  first_here none h before = absurd (h j slot entry-Matches_from)
  first_here (some i) (k, l, e, here, none_before) before = elim (three_ways k j) [
    | inl lt ↦
        let p : i ≡ 32 * k = e ∙ omega arith in
        absurd (
          before k lt (
            earlier-Matches k lt
              (subst (λ i. Matches after short 0xd8 (bit_and attributes 0xd8) i) p here)))
    | inr (inl gt) ↦ absurd (none_before j gt entry-Matches_from)
    | inr (inr eq) ↦ ap some (e ∙ omega (arith, eq))
  ]

-- An entry that `create_sfn_entry` writes into a slot of a block is the one that `find_sfn_entry`
-- finds by its name and kind, with its cluster and its size, if no earlier slot of the block has
-- them. The name has 11 bytes or more, the cluster fits into 16 bits and the size into 32.
pub create_sfn_entry-find_sfn_entry :
    (block j : ℕ) (short : List ℕ) (attributes cluster size : ℕ) (image : Image)
    → j < 16
    → 11 ≤ length short
    → cluster < 2 ^ 16
    → size < 2 ^ 32
    → ((m : ℕ)
        → m < j
        → ¬ Matches
            (bytes_from 512 (block * 512) image)
            short
            0xd8
            (bit_and attributes 0xd8)
            (32 * m))
    → let (next, image') =
        create_sfn_entry (block * 512 + 32 * j) short attributes cluster size image in
      let b = bytes_from 512 (block * 512) image' in
      (next ≡ block * 512 + 32 * (j + 1))
      × ((find_sfn_entry b short 0xd8 (bit_and attributes 0xd8) ≡ some (32 * j))
          × ((fatdirent_get_cluster b (32 * j) ≡ cluster) × (uint32_value b (32 * j + 28) ≡ size)))
unfolding create_sfn_entry
create_sfn_entry-find_sfn_entry block j short attributes cluster size image slot full hc hs before =
    let found =
      find_sfn_entry-IsFirst (after block j short attributes cluster size image slot full) short
        0xd8 (bit_and attributes 0xd8) in
    (
      omega arith,
      (
        first_here block j short attributes cluster size image slot full _ found before,
        (
          after_cluster block j short attributes cluster size image slot full hc,
          after_size block j short attributes cluster size image slot full hs,
        ),
      ),
    )
