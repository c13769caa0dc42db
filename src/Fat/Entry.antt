-- ===== src/Fat/Entry.antt =====
-- `find_sfn_entry` of src/fat_impl.c against a description of the directory block.
use phatio.Prelude.{
  ℕ, zero, suc, ◌+◌, ◌*◌, ◌≤◌, ◌<◌, ◌≡◌, ◌↔◌, inl, inr, ◌∙◌, true, false, Option, none, some, List,
  bit_and, ◌==◌, Bool-cases, arith,
}
use phatio.Fat.{byte_at, count_equal, entry_matches, find_entry_from, find_sfn_entry}

-- the directory entry at offset `i` has the attributes asked for and the 11 bytes of the name
abbrev pub Matches : List ℕ → List ℕ → ℕ → ℕ → ℕ → Type 0
Matches buf name attr_m attr i =
    (bit_and (byte_at buf (i + 11)) attr_m ≡ attr)
    × ((c : ℕ) → c < 11 → byte_at name c ≡ byte_at buf (i + c))

module _ (buf name : List ℕ) (i : ℕ) where
  count_equal-le : (n c : ℕ) → count_equal buf name i n c ≤ c + n
  unfolding count_equal
  count_equal-le zero c = omega arith
  count_equal-le (suc n) c = ground (arith, count_equal-le n (c + 1))

  count_equal-all :
      (n c : ℕ)
      → ((k : ℕ) → c ≤ k → k < c + n → byte_at name k ≡ byte_at buf (i + k))
      → count_equal buf name i n c ≡ c + n
  unfolding count_equal
  count_equal-all zero c h = omega arith
  count_equal-all (suc n) c h = ground (
    arith,
    h c (omega arith) (omega arith),
    count_equal-all n (c + 1) (λ k lo hi. h k (omega arith) (omega arith)),
  )

  count_equal_sound :
      (n c k : ℕ)
      → count_equal buf name i n c ≡ c + n
      → c ≤ k
      → k < c + n
      → byte_at name k ≡ byte_at buf (i + k)
  unfolding count_equal
  count_equal_sound zero c k e lo hi = absurd (omega arith)
  count_equal_sound (suc n) c k e lo hi =
      elim (Bool-cases (byte_at name c == byte_at buf (i + c))) [
        | inl same ↦ elim (Bool-cases (c == k)) [
          | inl at ↦ ground arith
          | inr past ↦
              count_equal_sound n (c + 1) k (rw same at e ∙ omega arith) (ground arith)
                (omega arith)
        ]
        | inr differ ↦ absurd (ground arith)
      ]

module _ (buf name : List ℕ) (attr_m attr : ℕ) where
  entry_matches_iff :
      (i : ℕ) → (entry_matches buf name attr_m attr i ≡ true) ↔ Matches buf name attr_m attr i
  unfolding entry_matches
  entry_matches_iff i = (to, from)
    where
      to : entry_matches buf name attr_m attr i ≡ true → Matches buf name attr_m attr i
      to h = (
        ground arith,
        λ c lt. count_equal_sound buf name i 11 0 c (ground arith) (omega arith) lt,
      )

      from : Matches buf name attr_m attr i → entry_matches buf name attr_m attr i ≡ true
      from (a, eq) = ground (arith, count_equal-all buf name i 11 0 (λ k lo hi. eq k hi))

  no_match :
      (i : ℕ) → entry_matches buf name attr_m attr i ≡ false → ¬ Matches buf name attr_m attr i
  no_match i h m = let t = (entry_matches_iff i).1 m in cc

  -- the answer is the first of `n` entries from offset `i` on that matches, or that none does
  abbrev pub IsFirst : ℕ → ℕ → Option ℕ → Type 0
  IsFirst n i none = (m : ℕ) → m < n → ¬ Matches buf name attr_m attr (i + 32 * m)
  IsFirst n i (some j) =
      (k : ℕ) × (k < n)
      × (j ≡ i + 32 * k)
      × Matches buf name attr_m attr j
      × ((m : ℕ) → m < k → ¬ Matches buf name attr_m attr (i + 32 * m))

  -- one more entry in front, at `i`, that does not match
  none_before :
      (i k : ℕ)
      → ¬ Matches buf name attr_m attr i
      → ((m : ℕ) → m < k → ¬ Matches buf name attr_m attr (i + 32 + 32 * m))
      → (m : ℕ) → m < suc k
      → ¬ Matches buf name attr_m attr (i + 32 * m)
  none_before i k miss h zero lt = let e : i + 32 * 0 ≡ i = omega arith in rw e miss
  none_before i k miss h (suc m) lt =
      let e : i + 32 * suc m ≡ i + 32 + 32 * m = omega arith in rw e (h m (omega arith))

  IsFirst-suc :
      (n i : ℕ) (r : Option ℕ)
      → ¬ Matches buf name attr_m attr i
      → IsFirst n (i + 32) r
      → IsFirst (suc n) i r
  IsFirst-suc n i none miss h = none_before i n miss h
  IsFirst-suc n i (some j) miss (k, lt, at, m, first) =
      (suc k, omega arith, omega arith, m, none_before i k miss first)

  find_entry_from-IsFirst : (n i : ℕ) → IsFirst n i (find_entry_from buf name attr_m attr n i)
  unfolding find_entry_from
  find_entry_from-IsFirst zero i = λ m h. absurd (omega arith)
  find_entry_from-IsFirst (suc n) i = elim (Bool-cases (entry_matches buf name attr_m attr i)) [
    | inl hit ↦
        rw hit
          (0, omega arith, omega arith, (entry_matches_iff i).0 hit, λ m lt. absurd (omega arith))
    | inr miss ↦ rw miss (IsFirst-suc n i _ (no_match i miss) (find_entry_from-IsFirst n (i + 32)))
  ]

  -- `find_sfn_entry` gives the first of the 16 entries of the block that matches, and 0 exactly when
  -- none does.
  pub find_sfn_entry-IsFirst : IsFirst 16 0 (find_sfn_entry buf name attr_m attr)
  unfolding find_sfn_entry
  find_sfn_entry-IsFirst = find_entry_from-IsFirst 16 0
