-- ===== src/Lio/Reader/Bytes.antt =====
-- The writes of `next_expression` of src/lio.c to its buffer.
use phatio.Prelude.{
  ℕ, zero, suc, ◌+◌, ◌%◌, ◌<◌, ◌≤◌, ◌≡◌, refl, ◌∙◌, Bool, true, false, Option, none, some, List, [],
  ◌∷◌, ◌++◌, length, length-append, length-set, get_or, set, get_or-set_ne, get_or-set_self, ltb,
  ◌==◌, if◌then◌else◌, arith,
}
use phatio.Lio.Lexer.{Source}
use phatio.Lio.Reader.{
  poke, unquote, tail, value_from, Value, number, value_of, set_current, add_rest,
}

pub poke_one : (b : List ℕ) (i v : ℕ) → i < length b → poke b i (v ∷ []) ≡ some (set b i v)
poke_one b i v h = ground arith

-- bytes in the buffer are written, and its length stays
pub poke_in :
    (vs b : List ℕ) (i : ℕ)
    → i + length vs ≤ length b
    → (b' : List ℕ) × ((poke b i vs ≡ some b') × (length b' ≡ length b))
poke_in [] b i h = (b, (refl, refl))
poke_in (v ∷ vs) b i h =
    let e = length-set b i v in
    let (b', (p, q)) = poke_in vs (set b i v) (i + 1) (omega (arith, e)) in
    (b', (ground (arith, p), q ∙ e))

module _ {S : Type 0} (source : Source S) (resolve : List ℕ → Option (ℕ × ℕ))
    (parse_number : List ℕ → Option ℕ) where
  abbrev rests : ℕ → List ℕ → ℕ → List ℕ → Option (List ℕ)
  rests = add_rest source resolve parse_number

  add_rest_suc :
      (d : ℕ) (es : List ℕ) (c : ℕ) (b : List ℕ)
      → get_or es d 0 < length b
      → rests (suc d) es c b
        ≡ rests d es c (set b (get_or es d 0) ((get_or b (get_or es d 0) 0 + get_or b c 0) % 256))
  unfolding add_rest
  add_rest_suc d es c b h = ground arith

  pub add_rest_in :
      (d : ℕ) (es : List ℕ) (c : ℕ) (b : List ℕ)
      → ((i : ℕ) → i < d → get_or es i 0 < c)
      → c < length b
      → (b' : List ℕ) × ((rests d es c b ≡ some b')
          × ((length b' ≡ length b) × (get_or b' c 0 ≡ get_or b c 0)))
  unfolding add_rest
  add_rest_in zero es c b h l = (b, (refl, (refl, refl)))
  add_rest_in (suc d) es c b h l =
      let e = get_or es d 0 in
      let v = (get_or b e 0 + get_or b c 0) % 256 in
      let below = h d (omega arith) in
      let len = length-set b e v in
      let (b', (p, (q, r))) =
        add_rest_in d es c (set b e v) (λ i k. h i (omega arith)) (omega (arith, len)) in
      let same = get_or-set_ne b e c v 0 (omega arith) in
      (b', (add_rest_suc d es c b (omega arith) ∙ p, (q ∙ len, r ∙ same)))

  -- `set_current` on two bytes of the buffer
  pub set_current_in :
      (b : List ℕ) (c size type end_ : ℕ)
      → c + 2 ≤ length b
      → (b' : List ℕ) × ((set_current source resolve parse_number b c size type end_
            ≡ some (b', ltb (c + (size + 2) % 256) end_))
          × ((length b' ≡ length b) × (get_or b' c 0 ≡ (size + 2) % 256)))
  unfolding set_current
  set_current_in b c size type end_ h =
      let v = (size + 2) % 256 in
      let l₁ = length-set b c v in
      let l₂ = length-set (set b c v) (c + 1) type in
      let g₁ = get_or-set_ne (set b c v) (c + 1) c type 0 (omega arith) in
      let g₂ = get_or-set_self b c v 0 (omega arith) in
      (set (set b c v) (c + 1) type, (ground (arith, l₁), (l₂ ∙ l₁, g₁ ∙ g₂)))

  -- The bytes of a value are those of the token and a 0, or two.
  abbrev pub IsShort : Value → Type 0
  IsShort (Value.stored type bytes) = length bytes ≤ 48
  IsShort Value.misplaced = Unit
  IsShort Value.unclear = Unit

  unquote_short : (cs : List ℕ) → length (unquote cs) ≤ length cs
  unquote_short [] = omega arith
  unquote_short (c ∷ []) = omega arith
  unquote_short (c ∷ d ∷ cs) = omega (arith, unquote_short (d ∷ cs))

  number-IsShort : (o : Option ℕ) (t : List ℕ) → length t < 48 → IsShort (number o t)
  number-IsShort none t h = omega (arith, length-append t (0 ∷ []))
  number-IsShort (some v) t h = ground arith

  string-IsShort :
      (t : List ℕ) → length t < 48 → IsShort (Value.stored 5 (unquote (tail t) ++ (0 ∷ [])))
  string-IsShort [] h = omega arith
  string-IsShort (c ∷ cs) h = omega (arith, unquote_short cs, length-append (unquote cs) (0 ∷ []))

  if_IsShort : (b : Bool) (x y : Value) → IsShort x → IsShort y → IsShort (if b then x else y)
  if_IsShort true x y p q = p
  if_IsShort false x y p q = q

  from_IsShort :
      (o : Option (ℕ × ℕ)) (f : Bool) (t : List ℕ)
      → length t < 48
      → IsShort (value_from source resolve parse_number o f t)
  from_IsShort (some ref) f t h = omega arith
  from_IsShort none true t h = tt
  from_IsShort none false t h =
      let given = number-IsShort (parse_number t) t h in
      if_IsShort (get_or t 0 0 == 34) _ _ (string-IsShort t h) (
        if_IsShort (get_or t 0 0 == 39) _ _
          (if_IsShort (length t == 1) _ _ tt
            (if_IsShort (get_or t 2 0 == 39) _ _ (number-IsShort (some (get_or t 1 0)) t h) given))
          given)

  pub value_of-IsShort :
      (f : Bool) (t : List ℕ) → length t < 48 → IsShort (value_of source resolve parse_number f t)
  unfolding value_of
  value_of-IsShort f t h = from_IsShort (resolve t) f t h
