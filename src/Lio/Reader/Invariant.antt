-- ===== src/Lio/Reader/Invariant.antt =====
-- What holds between the tokens of `next_expression` of src/lio.c: the lists that are open are in the buffer.
use phatio.Prelude.{
  ℕ, zero, suc, ◌+◌, ◌<◌, ◌≤◌, ◌≡◌, ◌⊎◌, inl, inr, refl, ◌∙◌, Bool, true, false, Option, some, List,
  [], ◌∷◌, length, get_or, set, replicate, length-set, get_or-set_ne, get_or-set_self,
  if◌then◌else◌, arith,
}
use phatio.Lio.Reader.{Last, Reader, Result, Step, go, break, return, poke, or_overrun, maxdepth}
use phatio.Lio.Reader.Bytes.{poke_in}

abbrev pub IsInside : ℕ → Last → Type 0
IsInside n Last.unset = Unit
IsInside n Last.empty = Unit
IsInside n (Last.at i) = i < n

-- The lists that are open begin before the current one.
pub record Good {S : Type 0} (n : ℕ) (r : Reader S) : Type 0 where
  pub size : length r.buffer ≡ n
  pub open_before : (i : ℕ) → i < r.depth → get_or r.enclosing i 0 < r.current
  pub last_inside : (i : ℕ) → IsInside n (get_or r.last i Last.unset)
  pub entries : length r.enclosing ≡ maxdepth
  pub shallow : r.depth < maxdepth

abbrev pub NoOverrun : {S : Type 0} → Result S → Type 0
NoOverrun Result.overrun = ⊥
NoOverrun _ = Unit

abbrev pub Safe : {S : Type 0} → ℕ → Step S → Type 0
Safe n (go r) = Good n r
Safe n (break r) = Unit
Safe n (return result) = NoOverrun result

pub if_Safe :
    {S : Type 0} (n : ℕ) (b : Bool) (x y : Step S)
    → (b ≡ true → Safe n x)
    → (b ≡ false → Safe n y)
    → Safe n (if b then x else y)
if_Safe n true x y p q = p refl
if_Safe n false x y p q = q refl

pub or_overrun-Safe :
    {S A : Type 0} (n : ℕ) (o : Option A) (a : A) (k : A → Step S)
    → o ≡ some a
    → Safe n (k a)
    → Safe n (or_overrun o k)
or_overrun-Safe n o a k e h = rw e h

pub last_set :
    (n : ℕ) (ls : List Last) (j : ℕ) (l : Last)
    → IsInside n l
    → ((i : ℕ) → IsInside n (get_or ls i Last.unset))
    → (i : ℕ) → IsInside n (get_or (set ls j l) i Last.unset)
last_set n [] j l p h i = tt
last_set n (x ∷ ls) zero l p h zero = p
last_set n (x ∷ ls) zero l p h (suc i) = h (suc i)
last_set n (x ∷ ls) (suc j) l p h zero = h 0
last_set n (x ∷ ls) (suc j) l p h (suc i) = last_set n ls j l p (λ k. h (suc k)) i

pub unset-IsInside : (n k i : ℕ) → IsInside n (get_or (replicate k Last.unset) i Last.unset)
unset-IsInside n zero i = tt
unset-IsInside n (suc k) zero = tt
unset-IsInside n (suc k) (suc i) = unset-IsInside n k i

-- the value is written where there is space
pub value_in :
    (ok : Bool) (b : List ℕ) (i : ℕ) (vs : List ℕ)
    → (ok ≡ true → i + length vs ≤ length b)
    → (b' : List ℕ) × (((if ok then poke b i vs else some b) ≡ some b') × (length b' ≡ length b))
value_in true b i vs h = poke_in vs b i (h refl)
value_in false b i vs h = (b, (refl, refl))

-- with an item added, the lists that are open begin before the next one
pub Good-added :
    {S : Type 0} (n : ℕ) (r : Reader S) (b : List ℕ)
    → Good n r
    → r.current < n
    → length b ≡ n
    → Good n (record r {
      buffer = b;
      current = r.current + get_or b r.current 0;
      last = set r.last r.depth (Last.at r.current);
      first_in_list = false;
    })
Good-added n r b g h e = record {
  size = e;
  open_before = λ i k. omega (arith, g.open_before i k);
  last_inside = last_set n r.last r.depth (Last.at r.current) h g.last_inside;
  entries = g.entries;
  shallow = g.shallow;
}

lt_suc_cases : (i d : ℕ) → i < d + 1 → (i < d) ⊎ (i ≡ d)
lt_suc_cases i d h = ground arith

-- with a list opened, it is the last of those that are open
pub Good-opened :
    {S : Type 0} (n : ℕ) (r : Reader S) (b : List ℕ) (c : ℕ)
    → Good n r
    → r.current < c
    → r.current < n
    → length b ≡ n
    → r.depth + 1 < maxdepth
    → Good n (record {
      buffer = b;
      current = c;
      enclosing = set r.enclosing r.depth r.current;
      last = set (set r.last r.depth (Last.at r.current)) (r.depth + 1) Last.empty;
      depth = r.depth + 1;
      first_in_list = true;
      source = r.source;
    })
Good-opened n r b c g h l e d = record {
  size = e;
  open_before = λ i k. before i (lt_suc_cases i r.depth k);
  last_inside =
      last_set n (set r.last r.depth (Last.at r.current)) (r.depth + 1) Last.empty tt
        (last_set n r.last r.depth (Last.at r.current) l g.last_inside);
  entries = length-set r.enclosing r.depth r.current ∙ g.entries;
  shallow = d;
}
  where
    before :
        (i : ℕ) → (i < r.depth) ⊎ (i ≡ r.depth) → get_or (set r.enclosing r.depth r.current) i 0 < c
    before i (inr p) =
        let w = get_or-set_self r.enclosing r.depth r.current 0 (omega (arith, g.entries)) in
        rw p (omega (arith, w))
    before i (inl p) =
        let w = get_or-set_ne r.enclosing r.depth i r.current 0 (omega arith) in
        omega (arith, w, g.open_before i p)
