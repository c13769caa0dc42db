-- ===== src/Lio/Names.antt =====
-- `find_index` of src/util.c, and `resolve_reference` of src/lio_references.c on the table of the names of
-- the built-ins. `j` of `find_index` is an int8_t.
use phatio.Prelude.{
  ℕ, suc, ◌≡◌, ◌≢◌, refl, ap, ◌∙◌, Option, none, some, List, [], ◌∷◌, ◌++◌, get_or, length, ◌+◌,
  ◌<◌, ◌==◌, if◌then◌else◌, false, arith,
}
use phatio.CharSource.{HasNoZero}
use phatio.Pins.Ports.{strcmp_eq}
use phatio.Lio.Syntax.{Reference}
use phatio.Lio.Values.{variable_by_name}

-- The result of `find_index`: `missing` is -1, `outside` a read behind the map.
pub data Index : Type 0 where
  found : ℕ → Index
  missing outside : Index

-- `map[i+1] == 0` ends the map
abbrev pub next_name : List ℕ → Index → Index
next_name [] later = Index.outside
next_name (c ∷ cs) later = if c == 0 then Index.missing else later

-- `j++`, which gives -128 behind 127
abbrev pub next_j : ℕ → Option ℕ
next_j j = if j == 127 then none else some (j + 1)

-- the loop over the map, with `j`, `none` for a negative one, and `index`
unfoldable pub find_from : List ℕ → List ℕ → Option ℕ → ℕ → Index
find_from name [] j index = Index.outside
find_from name (c ∷ cs) none index =
    let restarted = find_from name cs (some 0) (index + 1) in
    let skipped = find_from name cs none index in if c == 0 then next_name cs restarted else skipped
find_from name (c ∷ cs) (some j) index =
    let matched = find_from name cs (next_j j) index in
    let restarted = find_from name cs (some 0) (index + 1) in
    let skipped = find_from name cs none index in
    if c == get_or name j 0
    then if c == 0 then Index.found index else matched
    else if c == 0
    then next_name cs restarted
    else skipped

unfoldable pub find_index : List ℕ → List ℕ → Index
unfolding find_from
find_index name map = find_from name map (some 0) 0

-- `resolve_reference`: the type, LIO_VARIABLE or LIO_FUNCTION, and the pointer. `address` is that of a
-- reference, `handlers` the table of the functions, `names` their map. A map of names, which ends in two
-- bytes of 0, is not left.
unfoldable pub resolve_reference :
    (List ℕ) → (ℕ → ℕ) → (ℕ → ℕ) → List Reference → List ℕ → List ℕ → Option (ℕ × ℕ)
unfolding find_index variable_by_name
resolve_reference names handlers address defined references name =
    elim (variable_by_name defined references name) [
      | some n ↦ some (4, address n)
      | none ↦ elim (find_index name names) [
        | Index.found i ↦ some (3, handlers i)
        | Index.missing ↦ none
        | Index.outside ↦ none
      ]
    ]

-- the map of a list of names
abbrev pub name_map : List (List ℕ) → List ℕ
name_map [] = 0 ∷ []
name_map (n ∷ ns) = n ++ (0 ∷ name_map ns)

-- Each name has a character, and no 0.
abbrev pub AreNames : List (List ℕ) → Type 0
AreNames [] = Unit
AreNames (n ∷ ns) = (n ≢ []) × (HasNoZero n × AreNames ns)

-- the first of the names that is the one asked for
abbrev pub position : List ℕ → List (List ℕ) → ℕ → Index
position name [] index = Index.missing
position name (n ∷ ns) index =
    let later = position name ns (index + 1) in
    if strcmp_eq name n then Index.found index else later

skip_name :
    (name n rest : List ℕ) (index : ℕ)
    → HasNoZero n
    → find_from name (n ++ (0 ∷ rest)) none index
      ≡ next_name rest (find_from name rest (some 0) (index + 1))
unfolding find_from
skip_name name [] rest index h = refl
skip_name name (c ∷ cs) rest index h = ground (arith, skip_name name cs rest index h.1)

-- `suf` is the name from `j` on.
abbrev Behind : List ℕ → ℕ → List ℕ → Type 0
Behind name j suf = (k : ℕ) → get_or name (j + k) 0 ≡ get_or suf k 0

behind_head : (name suf : List ℕ) (j : ℕ) → Behind name j suf → get_or name j 0 ≡ get_or suf 0 0
behind_head name suf j h = let e : j ≡ j + 0 = omega arith in ap (λ i. get_or name i 0) e ∙ h 0

behind_tail : (name ds : List ℕ) (j d : ℕ) → Behind name j (d ∷ ds) → Behind name (j + 1) ds
behind_tail name ds j d h k =
    let e : (j + 1) + k ≡ j + suc k = omega arith in ap (λ i. get_or name i 0) e ∙ h (suc k)

whole : (name : List ℕ) → Behind name 0 name
whole name k = let e : 0 + k ≡ k = omega arith in ap (λ i. get_or name i 0) e

-- the characters of the name from `j` on are compared with a name of the map
in_name :
    (name suf n rest : List ℕ) (j index : ℕ)
    → Behind name j suf
    → j + length suf < 128
    → HasNoZero suf
    → HasNoZero n
    → find_from name (n ++ (0 ∷ rest)) (some j) index ≡ (
        if strcmp_eq suf n
        then Index.found index
        else next_name rest (find_from name rest (some 0) (index + 1)))
unfolding find_from strcmp_eq
in_name name [] [] rest j index h l p q = rw (behind_head name [] j h) refl
in_name name (d ∷ ds) [] rest j index h l p q = ground (arith, behind_head name (d ∷ ds) j h, p)
in_name name [] (c ∷ cs) rest j index h l p q =
    ground (arith, behind_head name [] j h, q, skip_name name cs rest index q.1)
in_name name (d ∷ ds) (c ∷ cs) rest j index h l p q =
    let ih =
      in_name name ds cs rest (j + 1) index (behind_tail name ds j d h) (omega arith) p.1 q.1 in
    let small : (j == 127) ≡ false = ground arith in
    ground (arith, small, behind_head name (d ∷ ds) j h, q, ih, skip_name name cs rest index q.1)

name_map-cons :
    (n : List ℕ) (ns : List (List ℕ)) (later : Index)
    → AreNames (n ∷ ns)
    → next_name (name_map (n ∷ ns)) later ≡ later
name_map-cons [] ns later h = absurd (h.0 refl)
name_map-cons (c ∷ cs) ns later h = let z = h.1.0.0 in ground arith

-- `find_index` on the map of a list of names, which is not empty and whose names have characters and no 0,
-- gives the place of the first that is the name asked for, of fewer than 128 characters, and -1 exactly if
-- none is.
pub find_index-position :
    (name n : List ℕ) (ns : List (List ℕ))
    → length name < 128
    → HasNoZero name
    → AreNames (n ∷ ns)
    → find_index name (name_map (n ∷ ns)) ≡ position name (n ∷ ns) 0
unfolding find_index
find_index-position name n ns l p h = from n ns 0 h
  where
    short : 0 + length name < 128
    short = omega (arith, l)

    from :
        (n : List ℕ) (ns : List (List ℕ)) (index : ℕ)
        → AreNames (n ∷ ns)
        → find_from name (name_map (n ∷ ns)) (some 0) index ≡ position name (n ∷ ns) index
    from n [] index h = in_name name name n (name_map []) 0 index (whole name) short p h.1.0
    from n (m ∷ ms) index h =
        in_name name name n (name_map (m ∷ ms)) 0 index (whole name) short p h.1.0
        ∙ ap (λ later. if strcmp_eq name n then Index.found index else later)
            (name_map-cons m ms _ h.1.1 ∙ from m ms (index + 1) h.1.1)
