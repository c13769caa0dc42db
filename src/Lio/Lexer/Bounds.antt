-- ===== src/Lio/Lexer/Bounds.antt =====
-- The length of a token, on `next_token` of src/lio.c.
use phatio.Prelude.{
  ℕ, zero, suc, ◌+◌, ◌<◌, ◌≤◌, Bool, true, false, not, ◌&&◌, none, some, List, [], ◌∷◌, ◌++◌,
  length, length-append, ◌==◌, if◌then◌else◌, arith,
}
use phatio.Lio.Values.{strbufsize}
use phatio.Lio.Lexer.{
  Class, class_of, Source, Lexed, finish, skip_line, read_quoted, token_from, switch, next_token,
}

-- A token has a 0 behind it in the buffer.
abbrev pub Fits : {S : Type 0} → Lexed S → Type 0
Fits (Lexed.token t s) = length t < strbufsize
Fits (Lexed.ended t s) = length t ≤ strbufsize
Fits Lexed.overflow = Unit
Fits Lexed.exhausted = Unit

module _ {S : Type 0} where
  if_Fits : (b : Bool) (x y : Lexed S) → Fits x → Fits y → Fits (if b then x else y)
  if_Fits true x y p q = p
  if_Fits false x y p q = q

  token_Fits :
      (used : ℕ) (t : List ℕ) (s : S) → length t < used → Fits (finish used (Lexed.token t s))
  token_Fits used t s h = ground arith

  ended_Fits :
      (used : ℕ) (t : List ℕ) (s : S) → length t ≤ used → Fits (finish used (Lexed.ended t s))
  ended_Fits used t s h = ground arith

  module _ (source : Source S) where
    quoted_Fits : (fuel last : ℕ) (buf : List ℕ) (s : S) → Fits (read_quoted source fuel last buf s)
    unfolding read_quoted
    quoted_Fits zero last buf s = tt
    quoted_Fits (suc fuel) last buf s =
        let (c, s') = source.read s in
        if_Fits (c == 0) _ _ (token_Fits (length buf + 2) buf s' (omega arith)) (
          if_Fits ((c == 34) && not (last == 92)) _ _
            (token_Fits (length buf + 2) (buf ++ (34 ∷ [])) s'
              (omega (arith, length-append buf (34 ∷ []))))
            (quoted_Fits fuel c (buf ++ (c ∷ [])) s'))

    switch-Fits :
        (fuel : ℕ) (loop : Bool → List ℕ → S → Lexed S) (c : ℕ) (k : Class) (started : Bool)
        (buf : List ℕ) (s : S)
        → ((b : Bool) (cs : List ℕ) (s' : S) → Fits (loop b cs s'))
        → Fits (switch source fuel loop c k started buf s)
    unfolding switch
    switch-Fits fuel loop c Class.comment started buf s h =
        elim (skip_line source fuel c s)
          as (λ o. Fits (elim o [ none ↦ Lexed.exhausted | some s' ↦ loop started buf s' ])) [
            | none ↦ tt
            | some s' ↦ h started buf s'
          ]
    switch-Fits fuel loop c Class.blank true buf s h = token_Fits _ buf s (omega arith)
    switch-Fits fuel loop c Class.blank false buf s h = h false buf s
    switch-Fits fuel loop c Class.paren true buf s h = token_Fits _ buf _ (omega arith)
    switch-Fits fuel loop c Class.paren false buf s h =
        token_Fits _ (buf ++ (c ∷ [])) s (omega (arith, length-append buf (c ∷ [])))
    switch-Fits fuel loop c Class.quote true buf s h = token_Fits _ buf _ (omega arith)
    switch-Fits fuel loop c Class.quote false buf s h = quoted_Fits fuel 0 (buf ++ (c ∷ [])) s
    switch-Fits fuel loop c Class.plain started buf s h = h true (buf ++ (c ∷ [])) s

    from_Fits :
        (fuel : ℕ) (started : Bool) (buf : List ℕ) (s : S)
        → Fits (token_from source fuel started buf s)
    unfolding token_from
    from_Fits zero started buf s = tt
    from_Fits (suc fuel) started buf s =
        let (c, s') = source.read s in
        if_Fits (source.lio_stopped s) _ _ (ended_Fits (length buf) buf s (omega arith)) (
          if_Fits (c == 0) _ _ (ended_Fits (length buf + 1) buf s' (omega arith)) (
            switch-Fits fuel (token_from source fuel) c (class_of c) started buf s'
              (from_Fits fuel)))

    -- The token that is returned fits in the buffer, with the 0 behind it.
    pub next_token-Fits : (fuel : ℕ) (s : S) → Fits (next_token source fuel s)
    unfolding next_token
    next_token-Fits fuel s = from_Fits fuel false [] s
