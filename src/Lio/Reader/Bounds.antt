-- ===== src/Lio/Reader/Bounds.antt =====
-- The buffer is not left, on `next_expression` of src/lio.c.
use phatio.Prelude.{
  ℕ, zero, suc, ◌+◌, ◌-◌, ◌<◌, ◌≡◌, ◌≢◌, refl, Bool, true, false, ◌||◌, Option, List, length,
  get_or, ltb, ◌==◌, if◌then◌else◌, arith,
}
use phatio.Lio.Lexer.{Source, Lexed, next_token}
use phatio.Lio.Lexer.Bounds.{Fits, next_token-Fits}
use phatio.Lio.Reader.{
  Reader, Result, Step, go, break, return, maxdepth, read_end, proceed, read_lexed, read_from,
  read_first, read_expression, next_expression,
}
use phatio.Lio.Reader.Invariant.{Good, NoOverrun, Safe, unset-IsInside}
use phatio.Lio.Reader.Tokens.{read_token-Safe}
use mathlib.Core.Path.{subst}

module _ {S : Type 0} (source : Source S) (resolve : List ℕ → Option (ℕ × ℕ))
    (parse_number : List ℕ → Option ℕ) where
  if_NoOverrun :
      (b : Bool) (x y : Result S)
      → (b ≡ true → NoOverrun x)
      → NoOverrun y
      → NoOverrun (if b then x else y)
  if_NoOverrun true x y p q = p refl
  if_NoOverrun false x y p q = q

  read_end-NoOverrun :
      (end_ : ℕ) (r : Reader S) → NoOverrun (read_end source resolve parse_number end_ r)
  unfolding read_end
  read_end-NoOverrun end_ r = if_NoOverrun (ltb end_ r.current) _ _ (λ p. tt) tt

  proceed-NoOverrun :
      (n : ℕ) (loop : Reader S → Result S) (st : Step S)
      → ((r : Reader S) → Good n r → NoOverrun (loop r))
      → Safe n st
      → NoOverrun (proceed source resolve parse_number (n - 2) loop st)
  unfolding proceed
  proceed-NoOverrun n loop (go r) h s = h r s
  proceed-NoOverrun n loop (break r) h s = read_end-NoOverrun (n - 2) r
  proceed-NoOverrun n loop (return result) h s = s

  Good-source : (n : ℕ) (r : Reader S) (s : S) → Good n r → Good n (record r { source = s })
  Good-source n r s g = record {
    size = g.size;
    open_before = g.open_before;
    last_inside = g.last_inside;
    entries = g.entries;
    shallow = g.shallow;
  }

  read_lexed-NoOverrun :
      (n : ℕ) (loop : Reader S → Result S) (r : Reader S) (l : Lexed S)
      → ((r' : Reader S) → Good n r' → NoOverrun (loop r'))
      → Good n r
      → r.current + 2 < n
      → Fits l
      → NoOverrun (read_lexed source resolve parse_number (n - 2) loop r l)
  unfolding read_lexed
  read_lexed-NoOverrun n loop r (Lexed.token t s) h g c f =
      let r' = record r { source = s } in
      proceed-NoOverrun n loop _ h
        (read_token-Safe source resolve parse_number n t r' (Good-source n r s g) c f)
  read_lexed-NoOverrun n loop r (Lexed.ended t s) h g c f =
      read_end-NoOverrun (n - 2) (record r { source = s })
  read_lexed-NoOverrun n loop r Lexed.overflow h g c f = tt
  read_lexed-NoOverrun n loop r Lexed.exhausted h g c f = tt

  read_from-NoOverrun :
      (fuel n : ℕ) (r : Reader S)
      → Good n r
      → NoOverrun (read_from source resolve parse_number fuel (n - 2) r)
  unfolding read_from
  read_from-NoOverrun zero n r g = tt
  read_from-NoOverrun (suc fuel) n r g =
      if_NoOverrun (ltb r.current (n - 2)) _ _
        (λ p.
          read_lexed-NoOverrun n _ r _ (read_from-NoOverrun fuel n) g (ground arith)
            (next_token-Fits source fuel r.source))
        (read_end-NoOverrun (n - 2) r)

  read_first-NoOverrun :
      (fuel : ℕ) (buffer t : List ℕ) (s : S)
      → NoOverrun (read_first source resolve parse_number fuel buffer t s)
  unfolding read_first
  read_first-NoOverrun fuel buffer t s =
      if_NoOverrun (source.lio_stopped s || (length t == 0)) _ _ (λ p. tt)
        (if_NoOverrun (get_or t 0 0 == 40) _ _
          (λ p. read_from-NoOverrun fuel (length buffer) _ (record {
            size = refl;
            open_before = λ i h. absurd (omega arith);
            last_inside = unset-IsInside (length buffer) maxdepth;
            entries = refl;
            shallow = omega arith;
          }))
          tt)

  read_expression-NoOverrun :
      (fuel : ℕ) (buffer : List ℕ) (l : Lexed S)
      → NoOverrun (read_expression source resolve parse_number fuel buffer l)
  unfolding read_expression
  read_expression-NoOverrun fuel buffer (Lexed.token t s) = read_first-NoOverrun fuel buffer t s
  read_expression-NoOverrun fuel buffer (Lexed.ended t s) = read_first-NoOverrun fuel buffer t s
  read_expression-NoOverrun fuel buffer Lexed.overflow = tt
  read_expression-NoOverrun fuel buffer Lexed.exhausted = tt

  -- Whatever the script is, and whatever names resolve to, no item, no link and no end of a list is written
  -- outside of the buffer of the expression. The other writes of the code, to `tmp`, to `last`, and through
  -- an entry of `last` that is not set, have outcomes of their own, which are not excluded here.
  pub next_expression-ne-overrun :
      (fuel : ℕ) (buffer : List ℕ) (s : S)
      → next_expression source resolve parse_number fuel buffer s ≢ Result.overrun
  unfolding next_expression
  next_expression-ne-overrun fuel buffer s e =
      let h = read_expression-NoOverrun fuel buffer (next_token source fuel s) in
      subst NoOverrun e h
