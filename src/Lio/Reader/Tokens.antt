-- ===== src/Lio/Reader/Tokens.antt =====
-- One token of `next_expression` of src/lio.c, and the buffer.
use phatio.Prelude.{
  ℕ, ◌+◌, ◌-◌, ◌%◌, ◌<◌, ◌≡◌, ◌∙◌, true, false, Option, some, List, [], ◌∷◌, length, get_or, set,
  length-set, ltb, leb, ◌==◌, if◌then◌else◌, arith,
}
use phatio.Lio.Lexer.{Source}
use phatio.Lio.Reader.{
  Last, Reader, Result, Value, go, return, poke, or_overrun, maxdepth, add_rest, open_list,
  close_with, close_list, add_item, read_token,
}
use phatio.Lio.Reader.Bytes.{poke_one, add_rest_in, set_current_in, IsShort, value_of-IsShort}
use phatio.Lio.Reader.Invariant.{
  Good, IsInside, Safe, if_Safe, or_overrun-Safe, value_in, Good-added, Good-opened,
}

module _ {S : Type 0} (source : Source S) (resolve : List ℕ → Option (ℕ × ℕ))
    (parse_number : List ℕ → Option ℕ) where
  pub close_with-Safe :
      (n : ℕ) (r : Reader S) (b : List ℕ)
      → Good n r
      → length b ≡ n
      → Safe n (close_with source resolve parse_number r b)
  unfolding close_with
  close_with-Safe n r b g e =
      if_Safe n (r.depth == 0) _ _ (λ p. tt)
        (λ p. record {
          size = e;
          open_before = λ i h. g.open_before i (omega arith);
          last_inside = g.last_inside;
          entries = g.entries;
          shallow = omega (arith, g.shallow);
        })

  pub close_list-Safe :
      (n : ℕ) (r : Reader S) (l : Last)
      → Good n r
      → IsInside n l
      → Safe n (close_list source resolve parse_number r l)
  unfolding close_list
  close_list-Safe n r Last.unset g h = tt
  close_list-Safe n r Last.empty g h = close_with-Safe n r r.buffer g g.size
  close_list-Safe n r (Last.at i) g h =
      or_overrun-Safe n _ (set r.buffer i 0) _ (poke_one r.buffer i 0 (omega (arith, g.size)))
        (close_with-Safe n r (set r.buffer i 0) g (length-set r.buffer i 0 ∙ g.size))

  pub add_item-Safe :
      (n : ℕ) (r : Reader S) (v : Value)
      → Good n r
      → r.current + 2 < n
      → IsShort source resolve parse_number v
      → Safe n (add_item source resolve parse_number (n - 2) r v)
  unfolding add_item
  add_item-Safe n r Value.misplaced g h s = tt
  add_item-Safe n r Value.unclear g h s = tt
  add_item-Safe n r (Value.stored type bytes) g h s =
      let c = r.current in
      let (b, (p, (q, w))) =
        set_current_in source resolve parse_number r.buffer c (length bytes) type (n - 2)
          (omega (arith, g.size)) in
      or_overrun-Safe n _ (b, ltb (c + (length bytes + 2) % 256) (n - 2)) _ p (rest b (q ∙ g.size))
    where
      rest :
          (b : List ℕ)
          → length b ≡ n
          → Safe n (
              or_overrun
                (if ltb (r.current + (length bytes + 2) % 256) (n - 2)
                  then poke b (r.current + 2) bytes
                  else some b)
                (λ b₁.
                  or_overrun
                    (add_rest source resolve parse_number r.depth r.enclosing r.current b₁)
                    (λ b₂. go (record r {
                      buffer = b₂;
                      current = r.current + get_or b₂ r.current 0;
                      last = set r.last r.depth (Last.at r.current);
                      first_in_list = false;
                    }))))
      rest b e =
          let (b₁, (p₁, q₁)) =
            value_in (ltb (r.current + (length bytes + 2) % 256) (n - 2)) b (r.current + 2) bytes
              (λ z. ground arith) in
          let (b₂, (p₂, (q₂, w₂))) =
            add_rest_in source resolve parse_number r.depth r.enclosing r.current b₁ g.open_before
              (omega (arith, q₁)) in
          or_overrun-Safe n _ b₁ _ p₁
            (or_overrun-Safe n _ b₂ _ p₂ (Good-added n r b₂ g (omega arith) (q₂ ∙ (q₁ ∙ e))))

  pub open_list-Safe :
      (n : ℕ) (r : Reader S)
      → Good n r
      → r.current + 2 < n
      → Safe n (open_list source resolve parse_number (n - 2) r)
  unfolding open_list
  open_list-Safe n r g h =
      let (b, (p, (q, w))) =
        set_current_in source resolve parse_number r.buffer r.current 0 1 (n - 2)
          (omega (arith, g.size)) in
      or_overrun-Safe n _ (b, ltb (r.current + 2) (n - 2)) _ p
        (if_Safe n (ltb (r.current + 2) (n - 2)) _ _ (λ z. opened b (q ∙ g.size) w (ground arith))
          (λ z. tt))
    where
      opened :
          (b : List ℕ)
          → length b ≡ n
          → get_or b r.current 0 ≡ 2
          → r.current + 2 < n
          → Safe n (
              or_overrun
                (add_rest source resolve parse_number r.depth r.enclosing r.current b)
                (λ b₁. or_overrun (poke b₁ (r.current + get_or b₁ r.current 0) (0 ∷ [])) (λ b₂.
                  if leb maxdepth (r.depth + 1)
                  then return Result.past_last
                  else go (record {
                    buffer = b₂;
                    current = r.current + get_or b₁ r.current 0;
                    enclosing = set r.enclosing r.depth r.current;
                    last = set (set r.last r.depth (Last.at r.current)) (r.depth + 1) Last.empty;
                    depth = r.depth + 1;
                    first_in_list = true;
                    source = r.source;
                  }))))
      opened b e w l =
          let (b₁, (p₁, (q₁, w₁))) =
            add_rest_in source resolve parse_number r.depth r.enclosing r.current b g.open_before
              (omega arith) in
          let c = r.current + get_or b₁ r.current 0 in
          or_overrun-Safe n _ b₁ _ p₁ (
            or_overrun-Safe n _ (set b₁ c 0) _ (poke_one b₁ c 0 (omega arith)) (
              if_Safe n (leb maxdepth (r.depth + 1)) _ _ (λ z. tt)
                (λ z.
                  Good-opened n r (set b₁ c 0) c g (omega arith) (omega arith)
                    (length-set b₁ c 0 ∙ (q₁ ∙ e)) (ground arith))))

  pub read_token-Safe :
      (n : ℕ) (t : List ℕ) (r : Reader S)
      → Good n r
      → r.current + 2 < n
      → length t < 48
      → Safe n (read_token source resolve parse_number (n - 2) t r)
  unfolding read_token
  read_token-Safe n t r g h l =
      if_Safe n (get_or t 0 0 == 40) _ _
        (λ p. if_Safe n (r.depth == maxdepth) _ _ (λ q. tt) (λ q. open_list-Safe n r g h))
        (λ p.
          if_Safe n (get_or t 0 0 == 41) _ _ (λ q. close_list-Safe n r _ g (g.last_inside r.depth))
            (λ q.
              add_item-Safe n r _ g h
                (value_of-IsShort source resolve parse_number r.first_in_list t l)))
