-- ===== src/Lio/Reader.antt =====
-- `next_expression` of src/lio.c: the bytes of an expression in a buffer, as `List` of src/lio.h lays them
-- out. A pointer into the buffer is the index of its byte.
use phatio.Prelude.{
  ℕ, zero, suc, ◌+◌, ◌-◌, ◌/◌, ◌%◌, Bool, true, false, ◌&&◌, ◌||◌, Option, none, some, List, [],
  ◌∷◌, ◌++◌, length, get_or, set, replicate, ltb, leb, ◌==◌, if◌then◌else◌,
}
use phatio.Lio.Lexer.{Source, Lexed, next_token}
pub mod Bytes
pub mod Invariant
pub mod Tokens
pub mod Bounds

-- what an entry of `last` is: never set, null, or a list
pub data Last : Type 0 where
  unset empty : Last
  at : ℕ → Last

pub record Reader (S : Type 0) : Type 0 where
  pub buffer : List ℕ
  pub current : ℕ
  pub enclosing : List ℕ
  pub last : List Last
  pub depth : ℕ
  pub first_in_list : Bool
  pub source : S

-- the messages of `lio_stop`
pub data Message : Type 0 where
  start_not_found to_many_nested unexpected_function to_large end_of_file : Message

-- `expression` returns the buffer and the others 0: `nothing` without a message. `overrun` is a write of
-- an item, a link or the end of a list outside of the buffer. Three outcomes are the other writes that leave
-- the memory meant: `token_overflow` is one behind `tmp`, `past_last` one behind the array `last`, and
-- `unset_last` one through an entry of `last` that was not set. `undefined` is a read of what was not
-- written.
pub data Result (S : Type 0) : Type 0 where
  expression : List ℕ → S → Result S
  nothing : S → Result S
  stopped : Message → S → Result S
  overrun token_overflow past_last unset_last undefined exhausted : Result S

-- what a step of the loop comes to: the next one, `break`, or a return
pub data Step (S : Type 0) : Type 0 where
  go break : Reader S → Step S
  return : Result S → Step S

abbrev pub maxdepth : ℕ
maxdepth = 10

abbrev pub or_overrun : {S A : Type 0} → Option A → (A → Step S) → Step S
or_overrun none k = return Result.overrun
or_overrun (some a) k = k a

-- the bytes `vs` from `i` on; `none` outside of the buffer
abbrev pub poke : List ℕ → ℕ → List ℕ → Option (List ℕ)
poke buffer i [] = some buffer
poke buffer i (v ∷ vs) =
    let more = poke (set buffer i v) (i + 1) vs in if ltb i (length buffer) then more else none

abbrev pub low_high : ℕ → List ℕ
low_high v = (v % 256) ∷ ((v / 256) % 256) ∷ []

-- a string without the quotes: the last character is cut off, whatever it is
abbrev pub unquote : List ℕ → List ℕ
unquote [] = []
unquote (c ∷ []) = []
unquote (c ∷ d ∷ cs) = c ∷ unquote (d ∷ cs)

abbrev pub tail : List ℕ → List ℕ
tail [] = []
tail (c ∷ cs) = cs

-- A value to store, with its type and its bytes. `size` is the number of the bytes.
pub data Value : Type 0 where
  stored : ℕ → List ℕ → Value
  misplaced unclear : Value

abbrev pub number : Option ℕ → List ℕ → Value
number none t = Value.stored 2 (t ++ (0 ∷ []))
number (some v) t = if leb v 255 then Value.stored 6 (v ∷ []) else Value.stored 7 (low_high v)

-- `is_number`; a token of one quote is compared with what an earlier one left behind it
abbrev pub is_number : (List ℕ → Option ℕ) → List ℕ → Value
is_number parse_number t =
    if get_or t 0 0 == 39
    then if length t == 1
      then Value.unclear
      else if get_or t 2 0 == 39
      then number (some (get_or t 1 0)) t
      else number (parse_number t) t
    else number (parse_number t) t

-- `resolve` is `resolve_reference`, with the type and the address.
module _ {S : Type 0} (source : Source S) (resolve : List ℕ → Option (ℕ × ℕ))
    (parse_number : List ℕ → Option ℕ) where
  -- the value of the token `t`, by what it resolves to
  abbrev pub value_from : Option (ℕ × ℕ) → Bool → List ℕ → Value
  value_from (some ref) first_in_list t = Value.stored ref.0 (low_high ref.1)
  value_from none true t = Value.misplaced
  value_from none false t =
      if get_or t 0 0 == 34
      then Value.stored 5 (unquote (tail t) ++ (0 ∷ []))
      else is_number parse_number t

  unfoldable pub value_of : Bool → List ℕ → Value
  value_of first_in_list t = value_from (resolve t) first_in_list t

  -- `set_current`, as the buffer and its result
  unfoldable pub set_current : List ℕ → ℕ → ℕ → ℕ → ℕ → Option (List ℕ × Bool)
  set_current buffer current size type end_ =
      let rest = (size + 2) % 256 in
      elim (poke buffer current (rest ∷ type ∷ [])) [
        | none ↦ none
        | some buffer' ↦ some (buffer', ltb (current + rest) end_)
      ]

  -- `enclosing[i]->rest += current->rest` for each `i` below the depth, the last one first
  unfoldable pub add_rest : ℕ → List ℕ → ℕ → List ℕ → Option (List ℕ)
  add_rest zero enclosing current buffer = some buffer
  add_rest (suc i) enclosing current buffer =
      let e = get_or enclosing i 0 in
      elim (poke buffer e (((get_or buffer e 0 + get_or buffer current 0) % 256) ∷ [])) [
        | none ↦ none
        | some buffer' ↦ add_rest i enclosing current buffer'
      ]

  -- the case of an opening brace, from `set_current` on
  unfoldable pub open_list : ℕ → Reader S → Step S
  unfolding set_current add_rest
  open_list end_ r = or_overrun (set_current r.buffer r.current 0 1 end_) λ (b, ok).
      if ok
      then or_overrun (add_rest r.depth r.enclosing r.current b) (λ b₁.
        or_overrun (poke b₁ (r.current + get_or b₁ r.current 0) (0 ∷ [])) (λ b₂.
          if leb maxdepth (r.depth + 1)
          then return Result.past_last
          else go (record {
            buffer = b₂;
            current = r.current + get_or b₁ r.current 0;
            enclosing = set r.enclosing r.depth r.current;
            last = set (set r.last r.depth (Last.at r.current)) (r.depth + 1) Last.empty;
            depth = r.depth + 1;
            first_in_list = true;
            source = r.source;
          })))
      else break (record r { buffer = b })

  -- the case of a closing brace, with the buffer after `last[depth]->rest = 0`
  unfoldable pub close_with : Reader S → List ℕ → Step S
  close_with r b =
      if r.depth == 0
      then return (Result.expression b r.source)
      else go (record r { buffer = b; depth = r.depth - 1; first_in_list = false })

  unfoldable pub close_list : Reader S → Last → Step S
  unfolding close_with
  close_list r Last.unset = return Result.unset_last
  close_list r Last.empty = close_with r r.buffer
  close_list r (Last.at n) = or_overrun (poke r.buffer n (0 ∷ [])) (close_with r)

  -- `set_current`, the value where there is space, and what follows it
  unfoldable pub add_item : ℕ → Reader S → Value → Step S
  unfolding set_current add_rest
  add_item end_ r Value.misplaced = return (Result.stopped Message.unexpected_function r.source)
  add_item end_ r Value.unclear = return Result.undefined
  add_item end_ r (Value.stored type bytes) =
      or_overrun (set_current r.buffer r.current (length bytes) type end_) λ (b, ok).
        or_overrun (if ok then poke b (r.current + 2) bytes else some b) λ b₁.
          or_overrun (add_rest r.depth r.enclosing r.current b₁) λ b₂. go (record r {
            buffer = b₂;
            current = r.current + get_or b₂ r.current 0;
            last = set r.last r.depth (Last.at r.current);
            first_in_list = false;
          })

  -- the body of the loop for the token `t`
  unfoldable pub read_token : ℕ → List ℕ → Reader S → Step S
  unfolding open_list close_list add_item value_of
  read_token end_ t r =
      if get_or t 0 0 == 40
      then if r.depth == maxdepth
        then return (Result.stopped Message.to_many_nested r.source)
        else open_list end_ r
      else if get_or t 0 0 == 41
      then close_list r (get_or r.last r.depth Last.unset)
      else add_item end_ r (value_of r.first_in_list t)

  -- what follows the loop
  unfoldable pub read_end : ℕ → Reader S → Result S
  read_end end_ r =
      if ltb end_ r.current
      then Result.stopped Message.to_large r.source
      else Result.stopped Message.end_of_file r.source

  -- what a step is followed by, with the rest of the loop
  unfoldable pub proceed : ℕ → (Reader S → Result S) → Step S → Result S
  unfolding read_end
  proceed end_ loop (go r) = loop r
  proceed end_ loop (break r) = read_end end_ r
  proceed end_ loop (return result) = result

  unfoldable pub read_lexed : ℕ → (Reader S → Result S) → Reader S → Lexed S → Result S
  unfolding read_token proceed
  read_lexed end_ loop r (Lexed.token t s) =
      proceed end_ loop (read_token end_ t (record r { source = s }))
  read_lexed end_ loop r (Lexed.ended t s) = read_end end_ (record r { source = s })
  read_lexed end_ loop r Lexed.overflow = Result.token_overflow
  read_lexed end_ loop r Lexed.exhausted = Result.exhausted

  -- the loop
  unfoldable pub read_from : ℕ → ℕ → Reader S → Result S
  unfolding read_lexed next_token
  read_from zero end_ r = Result.exhausted
  read_from (suc fuel) end_ r =
      let result = read_lexed end_ (read_from fuel end_) r (next_token source fuel r.source) in
      if ltb r.current end_ then result else read_end end_ r

  -- the tests on the first token, and the loop
  unfoldable pub read_first : ℕ → List ℕ → List ℕ → S → Result S
  unfolding read_from
  read_first fuel buffer t s =
      if source.lio_stopped s || (length t == 0)
      then Result.nothing s
      else if get_or t 0 0 == 40
      then read_from fuel (length buffer - 2) (record {
        buffer = buffer;
        current = 0;
        enclosing = replicate maxdepth 0;
        last = replicate maxdepth Last.unset;
        depth = 0;
        first_in_list = true;
        source = s;
      })
      else Result.stopped Message.start_not_found s

  unfoldable pub read_expression : ℕ → List ℕ → Lexed S → Result S
  unfolding read_first
  read_expression fuel buffer (Lexed.token t s) = read_first fuel buffer t s
  read_expression fuel buffer (Lexed.ended t s) = read_first fuel buffer t s
  read_expression fuel buffer Lexed.overflow = Result.token_overflow
  read_expression fuel buffer Lexed.exhausted = Result.exhausted

  -- the whole, for a buffer of at least 2 bytes
  unfoldable pub next_expression : ℕ → List ℕ → S → Result S
  unfolding read_expression next_token
  next_expression fuel buffer s = read_expression fuel buffer (next_token source fuel s)
