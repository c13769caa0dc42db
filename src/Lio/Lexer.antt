-- ===== src/Lio/Lexer.antt =====
-- `next_token` of src/lio.c, on any source of characters. The fuel is used by each character that is read.
use phatio.Prelude.{
  ℕ, zero, suc, ◌+◌, ◌<◌, ◌≡◌, Bool, true, false, not, ◌&&◌, ◌||◌, Option, none, some, List, [],
  ◌∷◌, ◌++◌, length, leb, ◌==◌, if◌then◌else◌,
}
use phatio.CharSource.{StringSource, string_reader, string_putbacker}
use phatio.Lio.Values.{strbufsize}
pub mod Text
pub mod Turns
pub mod Tokens
pub mod Bounds

-- the cases of the switch
pub data Class : Type 0 where
  comment blank paren quote plain : Class

abbrev pub class_of : ℕ → Class
class_of c =
    if (c == 35) || (c == 59)
    then Class.comment
    else if (c == 32) || (c == 10) || (c == 9) || (c == 13)
    then Class.blank
    else if (c == 40) || (c == 41)
    then Class.paren
    else if c == 34
    then Class.quote
    else Class.plain

-- A source, and the flag `lio_stopped`, which reading can set.
pub record Source (S : Type 0) : Type 0 where
  pub read : S → ℕ × S
  pub putback : ℕ → S → S
  pub lio_stopped : S → Bool

-- What is returned, with the characters in the buffer: `token` for true, `ended` for false. `overflow` is a
-- write behind the buffer, whose length is not tested.
pub data Lexed (S : Type 0) : Type 0 where
  token ended : List ℕ → S → Lexed S
  overflow exhausted : Lexed S

-- the result `l` where `used` bytes of the buffer are written
abbrev pub finish : {S : Type 0} → ℕ → Lexed S → Lexed S
finish used l = if leb used strbufsize then l else Lexed.overflow

module _ {S : Type 0} (source : Source S) where
  -- the loop that reads to the end of the line, with `*buf`
  unfoldable pub skip_line : ℕ → ℕ → S → Option S
  skip_line zero c s = none
  skip_line (suc fuel) c s =
      let (d, s') = source.read s in
      let skipped = skip_line fuel d s' in if (c == 10) || (c == 0) then some s else skipped

  -- the loop that reads a string, with `last` and the characters so far
  unfoldable pub read_quoted : ℕ → ℕ → List ℕ → S → Lexed S
  read_quoted zero last buf s = Lexed.exhausted
  read_quoted (suc fuel) last buf s =
      let (c, s') = source.read s in
      let more = read_quoted fuel c (buf ++ (c ∷ [])) s' in
      if c == 0
      then finish (length buf + 2) (Lexed.token buf s')
      else if (c == 34) && not (last == 92)
      then finish (length buf + 2) (Lexed.token (buf ++ (34 ∷ [])) s')
      else more

  -- the switch on the character `c`, with the rest of the loop for each `started_token` and buffer
  unfoldable pub switch :
      ℕ → (Bool → List ℕ → S → Lexed S) → ℕ → Class → Bool → List ℕ → S → Lexed S
  unfolding skip_line read_quoted
  switch fuel loop c Class.comment started buf s = elim (skip_line fuel c s) [
    | none ↦ Lexed.exhausted
    | some s' ↦ loop started buf s'
  ]
  switch fuel loop c Class.blank true buf s = finish (length buf + 1) (Lexed.token buf s)
  switch fuel loop c Class.blank false buf s = loop false buf s
  switch fuel loop c Class.paren true buf s =
      finish (length buf + 1) (Lexed.token buf (source.putback c s))
  switch fuel loop c Class.paren false buf s =
      finish (length buf + 2) (Lexed.token (buf ++ (c ∷ [])) s)
  switch fuel loop c Class.quote true buf s =
      finish (length buf + 1) (Lexed.token buf (source.putback c s))
  switch fuel loop c Class.quote false buf s = read_quoted fuel 0 (buf ++ (c ∷ [])) s
  switch fuel loop c Class.plain started buf s = loop true (buf ++ (c ∷ [])) s

  -- the loop, with `started_token` and the characters before `buf`
  unfoldable pub token_from : ℕ → Bool → List ℕ → S → Lexed S
  unfolding switch
  token_from zero started buf s = Lexed.exhausted
  token_from (suc fuel) started buf s =
      let (c, s') = source.read s in
      let next = switch fuel (token_from fuel) c (class_of c) started buf s' in
      if source.lio_stopped s
      then finish (length buf) (Lexed.ended buf s)
      else if c == 0
      then finish (length buf + 1) (Lexed.ended buf s')
      else next

  unfoldable pub next_token : ℕ → S → Lexed S
  unfolding token_from
  next_token fuel s = token_from fuel false [] s

-- a string is not what stops the interpreter
abbrev pub from_string : Source StringSource
from_string = record { read = string_reader; putback = string_putbacker; lio_stopped = λ s. false }

-- as many tokens as asked for, one call after the other
unfoldable pub next_tokens : {S : Type 0} → Source S → ℕ → ℕ → S → Option (List (List ℕ))
unfolding next_token
next_tokens source fuel zero s = some []
next_tokens source fuel (suc n) s = elim (next_token source fuel s) [
  | Lexed.token t s' ↦ elim (next_tokens source fuel n s') [ none ↦ none | some ts ↦ some (t ∷ ts) ]
  | Lexed.ended t s' ↦ none
  | Lexed.overflow ↦ none
  | Lexed.exhausted ↦ none
]
