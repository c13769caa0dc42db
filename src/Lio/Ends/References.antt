-- ===== src/Lio/Ends/References.antt =====
-- Every built-in of src/lio_references.c ends, if what it calls does.
use phatio.Prelude.{
  ℕ, suc, ◌+◌, ◌*◌, ◌%◌, Bool, true, false, Option, none, some, List, [], ◌∷◌, ◌++◌, length,
  replicate, set, ltb, ◌==◌, if◌then◌else◌, arith,
}
use phatio.Lio.Syntax.{
  Expr, Pointer, Content, M, Evaluator, uint16, nil, cons, wild, null, to, code, chars, words,
  value, pure, wrong, ◌>>=◌, ◌>>◌,
}
use phatio.Lio.Values.{
  Device, first, rest, second, third, fourth, lio_stop, uint16_retval, get_variable,
  get_variable_ref, eval_as_uint8,
}
use phatio.Lio.Variables.{
  Kind, kind_of, count, sizeof_reference, define_variable, store_next, write, write_words,
  if_defined, store_body, store_none, define, defvar, content_of, set_char, set_word, set_text,
  set_content, set_found, setvar, get_at, getvar,
}
use phatio.Lio.Ends.{Run, IsFine, wrong-IsFine}
use phatio.Lio.Ends.Rules.{
  Rules, ◌and_then◌, done, wrote, listed, content, byte, named_text, named, stopped, allocated,
}

module _ {W : Type 0} {device : Device W} {start : Run W} {n : ℕ} {ev : Evaluator W}
    (r : Rules device start n ev) where
  abbrev Fine : {A : Type 0} → M W A → Type 0
  Fine c = IsFine device start n c

  undone : {A : Type 0} → Fine (wrong {A = A})
  undone = wrong-IsFine device start

  define_variable-IsFine :
      (name : List ℕ) (c : Content) (len size : ℕ) → Fine (define_variable device name c len size)
  unfolding define_variable
  define_variable-IsFine name c len size = allocated r (length name + 1) and_then λ name_buf.
      allocated r (sizeof_reference + len * size) and_then both name_buf
    where
      both :
          (name_buf ref : Option ℕ)
          → Fine (elim ref as (λ _. M W (Option ℕ)) [
            | none ↦ pure none
            | some _ ↦ elim name_buf as (λ _. M W (Option ℕ)) [
              | none ↦ wrong
              | some _ ↦ λ m. value (some (length m.defined)) (record m {
                defined = m.defined ++ record { name = name; content = c; length = len % 256 } ∷ [];
              })
            ]
          ])
      both name_buf none = done none
      both none (some _) = undone
      both (some _) (some _) = record { ends = λ m s fuel. (s, omega arith, tt) }

  write_words-IsFine :
      (k : ℕ) (before : List (Option ℕ)) (e : Expr) → Fine (write_words device ev k before e)
  unfolding write_words
  write_words-IsFine k before nil = done tt
  write_words-IsFine k before (cons x e) = r.number (to x) and_then λ v.
      wrote k _ and_then λ _. write_words-IsFine k (before ++ some v ∷ []) e

  if_defined-IsFine :
      (f : ℕ → M W Pointer) (ref : Option ℕ)
      → ((k : ℕ) → Fine (f k))
      → Fine (if_defined device ev f ref)
  unfolding if_defined
  if_defined-IsFine f none h = done null
  if_defined-IsFine f (some k) h = h k

  store_body-IsFine : (e : Expr) (k : ℕ) → Fine (store_body device ev e k)
  unfolding store_body lio_stop store_next
  store_body-IsFine e k = record {
    ends = λ m s fuel.
        ground (arith, s, r.clock.store e m.rest, r.clock.stop (device.store e m.rest).1);
  }

  store_none-IsFine : (e : Expr) (k : ℕ) → Fine (store_none device ev e k)
  unfolding store_none
  store_none-IsFine nil k = listed k
  store_none-IsFine (cons x e) k = undone

  define-IsFine : (k : Kind) (p : Pointer) (e : Expr) → Fine (define device ev k p e)
  unfolding define
  define-IsFine Kind.numbers p e = named_text r p and_then λ name.
      define_variable-IsFine name (words (replicate (suc (count e)) none)) (suc (count e)) 2
      and_then λ ref.
          if_defined-IsFine _ ref (λ k. write_words-IsFine k [] e and_then λ _. listed k)
  define-IsFine Kind.text p e = named_text r (first e) and_then λ s. named_text r p and_then λ name.
      define_variable-IsFine name (chars (s ++ 0 ∷ [])) (length s + 1) 1 and_then λ ref.
      if_defined-IsFine (store_next device) ref listed
  define-IsFine Kind.body p e = named_text r p and_then λ name.
      define_variable-IsFine name (code e) 0 1 and_then λ ref.
      if_defined-IsFine (store_body device ev e) ref (store_body-IsFine e)
  define-IsFine Kind.nothing p e = named_text r p and_then λ name.
      define_variable-IsFine name (words []) 0 1 and_then λ ref.
      if_defined-IsFine (store_none device ev e) ref (store_none-IsFine e)

  pub defvar-IsFine : (e : Expr) → Fine (defvar device ev e)
  unfolding defvar
  defvar-IsFine e = define-IsFine (kind_of (third e)) (second e) (rest (rest e))

  -- a test before a computation that ends
  guarded : (b : Bool) (c : M W Pointer) → Fine c → Fine (if b then c else wrong)
  guarded true c h = h
  guarded false c h = undone

  barred : (b : Bool) (c : M W Pointer) → Fine c → Fine (if b then wrong else c)
  barred true c h = undone
  barred false c h = h

  set_char-IsFine : (k index v : ℕ) (c : Content) → Fine (set_char device ev k index v c)
  unfolding set_char
  set_char-IsFine k index v (chars now) =
      guarded (ltb index (length now)) _ (wrote k _ and_then λ _. r.fetched (some k) true index)
  set_char-IsFine k index v (code _) = undone
  set_char-IsFine k index v (words _) = undone

  set_word-IsFine : (k index v : ℕ) (c : Content) → Fine (set_word device ev k index v c)
  unfolding set_word
  set_word-IsFine k index v (words now) =
      guarded (ltb index (length now))
        (write device k (words (set now index (some v))) >> uint16_retval v)
        (wrote k (words (set now index (some v))) and_then λ _. done (to (uint16 v)))
  set_word-IsFine k index v (code _) = undone
  set_word-IsFine k index v (chars _) = undone

  set_text-IsFine : (k len : ℕ) (s : List ℕ) (c : Content) → Fine (set_text device ev k len s c)
  unfolding set_text
  set_text-IsFine k len s (chars now) =
      barred (len == 0) _ (wrote k _ and_then λ _. r.fetched (some k) false 0)
  set_text-IsFine k len s (code _) = undone
  set_text-IsFine k len s (words _) = undone

  char_at :
      (k : ℕ) (three four : Pointer)
      → Fine (do
        index ← ev.eval_as_uint16 three
        v ← ev.eval_as_uint16 four
        found ← content_of device k
        set_char device ev k index v found.content)
  char_at k three four = r.number three and_then λ index. r.number four and_then λ v.
      content k and_then λ found. set_char-IsFine k index v found.content

  word_at :
      (k : ℕ) (three four : Pointer)
      → Fine (do
        index ← ev.eval_as_uint16 three
        v ← ev.eval_as_uint16 four
        found ← content_of device k
        set_word device ev k index v found.content)
  word_at k three four = r.number three and_then λ index. r.number four and_then λ v.
      content k and_then λ found. set_word-IsFine k index v found.content

  set_content-IsFine :
      (k : ℕ) (c : Content) (len : ℕ) (three four : Pointer)
      → Fine (set_content device ev k c len three four)
  unfolding set_content
  set_content-IsFine k (chars cs) len three null = named_text r three and_then λ s.
      content k and_then λ found. set_text-IsFine k len s found.content
  set_content-IsFine k (chars cs) len three wild = char_at k three wild
  set_content-IsFine k (chars cs) len three (to x) = char_at k three (to x)
  set_content-IsFine k (words ws) len three null =
      r.number three and_then λ v. content k and_then λ found. set_word-IsFine k 0 v found.content
  set_content-IsFine k (words ws) len three wild = word_at k three wild
  set_content-IsFine k (words ws) len three (to x) = word_at k three (to x)
  set_content-IsFine k (code _) len three four = undone

  set_found-IsFine :
      (three four : Pointer) (ref : Option ℕ) → Fine (set_found device ev three four ref)
  unfolding set_found
  set_found-IsFine three four none = stopped r and_then λ _. done null
  set_found-IsFine three four (some k) =
      content k and_then λ found. set_content-IsFine k found.content found.length three four

  pub setvar-IsFine : (e : Expr) → Fine (setvar device ev e)
  unfolding setvar
  setvar-IsFine e = named r (second e) and_then set_found-IsFine (third e) (fourth e)

  indexed :
      (p three : Pointer)
      → Fine (do
        index ← eval_as_uint8 ev three
        ref ← get_variable_ref ev p
        get_variable device ev ref true index)
  indexed p three =
      byte r three and_then λ index. named r p and_then λ ref. r.fetched ref true index

  get_at-IsFine : (p three : Pointer) → Fine (get_at device ev p three)
  unfolding get_at
  get_at-IsFine p null = named r p and_then λ ref. r.fetched ref false 0
  get_at-IsFine p wild = indexed p wild
  get_at-IsFine p (to x) = indexed p (to x)

  pub getvar-IsFine : (e : Expr) → Fine (getvar device ev e)
  unfolding getvar
  getvar-IsFine e = get_at-IsFine (second e) (third e)
