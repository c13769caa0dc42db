-- ===== src/Lio/Variables.antt =====
-- The built-ins of src/lio_references.c. What two references hold does not overlap, which is so until
-- `data_alloc` wraps. An expression has fewer than 255 items, so that `data_length`, a uint8_t, does not
-- wrap.
use phatio.Prelude.{
  ℕ, suc, ◌+◌, ◌-◌, ◌*◌, ◌%◌, true, false, Option, none, some, List, [], ◌∷◌, ◌++◌, take, drop,
  replicate, length, set, ltb, ◌==◌, if◌then◌else◌,
}
use phatio.Heap.{data_alloc}
use phatio.Lio.Syntax.{
  Expr, Pointer, Content, Reference, M, Evaluator, list, string, uint8, uint16, nil, cons, null, to,
  code, chars, words, value, pure, wrong, ◌>>=◌, ◌>>◌, bind,
}
use phatio.Lio.Values.{
  Device, first, rest, second, third, fourth, lookup, update, or_wrong, uint16_retval, lio_stop,
  get_variable, eval_as_uint8, string_of, get_variable_ref,
}

-- `sizeof(reference)`
abbrev pub sizeof_reference : ℕ
sizeof_reference = 8

-- The kind of data that `defvar` makes, by the type of the first item of it.
pub data Kind : Type 0 where
  numbers text body nothing : Kind

abbrev pub kind_of : Pointer → Kind
kind_of (to (uint8 v)) = Kind.numbers
kind_of (to (uint16 v)) = Kind.numbers
kind_of (to (string s)) = Kind.text
kind_of (to (list e)) = Kind.body
kind_of _ = Kind.nothing

abbrev pub count : Expr → ℕ
count nil = 0
count (cons x e) = suc (count e)

module _ {W : Type 0} (device : Device W) where
  -- `data_alloc`, with all that `lio_stop` does when it fails
  unfoldable pub alloc : ℕ → M W (Option ℕ)
  unfolding data_alloc lio_stop
  alloc size m = elim (data_alloc size m.heap).0 [
    | some p ↦ value (some p) (record m { heap = (data_alloc size m.heap).1 })
    | none ↦ bind (lio_stop device m) (λ _. pure none)
  ]

  -- `define_variable`: the number of the reference, not yet in `references`
  unfoldable pub define_variable : List ℕ → Content → ℕ → ℕ → M W (Option ℕ)
  unfolding alloc
  define_variable name content data_length data_size = do
    name_buf ← alloc (length name + 1)
    ref ← alloc (sizeof_reference + data_length * data_size)
    elim ref [
      | none ↦ pure none
      | some _ ↦ elim name_buf [
        | none ↦ wrong
        | some _ ↦ λ m. value (some (length m.defined)) (record m {
          defined =
              m.defined
              ++ record { name = name; content = content; length = data_length % 256 } ∷ [];
        })
      ]
    ]

  -- `store_next((void **)&references, ref)`
  unfoldable pub store_next : ℕ → M W Pointer
  store_next n m = value null (record m { references = m.references ++ n ∷ [] })

  -- `ref->data` is written
  unfoldable pub write : ℕ → Content → M W (Unit {0})
  write n content m = value tt (record m { defined = update m.defined n content })

  unfoldable pub content_of : ℕ → M W Reference
  content_of n m = or_wrong (lookup m.defined n) m

  module _ (ev : Evaluator W) where
    -- the loop of `defvar` over the values, which are written as they are evaluated
    unfoldable pub write_words : ℕ → List (Option ℕ) → Expr → M W (Unit {0})
    unfolding write
    write_words n done nil = pure tt
    write_words n done (cons x e) = do
      v ← ev.eval_as_uint16 (to x)
      write n (words (done ++ some v ∷ replicate (suc (count e)) none))
      write_words n (done ++ some v ∷ []) e

    -- `if (ref)`, with what is done then; a null pointer is returned in any case
    unfoldable pub if_defined : (ℕ → M W Pointer) → Option ℕ → M W Pointer
    if_defined f none = pure null
    if_defined f (some r) = f r

    -- the data of a function, `ref->data = store_expression(data)`
    unfoldable pub store_body : Expr → ℕ → M W Pointer
    unfolding store_next lio_stop
    store_body e r m =
        let (stored, w) = device.store e m.rest in
        let m' = record m { rest = w } in
        if stored then store_next r m' else bind (lio_stop device m') (λ _. store_next r)

    -- values that are not numbers, of which there is room for none
    unfoldable pub store_none : Expr → ℕ → M W Pointer
    unfolding store_next
    store_none nil r = store_next r
    store_none (cons x e) r = wrong

    -- `defvar` of a name with the values `e`
    unfoldable pub define : Kind → Pointer → Expr → M W Pointer
    unfolding if_defined store_body store_none define_variable write_words store_next string_of
    define Kind.numbers p e = do
      let n = suc (count e)
      name ← string_of ev p
      ref ← define_variable name (words (replicate n none)) n 2
      if_defined (λ r. write_words r [] e >> store_next r) ref
    define Kind.text p e = do
      s ← string_of ev (first e)
      name ← string_of ev p
      ref ← define_variable name (chars (s ++ 0 ∷ [])) (length s + 1) 1
      if_defined store_next ref
    define Kind.body p e = do
      name ← string_of ev p
      ref ← define_variable name (code e) 0 1
      if_defined (store_body e) ref
    define Kind.nothing p e = do
      name ← string_of ev p
      ref ← define_variable name (words []) 0 1
      if_defined (store_none e) ref

    unfoldable pub defvar : Expr → M W Pointer
    unfolding define
    defvar e = define (kind_of (third e)) (second e) (rest (rest e))

    -- writes of `setvar` to what the reference `n` holds now; `undefined` is a write outside it
    unfoldable pub set_char : ℕ → ℕ → ℕ → Content → M W Pointer
    unfolding write get_variable
    set_char n index v (chars now) =
        if ltb index (length now)
        then write n (chars (set now index (v % 256))) >> get_variable device ev (some n) true index
        else wrong
    set_char n index v _ = wrong

    unfoldable pub set_word : ℕ → ℕ → ℕ → Content → M W Pointer
    unfolding write
    set_word n index v (words now) =
        if ltb index (length now)
        then write n (words (set now index (some v))) >> uint16_retval v
        else wrong
    set_word n index v _ = wrong

    -- `strncpy(ref->data, s, ref->length)`, and a 0 as the last byte
    unfoldable pub set_text : ℕ → ℕ → List ℕ → Content → M W Pointer
    unfolding write get_variable
    set_text n len s (chars now) =
        if len == 0
        then wrong
        else write n (chars (take (len - 1) (s ++ replicate len 0) ++ 0 ∷ drop len now))
          >> get_variable device ev (some n) false 0
    set_text n len s _ = wrong

    -- `(setvar name value)` and `(setvar name index value)` on what the reference holds
    unfoldable pub set_content : ℕ → Content → ℕ → Pointer → Pointer → M W Pointer
    unfolding set_char set_word set_text string_of content_of
    set_content n (chars cs) len three null = do
      s ← string_of ev three
      r ← content_of n
      set_text n len s r.content
    set_content n (chars cs) len three four = do
      index ← ev.eval_as_uint16 three
      v ← ev.eval_as_uint16 four
      r ← content_of n
      set_char n index v r.content
    set_content n (words ws) len three null = do
      v ← ev.eval_as_uint16 three
      r ← content_of n
      set_word n 0 v r.content
    set_content n (words ws) len three four = do
      index ← ev.eval_as_uint16 three
      v ← ev.eval_as_uint16 four
      r ← content_of n
      set_word n index v r.content
    set_content n (code _) len three four = wrong

    -- what `setvar` does with the reference that it finds
    unfoldable pub set_found : Pointer → Pointer → Option ℕ → M W Pointer
    unfolding set_content lio_stop content_of
    set_found three four none = lio_stop device >> pure null
    set_found three four (some n) =
        content_of n >>= λ r. set_content n r.content r.length three four

    unfoldable pub setvar : Expr → M W Pointer
    unfolding set_found get_variable_ref
    setvar e = get_variable_ref ev (second e) >>= set_found (third e) (fourth e)

    -- `getvar` with its third item, if there is one
    unfoldable pub get_at : Pointer → Pointer → M W Pointer
    unfolding get_variable_ref get_variable eval_as_uint8
    get_at p null = get_variable_ref ev p >>= λ ref. get_variable device ev ref false 0
    get_at p three = do
      index ← eval_as_uint8 ev three
      ref ← get_variable_ref ev p
      get_variable device ev ref true index

    unfoldable pub getvar : Expr → M W Pointer
    unfolding get_at
    getvar e = get_at (second e) (third e)
