-- ===== src/Lio/Values.antt =====
-- `first`, `rest`, `continue_evaluating`, `eval_expressions` and the conversions of src/lio.c, with
-- `get_variable` of src/lio_references.c. A conversion takes the evaluator for the calls it makes.
use phatio.Prelude.{
  ℕ, zero, suc, ◌+◌, ◌%◌, ◌^◌, Bool, true, false, not, ◌&&◌, ◌||◌, Option, none, some, List, [],
  ◌∷◌, ltb, leb, ◌==◌, if◌then◌else◌,
}
use phatio.Pins.Ports.{strcmp_eq}
use phatio.Lio.Syntax.{
  Expr, Pointer, Content, Reference, M, Evaluator, list, atom, string, function, variable, uint8,
  uint16, nil, cons, wild, null, to, code, chars, words, value, undefined, pure, wrong, ◌>>=◌, bind,
}

-- What the interpreter uses of the device. `millis` is the time as it stands, `tick` the passing of time
-- between two readings of it, and `wait` is `_delay_ms(1)`. `stop` is what `lio_stop` clears outside the
-- interpreter. `store` is `store_expression`, `false` when flash is full. `external` are the other
-- handlers.
pub record Device (W : Type 0) : Type 0 where
  pub millis : W → ℕ
  pub tick : W → W
  pub wait : W → W
  pub stop : W → W
  pub parse_number : List ℕ → Option ℕ
  pub print_number : ℕ → List ℕ
  pub store : Expr → W → Bool × W
  pub external : ℕ → Evaluator W → Expr → M W Pointer

-- `first` of a list
abbrev pub first : Expr → Pointer
first nil = null
first (cons x e) = to x

abbrev pub rest : Expr → Expr
rest nil = nil
rest (cons x e) = e

abbrev pub second : Expr → Pointer
second e = first (rest e)

abbrev pub third : Expr → Pointer
third e = first (rest (rest e))

abbrev pub fourth : Expr → Pointer
fourth e = first (rest (rest (rest e)))

-- `as_list(item)` of an item that is a list
abbrev pub as_list : Pointer → Option Expr
as_list (to (list e)) = some e
as_list _ = none

abbrev pub lookup : List Reference → ℕ → Option Reference
lookup [] n = none
lookup (r ∷ rs) zero = some r
lookup (r ∷ rs) (suc n) = lookup rs n

abbrev pub update : List Reference → ℕ → Content → List Reference
update [] n c = []
update (r ∷ rs) zero c = record r { content = c } ∷ rs
update (r ∷ rs) (suc n) c = r ∷ update rs n c

-- the bytes of a string up to its 0; `none` where there is none
abbrev pub c_string : List ℕ → Option (List ℕ)
c_string [] = none
c_string (c ∷ cs) =
    if c == 0 then some [] else elim (c_string cs) [ none ↦ none | some s ↦ some (c ∷ s) ]

abbrev pub strbufsize : ℕ
strbufsize = 48

abbrev pub uint16_retval : {W : Type 0} → ℕ → M W Pointer
uint16_retval v = pure (to (uint16 v))

abbrev pub uint8_retval : {W : Type 0} → ℕ → M W Pointer
uint8_retval v = pure (to (uint8 v))

abbrev pub or_wrong : {W A : Type 0} → Option A → M W A
or_wrong none m = undefined
or_wrong (some a) m = value a m

abbrev pub word_at : List (Option ℕ) → ℕ → Option ℕ
word_at [] n = none
word_at (w ∷ ws) zero = w
word_at (w ∷ ws) (suc n) = word_at ws n

abbrev pub byte_of : List ℕ → ℕ → Option ℕ
byte_of [] n = none
byte_of (c ∷ cs) zero = some c
byte_of (c ∷ cs) (suc n) = byte_of cs n

module _ {W : Type 0} (device : Device W) where
  unfoldable pub lio_stop : M W (Unit {0})
  lio_stop m = value tt (record m {
    heap = record m.heap { lio_stopped = true };
    references = [];
    rest = device.stop m.rest;
  })

  unfoldable pub continue_evaluating : M W Bool
  unfolding lio_stop
  continue_evaluating m =
      if m.time_started == 0
      then value (not m.heap.lio_stopped) m
      else let m' = record m { rest = device.tick m.rest } in
        if ltb ((m.time_started + 2000) % 2 ^ 32) (device.millis m.rest)
        then bind (lio_stop m') (λ _. pure false)
        else value (not m.heap.lio_stopped) m'

  module _ (ev : Evaluator W) where
    -- `if (LIO_LIST == item_type(expr)) retVal = eval(as_list(expr));`
    unfoldable pub eval_found : Pointer → Option Expr → M W Pointer
    eval_found ret none = pure ret
    eval_found ret (some l) = ev.eval l

    -- the loop of `eval_expressions`, with `retVal`
    unfoldable pub eval_from : Pointer → Expr → M W Pointer
    unfolding continue_evaluating eval_found
    eval_from ret nil = pure ret
    eval_from ret (cons x e) = do
      go ← continue_evaluating
      elim go [
        | false ↦ pure ret
        | true ↦ eval_found ret (as_list (to x)) >>= λ ret'. eval_from ret' e
      ]

    unfoldable pub eval_expressions : Expr → M W Pointer
    unfolding eval_from
    eval_expressions e = eval_from wild e

    -- the element `index` of what a reference holds
    unfoldable pub get_content : Content → ℕ → Bool → ℕ → M W Pointer
    unfolding eval_expressions
    get_content (code e) len has_index index = eval_expressions e
    get_content (chars cs) len has_index index =
        if has_index
        then or_wrong (byte_of cs index) >>= uint16_retval
        else if ltb strbufsize len
        then wrong
        else or_wrong (c_string cs) >>= λ s. pure (to (string s))
    get_content (words ws) len has_index index =
        or_wrong (word_at ws (if has_index then index else 0)) >>= uint16_retval

    -- `get_variable` on the number of a reference, if it is not null. `index` is an int16_t as its bit
    -- pattern.
    unfoldable pub get_variable : Option ℕ → Bool → ℕ → M W Pointer
    unfolding get_content lio_stop
    get_variable none has_index index m = bind (lio_stop m) (λ _. pure null)
    get_variable (some n) has_index index m = elim (lookup m.defined n) [
      | none ↦ undefined
      | some r ↦
          if has_index && (leb 32768 index || leb r.length index)
          then value null m
          else get_content r.content r.length has_index index m
    ]

    unfoldable pub uint16_step : Pointer → M W ℕ
    unfolding get_variable
    uint16_step wild = wrong
    uint16_step null = pure 0
    uint16_step (to (variable n)) = get_variable (some n) false 0 >>= ev.eval_as_uint16
    uint16_step (to (list e)) = ev.eval e >>= ev.eval_as_uint16
    uint16_step (to (uint16 v)) = pure v
    uint16_step (to (uint8 v)) = pure v
    uint16_step (to (atom s)) = pure (elim (device.parse_number s) [ none ↦ 65535 | some v ↦ v ])
    uint16_step (to (string s)) = pure (elim (device.parse_number s) [ none ↦ 65535 | some v ↦ v ])
    uint16_step (to (function b)) = pure 0

    -- the pointer that is returned, `none` for 0
    unfoldable pub string_step : Pointer → M W (Option (List ℕ))
    unfolding get_variable
    string_step wild = wrong
    string_step null = pure none
    string_step (to (variable n)) = get_variable (some n) false 0 >>= ev.eval_as_string
    string_step (to (list e)) = ev.eval e >>= ev.eval_as_string
    string_step (to (uint16 v)) = pure (some (device.print_number v))
    string_step (to (uint8 v)) = pure (some (device.print_number v))
    string_step (to (atom s)) = pure (some s)
    string_step (to (string s)) = pure (some s)
    string_step (to (function b)) = pure none

-- `get_variable_by_name`, with the references that are found by it
unfoldable pub variable_by_name : List Reference → List ℕ → List ℕ → Option ℕ
unfolding strcmp_eq
variable_by_name defined [] name = none
variable_by_name defined (n ∷ ns) name = elim (lookup defined n) [
  | none ↦ variable_by_name defined ns name
  | some r ↦
      let rest = variable_by_name defined ns name in if strcmp_eq name r.name then some n else rest
]

module _ {W : Type 0} (ev : Evaluator W) where
  -- `0xFF & eval_as_uint16(item)`, which for a uint8 is its value
  unfoldable pub eval_as_uint8 : Pointer → M W ℕ
  eval_as_uint8 p = ev.eval_as_uint16 p >>= λ v. pure (v % 256)

  -- a string that is used: a null pointer is not
  unfoldable pub string_of : Pointer → M W (List ℕ)
  string_of p = ev.eval_as_string p >>= or_wrong

  -- the number of the reference, `none` for a null pointer
  unfoldable pub get_variable_ref : Pointer → M W (Option ℕ)
  unfolding variable_by_name string_of
  get_variable_ref (to (variable n)) = pure (some n)
  get_variable_ref p =
      string_of p >>= λ name m. value (variable_by_name m.defined m.references name) m
