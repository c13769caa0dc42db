-- ===== src/Lio/Syntax.antt =====
-- The data of src/lio.h and src/lio_references.h, and the state of the interpreter. An expression is the
-- list of its items, wherever it is stored; a null list pointer is `nil`. A string is the list of its
-- bytes without the 0 that ends it.
use phatio.Prelude.{ℕ, Option, List}
use phatio.Heap.{Heap}

-- the handlers that a function item can point to; `other` is one of the device's
pub data Builtin : Type 0 where
  defvar setvar getvar : Builtin
  add subtract multiply divide modulus inverse : Builtin
  bitwise_or bitwise_and lshift rshift : Builtin
  if_handler eq_handler lt_handler gt_handler and_handler or_handler not_handler : Builtin
  increment_handler delay_ms_handler while_handler : Builtin
  other : ℕ → Builtin

mutual
  -- an item by its type; a variable is the number of its reference
  pub data Item : Type 0 where
    list : Expr → Item
    atom string : List ℕ → Item
    function : Builtin → Item
    variable : ℕ → Item
    uint8 uint16 : ℕ → Item

  pub data Expr : Type 0 where
    nil : Expr
    cons : Item → Expr → Expr

-- An `Item *`. `wild` is one that was never set: a missing `return`, or `retVal` before its first use.
pub data Pointer : Type 0 where
  wild null : Pointer
  to : Item → Pointer

-- What `ref->data` points to, by `ref->type`: an expression, the bytes of a string with its 0, or
-- numbers, `none` for one that has not been written.
pub data Content : Type 0 where
  code : Expr → Content
  chars : List ℕ → Content
  words : List (Option ℕ) → Content

-- `length` is a uint8_t
pub record Reference : Type 0 where
  pub name : List ℕ
  pub content : Content
  pub length : ℕ

-- `defined` is every reference made, by its number; `references` those that a name can find.
pub record Machine (W : Type 0) : Type 0 where
  pub heap : Heap
  pub defined : List Reference
  pub references : List ℕ
  pub time_started : ℕ
  pub rest : W

-- `undefined` is behaviour that C leaves undefined; `exhausted` is the end of the fuel.
pub data Outcome (W A : Type 0) : Type 0 where
  value : A → Machine W → Outcome W A
  undefined exhausted : Outcome W A

abbrev pub M : Type 0 → Type 0 → Type 0
M W A = Machine W → Outcome W A

abbrev pub pure : {W A : Type 0} → A → M W A
pure a m = value a m

abbrev pub wrong : {W A : Type 0} → M W A
wrong m = undefined

abbrev pub bind : {W A B : Type 0} → Outcome W A → (A → M W B) → Outcome W B
bind (value a m) f = f a m
bind undefined f = undefined
bind exhausted f = exhausted

infixl 5 ◌>>=◌ ◌>>◌
abbrev pub ◌>>=◌ : {W A B : Type 0} → M W A → (A → M W B) → M W B
◌>>=◌ c f m = bind (c m) f

abbrev pub ◌>>◌ : {W B : Type 0} → M W (Unit {0}) → M W B → M W B
c >> k = c >>= λ _. k

-- The functions that call one another without end: `eval`, `eval_as_uint16`, `eval_as_string`, and
-- the loop of `while_handler` with its test, its code and `retval`.
pub record Evaluator (W : Type 0) : Type 0 where
  pub eval : Expr → M W Pointer
  pub eval_as_uint16 : Pointer → M W ℕ
  pub eval_as_string : Pointer → M W (Option (List ℕ))
  pub while : Expr → Expr → Pointer → M W Pointer
