-- ===== src/Lio/Ends/Rules.antt =====
-- The rules by which a built-in is shown to end: what the evaluator and the state give it.
use phatio.Prelude.{ℕ, ◌+◌, ◌^◌, ◌<◌, ◌≡◌, ◌≢◌, inl, Bool, Option, none, some, ◌%◌, arith}
use phatio.Heap.{data_alloc}
use phatio.Lio.Syntax.{
  Expr, Pointer, Content, Reference, Machine, M, Evaluator, variable, list, atom, string, function,
  uint8, uint16, wild, null, to, value, pure, ◌>>=◌,
}
use phatio.Lio.Values.{
  Device, lookup, or_wrong, lio_stop, eval_expressions, get_variable, eval_as_uint8, string_of,
  get_variable_ref, variable_by_name,
}
use phatio.Lio.Variables.{store_next, write, content_of, alloc}
use phatio.Lio.Ends.{
  Ends, Any, Ends-any, IsFine, >>=-IsFine, pure-IsFine, or_wrong-IsFine, Run, Advances,
  lio_stop-IsFine,
}
use phatio.Lio.Ends.Steps.{Terminates, eval_expressions-Ends, get_variable-Ends}

module _ {W : Type 0} {device : Device W} {start : Run W} {n : ℕ} where
  infixl 5 ◌and_then◌
  pub ◌and_then◌ :
      {A B : Type 0} {c : M W A} {f : A → M W B}
      → IsFine device start n c
      → ((a : A) → IsFine device start n (f a))
      → IsFine device start n (c >>= f)
  h and_then k = >>=-IsFine device start h k

  pub done : {A : Type 0} (a : A) → IsFine device start n (pure a)
  done a = pure-IsFine device start a

  pub wrote : (k : ℕ) (c : Content) → IsFine device start n (write device k c)
  unfolding write
  wrote k c = record { ends = λ m s fuel. (s, omega arith, tt) }

  pub listed : (k : ℕ) → IsFine device start n (store_next device k)
  unfolding store_next
  listed k = record { ends = λ m s fuel. (s, omega arith, tt) }

  pub content : (k : ℕ) → IsFine device start n (content_of device k)
  unfolding content_of
  content k = record { ends = λ m s fuel. at (lookup m.defined k) m s }
    where
      at :
          (o : Option Reference) (m : Machine W)
          → m.time_started ≡ start.began
          → Ends device start m (Any device start) (or_wrong o m)
      at none m s = tt
      at (some r) m s = (s, omega arith, tt)

module _ {W : Type 0} (device : Device W) (start : Run W) (n : ℕ) where
  abbrev Fine : {A : Type 0} → M W A → Type 0
  Fine c = IsFine device start n c

  -- What a built-in may call.
  pub record Rules (ev : Evaluator W) : Type 0 where
    pub clock : Advances device start
    pub number : (p : Pointer) → Fine (ev.eval_as_uint16 p)
    pub text : (p : Pointer) → Fine (ev.eval_as_string p)
    pub evaluated : (e : Expr) → Fine (ev.eval e)
    pub looped : (test body : Expr) (ret : Pointer) → Fine (ev.while test body ret)
    pub expressions : (e : Expr) → Fine (eval_expressions device ev e)
    pub fetched :
        (ref : Option ℕ) (has : Bool) (index : ℕ) → Fine (get_variable device ev ref has index)

  pub rules :
      (clock : Advances device start) (ev : Evaluator W)
      → start.began ≢ 0
      → start.began + 2000 < 2 ^ 32
      → Terminates device start n ev
      → Rules ev
  rules clock ev pos fits t = record {
    clock = clock;
    number = λ p. record { ends = λ m s fuel. t.number p m s (inl fuel) };
    text = λ p. record { ends = λ m s fuel. t.text p m s (inl fuel) };
    evaluated = λ e. record {
      ends = λ m s fuel. Ends-any device start _ m (ev.eval e m) (t.eval e m s (omega arith));
    };
    looped = λ test body ret. record { ends = λ m s fuel. t.while test body ret m s fuel };
    expressions = λ e. record {
      ends = λ m s fuel.
          Ends-any device start _ m (eval_expressions device ev e m)
            (eval_expressions-Ends device start clock pos fits n ev t e m s (omega arith));
    };
    fetched = λ ref has index. record {
      ends = λ m s fuel.
          Ends-any device start _ m (get_variable device ev ref has index m)
            (get_variable-Ends device start clock pos fits n ev t ref has index m s (omega arith));
    };
  }

module _ {W : Type 0} {device : Device W} {start : Run W} {n : ℕ} {ev : Evaluator W}
    (r : Rules device start n ev) where
  pub byte : (p : Pointer) → IsFine device start n (eval_as_uint8 ev p)
  unfolding eval_as_uint8
  byte p = r.number p and_then λ v. done (v % 256)

  pub named_text : (p : Pointer) → IsFine device start n (string_of ev p)
  unfolding string_of
  named_text p = r.text p and_then or_wrong-IsFine device start

  by_name :
      (p : Pointer)
      → IsFine device start n
          (string_of ev p >>= λ name m. value (variable_by_name m.defined m.references name) m)
  by_name p = named_text p and_then λ name. record { ends = λ m s fuel. (s, omega arith, tt) }

  pub named : (p : Pointer) → IsFine device start n (get_variable_ref ev p)
  unfolding get_variable_ref
  named (to (variable k)) = done (some k)
  named (to (list e)) = by_name (to (list e))
  named (to (atom s)) = by_name (to (atom s))
  named (to (string s)) = by_name (to (string s))
  named (to (function b)) = by_name (to (function b))
  named (to (uint8 v)) = by_name (to (uint8 v))
  named (to (uint16 v)) = by_name (to (uint16 v))
  named wild = by_name wild
  named null = by_name null

  pub stopped : IsFine device start n (lio_stop device)
  stopped = lio_stop-IsFine device start r.clock

  pub allocated : (size : ℕ) → IsFine device start n (alloc device size)
  unfolding alloc data_alloc lio_stop
  allocated size = record { ends = λ m s fuel. ground (arith, s) }
