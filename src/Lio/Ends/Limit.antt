-- ===== src/Lio/Ends/Limit.antt =====
-- Every script ends: the time limit of `continue_evaluating` stops it, whatever it is.
use phatio.Prelude.{
  ℕ, zero, suc, ◌+◌, ◌*◌, ◌^◌, ◌≤◌, ◌<◌, ◌≡◌, ◌≢◌, ◌⊎◌, inl, inr, refl, Bool, true, false, arith,
}
use phatio.Lio.Syntax.{
  Builtin, Expr, Pointer, Content, Machine, Outcome, M, Evaluator, list, atom, string, function,
  variable, uint8, uint16, wild, null, to, code, chars, words, value, undefined, exhausted, pure,
  ◌>>=◌, bind,
}
use phatio.Lio.Values.{
  Device, first, uint16_step, continue_evaluating, eval_expressions, eval_as_uint8,
}
use phatio.Lio.Basics
use phatio.Lio.Eval.{
  call, eval_content, eval_variable, eval_head, eval_step, evaluator, safe_eval,
  safe_evalexpressions,
}
use phatio.Lio.Ends.{
  Run, left, Ends, Any, NullOrLater, Ends-later, bind-Ends, IsFine, Run, Advances,
  continue_evaluating-Ends,
}
use phatio.Lio.Ends.Steps.{Terminates, uint16_step-Ends, string_step-Ends, eval_expressions-Ends}
use phatio.Lio.Ends.Rules.{Rules, rules, ◌and_then◌, content, done, byte}
use phatio.Lio.Ends.Operators
use phatio.Lio.Ends.References

-- The handlers of the device end, if the evaluator that they call does, leave the time at which the run
-- began as it is, and do not turn the clock back.
abbrev pub ExternalsEnd : {W : Type 0} → Device W → Run W → Type 0
ExternalsEnd {W} device start =
    (k n : ℕ) (ev : Evaluator W)
    → Terminates device start n ev
    → (e : Expr) → IsFine device start n (device.external k ev e)

module _ {W : Type 0} (device : Device W) (start : Run W) (clock : Advances device start)
    (pos : start.began ≢ 0) (fits : start.began + 2000 < 2 ^ 32)
    (externals : ExternalsEnd device start) where
  module _ (n : ℕ) (ev : Evaluator W) (t : Terminates device start n ev) where
    all : Rules device start n ev
    all = rules device start n clock ev pos fits t

    call-IsFine : (b : Builtin) (e : Expr) → IsFine device start n (call device ev b e)
    unfolding call all
    call-IsFine Builtin.defvar e = References.defvar-IsFine all e
    call-IsFine Builtin.setvar e = References.setvar-IsFine all e
    call-IsFine Builtin.getvar e = References.getvar-IsFine all e
    call-IsFine Builtin.add e = Operators.operate-IsFine all Basics.add e
    call-IsFine Builtin.subtract e = Operators.operate-IsFine all Basics.subtract e
    call-IsFine Builtin.multiply e = Operators.operate-IsFine all Basics.multiply e
    call-IsFine Builtin.divide e = Operators.operate-IsFine all Basics.divide e
    call-IsFine Builtin.modulus e = Operators.operate-IsFine all Basics.modulus e
    call-IsFine Builtin.inverse e = Operators.inverse-IsFine all e
    call-IsFine Builtin.bitwise_or e = Operators.operate-IsFine all Basics.bitwise_or e
    call-IsFine Builtin.bitwise_and e = Operators.operate-IsFine all Basics.bitwise_and e
    call-IsFine Builtin.lshift e = Operators.operate-IsFine all Basics.lshift e
    call-IsFine Builtin.rshift e = Operators.operate-IsFine all Basics.rshift e
    call-IsFine Builtin.if_handler e = Operators.if_handler-IsFine all e
    call-IsFine Builtin.eq_handler e = Operators.operate-IsFine all Basics.eq_handler e
    call-IsFine Builtin.lt_handler e = Operators.operate-IsFine all Basics.lt_handler e
    call-IsFine Builtin.gt_handler e = Operators.operate-IsFine all Basics.gt_handler e
    call-IsFine Builtin.and_handler e = Operators.and_handler-IsFine all e
    call-IsFine Builtin.or_handler e = Operators.or_handler-IsFine all e
    call-IsFine Builtin.not_handler e = Operators.not_handler-IsFine all e
    call-IsFine Builtin.increment_handler e = Operators.increment_handler-IsFine all e
    call-IsFine Builtin.delay_ms_handler e = Operators.delay_ms_handler-IsFine all e
    call-IsFine Builtin.while_handler e = Operators.while_handler-IsFine all e
    call-IsFine (Builtin.other k) e = externals k n ev t e

    eval_content-IsFine : (c : Content) → IsFine device start n (eval_content device ev c)
    unfolding eval_content all
    eval_content-IsFine (code e) = all.expressions e
    eval_content-IsFine (chars _) = done null
    eval_content-IsFine (words _) = done null

    eval_variable-IsFine : (k : ℕ) → IsFine device start n (eval_variable device ev k)
    unfolding eval_variable
    eval_variable-IsFine k = content k and_then λ r. eval_content-IsFine r.content

    eval_head-IsFine : (p : Pointer) (e : Expr) → IsFine device start n (eval_head device ev p e)
    unfolding eval_head all
    eval_head-IsFine (to (list _)) e = all.expressions e
    eval_head-IsFine (to (function b)) e = call-IsFine b e
    eval_head-IsFine (to (variable k)) e = eval_variable-IsFine k
    eval_head-IsFine (to (atom _)) e = done null
    eval_head-IsFine (to (string _)) e = done null
    eval_head-IsFine (to (uint8 _)) e = done null
    eval_head-IsFine (to (uint16 _)) e = done null
    eval_head-IsFine wild e = done null
    eval_head-IsFine null e = done null

    later :
        (m m₁ : Machine W) (o : Outcome W Pointer)
        → left device start m₁ < left device start m
        → Ends device start m₁ (Any device start) o
        → Ends device start m (NullOrLater device start m) o
    later m m₁ (value p m') h (s, l, _) = (s, omega arith, inr (omega arith))
    later m m₁ undefined h e = tt
    later m m₁ exhausted h e = e

    eval_step-Ends :
        (e : Expr) (m : Machine W)
        → m.time_started ≡ start.began
        → 2 * left device start m + 1 ≤ suc n
        → Ends device start m (NullOrLater device start m) (eval_step device ev e m)
    unfolding eval_step
    eval_step-Ends e m s fuel =
        bind-Ends device start
          (λ go m'. (go ≡ false) ⊎ (left device start m' < left device start m))
          (NullOrLater device start m) m (continue_evaluating device m) _
          (continue_evaluating-Ends device start clock m pos fits s) go_on
      where
        go_on :
            (go : Bool) (m₁ : Machine W)
            → m₁.time_started ≡ start.began
            → left device start m₁ ≤ left device start m
            → (go ≡ false) ⊎ (left device start m₁ < left device start m)
            → Ends device start m (NullOrLater device start m) (
                (elim go as (λ _. M W Pointer) [
                  | false ↦ pure null
                  | true ↦ eval_head device ev (first e) e
                ])
                  m₁)
        go_on false m₁ s₁ l d = (s₁, l, inl refl)
        go_on true m₁ s₁ l (inl stop) = cc
        go_on true m₁ s₁ l (inr d) =
            later m m₁ _ d ((eval_head-IsFine (first e) e).ends m₁ s₁ (omega arith))

    -- the rest of a round of `while`, with what the test gave
    after : Expr → Expr → Pointer → Pointer → M W Pointer
    after test body ret p = eval_as_uint8 ev p >>= λ v. elim v [
      | zero ↦ pure ret
      | suc _ ↦ eval_expressions device ev body >>= ev.while test body
    ]

    after-IsFine :
        (test body : Expr) (ret p : Pointer) → IsFine device start n (after test body ret p)
    unfolding after all
    after-IsFine test body ret p = byte all p and_then elim [
      | zero ↦ done ret
      | suc _ ↦ all.expressions body and_then all.looped test body
    ]

    after-null :
        (test body : Expr) (ret : Pointer) (m : Machine W)
        → 1 ≤ n
        → after test body ret null m ≡ value ret m
    unfolding after eval_as_uint8
    after-null test body ret m h = rw (t.zero_of_null m h) refl

    while_step-Ends :
        (test body : Expr) (ret : Pointer) (m : Machine W)
        → m.time_started ≡ start.began
        → 2 * left device start m + 2 ≤ suc n
        → Ends device start m (Any device start) (Basics.while_step device ev test body ret m)
    unfolding Basics.while_step after
    while_step-Ends test body ret m s fuel =
        bind-Ends device start (NullOrLater device start m) (Any device start) m (ev.eval test m)
          (after test body ret) (t.eval test m s (omega arith)) round
      where
        round :
            (p : Pointer) (m₁ : Machine W)
            → m₁.time_started ≡ start.began
            → left device start m₁ ≤ left device start m
            → NullOrLater device start m p m₁
            → Ends device start m (Any device start) (after test body ret p m₁)
        round p m₁ s₁ l (inl e) = rw (e, after-null test body ret m₁ (omega arith)) (s₁, l, tt)
        round p m₁ s₁ l (inr d) =
            Ends-later device start (Any device start) m m₁ _ l
              ((after-IsFine test body ret p).ends m₁ s₁ (omega arith))

  evaluator-Terminates : (n : ℕ) → Terminates device start n (evaluator device n)
  unfolding evaluator uint16_step
  evaluator-Terminates zero = record {
    eval = λ e m s fuel. absurd (omega arith);
    number =
        λ p m s. elim [ inl fuel ↦ absurd (omega arith) | inr c ↦ absurd (omega (arith, c.1)) ];
    text = λ p m s. elim [ inl fuel ↦ absurd (omega arith) | inr c ↦ absurd (omega (arith, c.1)) ];
    zero_of_null = λ m h. absurd (omega arith);
    while = λ test body ret m s fuel. absurd (omega arith);
  }
  evaluator-Terminates (suc n) =
      let ev = evaluator device n in
      let ih = evaluator-Terminates n in
      record {
        eval = eval_step-Ends n ev ih;
        number = uint16_step-Ends device start clock pos fits n ev ih;
        text = string_step-Ends device start clock pos fits n ev ih;
        zero_of_null = λ m h. refl;
        while = while_step-Ends n ev ih;
      }

-- a run that ends, and what is done with the machine after it
reset-ne-exhausted :
    {W A : Type 0} (device : Device W) (start : Run W) (P : A → Machine W → Type 0) (m : Machine W)
    (o : Outcome W A) (f : Machine W → Machine W)
    → Ends device start m P o
    → bind o (λ a m'. value a (f m')) ≢ exhausted
reset-ne-exhausted device start P m (value a m') f h = λ e. cc
reset-ne-exhausted device start P m undefined f h = λ e. cc
reset-ne-exhausted device start P m exhausted f h = λ e. h

-- With fuel for the readings of the clock that are possible until 2 seconds have passed, `safe_eval` and
-- `safe_evalexpressions` do not run out of it, for any script and any variables, loops without end and
-- functions that call themselves included. The conditions: the clock goes on, as it does while
-- interrupts are enabled, is not 0, and does not wrap within the 2 seconds; and each handler of the
-- device ends if what it calls does, with `time_started` as it was and the clock not turned back. These
-- leave out a script with `import`, which evaluates by `safe_eval` and thereby sets `time_started` to 0,
-- and the lists of run.lio that `runfile_changed` evaluates with interrupts disabled.
pub safe_eval-ne-exhausted :
    {W : Type 0} (device : Device W) (e : Expr) (m : Machine W) (fuel : ℕ) (readings : W → ℕ)
    → Advances device (record { began = device.millis m.rest; readings = readings })
    → device.millis m.rest ≢ 0
    → device.millis m.rest + 2000 < 2 ^ 32
    → ExternalsEnd device (record { began = device.millis m.rest; readings = readings })
    → 2 * readings m.rest + 1 ≤ fuel
    → (safe_eval device fuel e m ≢ exhausted) × (safe_evalexpressions device fuel e m ≢ exhausted)
unfolding safe_eval safe_evalexpressions
safe_eval-ne-exhausted {W} device e m fuel readings clock pos fits externals enough = (
  reset-ne-exhausted device start (NullOrLater device start m₀) m₀
      ((evaluator device fuel).eval e m₀) (λ m'. record m' { time_started = 0 })
      (all.eval e m₀ refl within),
  reset-ne-exhausted device start _ m₀ (eval_expressions device (evaluator device fuel) e m₀)
      (λ m'. record m' { time_started = 0 })
      (eval_expressions-Ends device start clock pos fits fuel (evaluator device fuel) all e m₀ refl
        within),
)
  where
    start : Run W
    start = record { began = device.millis m.rest; readings = readings }

    m₀ : Machine W
    m₀ = record m { time_started = start.began }

    all : Terminates device start fuel (evaluator device fuel)
    all = evaluator-Terminates device start clock pos fits externals fuel

    within : 2 * left device start m₀ + 1 ≤ fuel
    within = ground arith
