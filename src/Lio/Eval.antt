-- ===== src/Lio/Eval.antt =====
-- `eval` of src/lio.c and the table of handlers of src/lio_builtins.c, on fuel. Each call of `eval`,
-- `eval_as_uint16` or `eval_as_string` by another of these, and each round of a loop, takes one unit.
use phatio.Prelude.{ℕ, zero, suc, true, false}
use phatio.Lio.Syntax.{
  Builtin, Expr, Pointer, Content, M, Evaluator, function, variable, list, null, to, code,
  exhausted, value, pure, ◌>>=◌, bind,
}
use phatio.Lio.Values.{
  Device, first, continue_evaluating, eval_expressions, uint16_step, string_step,
}
use phatio.Lio.Variables.{content_of, defvar, setvar, getvar}
use phatio.Lio.Basics

module _ {W : Type 0} (device : Device W) (ev : Evaluator W) where
  -- `handler(expression)`
  unfoldable pub call : Builtin → Expr → M W Pointer
  unfolding defvar setvar getvar Basics.operate Basics.inverse Basics.if_handler Basics.and_handler
      Basics.or_handler Basics.not_handler Basics.increment_handler Basics.delay_ms_handler
      Basics.while_handler
  call Builtin.defvar = defvar device ev
  call Builtin.setvar = setvar device ev
  call Builtin.getvar = getvar device ev
  call Builtin.add = Basics.operate device ev Basics.add
  call Builtin.subtract = Basics.operate device ev Basics.subtract
  call Builtin.multiply = Basics.operate device ev Basics.multiply
  call Builtin.divide = Basics.operate device ev Basics.divide
  call Builtin.modulus = Basics.operate device ev Basics.modulus
  call Builtin.inverse = Basics.inverse device ev
  call Builtin.bitwise_or = Basics.operate device ev Basics.bitwise_or
  call Builtin.bitwise_and = Basics.operate device ev Basics.bitwise_and
  call Builtin.lshift = Basics.operate device ev Basics.lshift
  call Builtin.rshift = Basics.operate device ev Basics.rshift
  call Builtin.if_handler = Basics.if_handler device ev
  call Builtin.eq_handler = Basics.operate device ev Basics.eq_handler
  call Builtin.lt_handler = Basics.operate device ev Basics.lt_handler
  call Builtin.gt_handler = Basics.operate device ev Basics.gt_handler
  call Builtin.and_handler = Basics.and_handler device ev
  call Builtin.or_handler = Basics.or_handler device ev
  call Builtin.not_handler = Basics.not_handler device ev
  call Builtin.increment_handler = Basics.increment_handler device ev
  call Builtin.delay_ms_handler = Basics.delay_ms_handler device ev
  call Builtin.while_handler = Basics.while_handler device ev
  call (Builtin.other k) = device.external k ev

  -- the head of an expression that is a variable: only one that holds an expression is evaluated
  unfoldable pub eval_content : Content → M W Pointer
  unfolding eval_expressions
  eval_content (code e) = eval_expressions device ev e
  eval_content _ = pure null

  unfoldable pub eval_variable : ℕ → M W Pointer
  unfolding eval_content content_of
  eval_variable n = content_of device n >>= λ r. eval_content r.content

  unfoldable pub eval_head : Pointer → Expr → M W Pointer
  unfolding call eval_variable eval_expressions
  eval_head (to (list _)) e = eval_expressions device ev e
  eval_head (to (function b)) e = call b e
  eval_head (to (variable n)) e = eval_variable n
  eval_head _ e = pure null

  unfoldable pub eval_step : Expr → M W Pointer
  unfolding eval_head continue_evaluating
  eval_step e = do
    go ← continue_evaluating device
    elim go [ false ↦ pure null | true ↦ eval_head (first e) e ]

module _ {W : Type 0} (device : Device W) where
  unfoldable pub evaluator : ℕ → Evaluator W
  evaluator zero = record {
    eval = λ e m. exhausted;
    eval_as_uint16 = λ p m. exhausted;
    eval_as_string = λ p m. exhausted;
    while = λ test code_ ret m. exhausted;
  }
  evaluator (suc fuel) = record {
    eval = eval_step device (evaluator fuel);
    eval_as_uint16 = uint16_step device (evaluator fuel);
    eval_as_string = string_step device (evaluator fuel);
    while = Basics.while_step device (evaluator fuel);
  }

  -- `safe_eval`
  unfoldable pub safe_eval : ℕ → Expr → M W Pointer
  unfolding evaluator
  safe_eval fuel e m =
      bind ((evaluator fuel).eval e (record m { time_started = device.millis m.rest }))
        (λ p m'. value p (record m' { time_started = 0 }))

  -- `safe_evalexpressions`
  unfoldable pub safe_evalexpressions : ℕ → Expr → M W Pointer
  unfolding evaluator eval_expressions
  safe_evalexpressions fuel e m =
      bind
        (eval_expressions device (evaluator fuel) e
          (record m { time_started = device.millis m.rest }))
        (λ p m'. value p (record m' { time_started = 0 }))
