-- ===== src/Lio/Ends/Operators.antt =====
-- Every built-in of src/lio_basics.c ends, if what it calls does.
use phatio.Prelude.{
  ℕ, zero, suc, ◌+◌, ◌-◌, ◌%◌, ◌^◌, ◌≤◌, Option, none, some, [], ◌∷◌, ◌==◌, if◌then◌else◌, arith,
}
use phatio.Lio.Syntax.{
  Expr, Pointer, Content, M, Evaluator, list, atom, string, function, variable, uint8, uint16, nil,
  cons, wild, null, to, code, chars, words,
}
use phatio.Lio.Values.{Device, rest, second, third, fourth, as_list}
use phatio.Lio.Basics
use phatio.Lio.Ends.{Run, IsFine, wrong-IsFine}
use phatio.Lio.Ends.Rules.{Rules, ◌and_then◌, done, wrote, content, byte, named, stopped}

module _ {W : Type 0} {device : Device W} {start : Run W} {n : ℕ} {ev : Evaluator W}
    (r : Rules device start n ev) where
  abbrev Fine : M W Pointer → Type 0
  Fine c = IsFine device start n c

  gives : (o : Option Pointer) → Fine (Basics.give o)
  gives none = record { ends = λ m s fuel. tt }
  gives (some p) = record { ends = λ m s fuel. (s, omega arith, tt) }

  pub operate-IsFine : (op : Basics.Operator) (e : Expr) → Fine (Basics.operate device ev op e)
  unfolding Basics.operate
  operate-IsFine op e =
      r.number (second e) and_then λ two. r.number (third e) and_then λ three. gives (op two three)

  pub inverse-IsFine : (e : Expr) → Fine (Basics.inverse device ev e)
  unfolding Basics.inverse
  inverse-IsFine e = r.number (second e) and_then λ v. done (to (uint16 (65535 - v)))

  eval_item-IsFine : (p : Pointer) → Fine (Basics.eval_item device ev p)
  unfolding Basics.eval_item
  eval_item-IsFine (to (list l)) = r.evaluated l
  eval_item-IsFine (to (atom s)) = done _
  eval_item-IsFine (to (string s)) = done _
  eval_item-IsFine (to (function b)) = done _
  eval_item-IsFine (to (variable k)) = done _
  eval_item-IsFine (to (uint8 v)) = done _
  eval_item-IsFine (to (uint16 v)) = done _
  eval_item-IsFine wild = done _
  eval_item-IsFine null = done _

  pub if_handler-IsFine : (e : Expr) → Fine (Basics.if_handler device ev e)
  unfolding Basics.if_handler
  if_handler-IsFine e =
      byte r (second e) and_then λ v. eval_item-IsFine (if v == 0 then fourth e else third e)

  and_from-IsFine : (e : Expr) → Fine (Basics.and_from device ev e)
  unfolding Basics.and_from
  and_from-IsFine nil = done _
  and_from-IsFine (cons x e) =
      byte r (to x) and_then elim [ zero ↦ done _ | suc _ ↦ and_from-IsFine e ]

  or_from-IsFine : (e : Expr) → Fine (Basics.or_from device ev e)
  unfolding Basics.or_from
  or_from-IsFine nil = done _
  or_from-IsFine (cons x e) =
      byte r (to x) and_then elim [ zero ↦ or_from-IsFine e | suc _ ↦ done _ ]

  pub and_handler-IsFine : (e : Expr) → Fine (Basics.and_handler device ev e)
  unfolding Basics.and_handler
  and_handler-IsFine e = and_from-IsFine (rest e)

  pub or_handler-IsFine : (e : Expr) → Fine (Basics.or_handler device ev e)
  unfolding Basics.or_handler
  or_handler-IsFine e = or_from-IsFine (rest e)

  pub not_handler-IsFine : (e : Expr) → Fine (Basics.not_handler device ev e)
  unfolding Basics.not_handler
  not_handler-IsFine e = byte r (second e) and_then λ v. done _

  run_while-IsFine : (o : Option Expr) (body : Expr) → Fine (Basics.run_while device ev o body)
  unfolding Basics.run_while
  run_while-IsFine none body = done _
  run_while-IsFine (some test) nil = done _
  run_while-IsFine (some test) (cons x l) = r.looped test (cons x l) null

  pub while_handler-IsFine : (e : Expr) → Fine (Basics.while_handler device ev e)
  unfolding Basics.while_handler
  while_handler-IsFine e = run_while-IsFine (as_list (second e)) (rest (rest e))

  add_to-IsFine : (k v : ℕ) (c : Content) → Fine (Basics.add_to device ev k v c)
  unfolding Basics.add_to
  add_to-IsFine k v (words (some w ∷ ws)) =
      wrote k (words (some ((w + v) % 65536) ∷ ws)) and_then λ _.
      done (to (uint16 ((w + v) % 65536)))
  add_to-IsFine k v (words (none ∷ ws)) = wrong-IsFine device start
  add_to-IsFine k v (words []) = wrong-IsFine device start
  add_to-IsFine k v (code _) = wrong-IsFine device start
  add_to-IsFine k v (chars _) = wrong-IsFine device start

  increment-IsFine : (p : Pointer) (ref : Option ℕ) → Fine (Basics.increment device ev p ref)
  unfolding Basics.increment
  increment-IsFine p none = stopped r and_then λ _. done null
  increment-IsFine p (some k) =
      r.number p and_then λ v. content k and_then λ found. add_to-IsFine k v found.content

  pub increment_handler-IsFine : (e : Expr) → Fine (Basics.increment_handler device ev e)
  unfolding Basics.increment_handler
  increment_handler-IsFine e = named r (second e) and_then increment-IsFine (third e)

  delay_ms-le :
      (duration end_ : ℕ) (w : W)
      → start.readings (Basics.delay_ms device.millis device.wait duration end_ w)
        ≤ start.readings w
  unfolding Basics.delay_ms
  delay_ms-le zero end_ w = omega arith
  delay_ms-le (suc duration) end_ w =
      ground (arith, delay_ms-le duration end_ (device.wait w), r.clock.wait w)

  pub delay_ms_handler-IsFine : (e : Expr) → Fine (Basics.delay_ms_handler device ev e)
  unfolding Basics.delay_ms_handler
  delay_ms_handler-IsFine e = r.number (second e) and_then λ v. record {
    ends = λ m s fuel.
        (s, ground (arith, delay_ms-le v ((device.millis m.rest + v) % 2 ^ 32) m.rest), tt);
  }
