-- ===== src/Lio/Basics.antt =====
-- The built-ins of src/lio_basics.c. Numbers are uint16_t, for which C promotes nothing on the AVR. A
-- handler without a `return` gives a wild pointer.
use phatio.Prelude.{
  ℕ, zero, suc, ◌+◌, ◌-◌, ◌*◌, ◌/◌, ◌%◌, ◌^◌, Bool, Option, none, some, ◌∷◌, bit_and, bit_or, ltb,
  ◌==◌, if◌then◌else◌,
}
use phatio.Lio.Syntax.{
  Item, Expr, Pointer, Content, M, Evaluator, list, nil, cons, wild, null, to, words, value,
  undefined, pure, wrong, ◌>>=◌, ◌>>◌,
}
use phatio.Lio.Values.{
  Device, rest, second, third, fourth, as_list, uint16_retval, uint8_retval, eval_expressions,
  eval_as_uint8, get_variable_ref, lio_stop,
}
use phatio.Lio.Variables.{write, content_of}

-- the operators with two arguments, from their values; `none` is undefined in C
abbrev pub Operator : Type 0
Operator = ℕ → ℕ → Option Pointer

abbrev pub number : ℕ → Option Pointer
number v = some (to (Item.uint16 (v % 65536)))

abbrev pub truth : Bool → Option Pointer
truth b = some (to (Item.uint8 (if b then 1 else 0)))

abbrev pub add : Operator
add x y = number (x + y)

abbrev pub subtract : Operator
subtract x y = number (x + 65536 - y)

abbrev pub multiply : Operator
multiply x y = number (x * y)

abbrev pub divide : Operator
divide x y = if y == 0 then none else number (x / y)

abbrev pub modulus : Operator
modulus x y = if y == 0 then none else number (x % y)

abbrev pub bitwise_or : Operator
bitwise_or x y = number (bit_or x y)

abbrev pub bitwise_and : Operator
bitwise_and x y = number (bit_and x y)

abbrev pub lshift : Operator
lshift x y = if ltb y 16 then number (x * 2 ^ y) else none

abbrev pub rshift : Operator
rshift x y = if ltb y 16 then number (x / 2 ^ y) else none

abbrev pub eq_handler : Operator
eq_handler x y = truth (x == y)

abbrev pub lt_handler : Operator
lt_handler x y = truth (ltb x y)

abbrev pub gt_handler : Operator
gt_handler x y = truth (ltb y x)

abbrev pub give : {W : Type 0} → Option Pointer → M W Pointer
give none m = undefined
give (some p) m = value p m

-- `delay_ms`, the loop with `duration` left: the time is read, and then `wait` is `_delay_ms(1)`
unfoldable pub delay_ms : {W : Type 0} → (W → ℕ) → (W → W) → ℕ → ℕ → W → W
delay_ms millis wait zero end_ w = w
delay_ms millis wait (suc duration) end_ w =
    let later = delay_ms millis wait duration end_ (wait w) in
    if ltb (millis w) end_ then later else w

module _ {W : Type 0} (device : Device W) (ev : Evaluator W) where
  -- `parse_args`, and the value returned
  unfoldable pub operate : Operator → Expr → M W Pointer
  operate op e = do
    two ← ev.eval_as_uint16 (second e)
    three ← ev.eval_as_uint16 (third e)
    give (op two three)

  unfoldable pub inverse : Expr → M W Pointer
  inverse e = ev.eval_as_uint16 (second e) >>= λ v. uint16_retval (65535 - v)

  -- `item_type(item) == LIO_LIST ? eval(as_list(item)) : item`
  unfoldable pub eval_item : Pointer → M W Pointer
  eval_item (to (list l)) = ev.eval l
  eval_item p = pure p

  unfoldable pub if_handler : Expr → M W Pointer
  unfolding eval_item eval_as_uint8
  if_handler e = do
    v ← eval_as_uint8 ev (second e)
    eval_item (if v == 0 then fourth e else third e)

  -- the loops of `and_handler` and `or_handler` over the arguments
  unfoldable pub and_from : Expr → M W Pointer
  unfolding eval_as_uint8
  and_from nil = uint8_retval 1
  and_from (cons x e) = do
    v ← eval_as_uint8 ev (to x)
    elim v [ zero ↦ uint8_retval 0 | suc _ ↦ and_from e ]

  unfoldable pub or_from : Expr → M W Pointer
  unfolding eval_as_uint8
  or_from nil = uint8_retval 0
  or_from (cons x e) = do
    v ← eval_as_uint8 ev (to x)
    elim v [ zero ↦ or_from e | suc _ ↦ uint8_retval 1 ]

  unfoldable pub and_handler : Expr → M W Pointer
  unfolding and_from
  and_handler e = and_from (rest e)

  unfoldable pub or_handler : Expr → M W Pointer
  unfolding or_from
  or_handler e = or_from (rest e)

  unfoldable pub not_handler : Expr → M W Pointer
  unfolding eval_as_uint8
  not_handler e = eval_as_uint8 ev (second e) >>= λ v. uint8_retval (if v == 0 then 1 else 0)

  -- `*((uint16_t *)ref->data) += value`
  unfoldable pub add_to : ℕ → ℕ → Content → M W Pointer
  unfolding write
  add_to n v (words (some w ∷ ws)) =
      write device n (words (some ((w + v) % 65536) ∷ ws)) >> uint16_retval ((w + v) % 65536)
  add_to n v _ = wrong

  unfoldable pub increment : Pointer → Option ℕ → M W Pointer
  unfolding lio_stop add_to content_of
  increment three none = lio_stop device >> pure null
  increment three (some n) = do
    v ← ev.eval_as_uint16 three
    r ← content_of device n
    add_to n v r.content

  unfoldable pub increment_handler : Expr → M W Pointer
  unfolding get_variable_ref increment
  increment_handler e = get_variable_ref ev (second e) >>= increment (third e)

  unfoldable pub delay_ms_handler : Expr → M W Pointer
  unfolding delay_ms
  delay_ms_handler e = do
    v ← ev.eval_as_uint16 (second e)
    λ m.
        let end_ = (device.millis m.rest + v) % 2 ^ 32 in
        value wild (record m { rest = delay_ms device.millis device.wait v end_ m.rest })

  -- one round of the loop of `while_handler`
  unfoldable pub while_step : Expr → Expr → Pointer → M W Pointer
  unfolding eval_as_uint8 eval_expressions
  while_step test code_ ret = do
    p ← ev.eval test
    v ← eval_as_uint8 ev p
    elim v [ zero ↦ pure ret | suc _ ↦ eval_expressions device ev code_ >>= ev.while test code_ ]

  -- `if (is_list(test) && code)`
  unfoldable pub run_while : Option Expr → Expr → M W Pointer
  run_while none body = pure null
  run_while (some test) nil = pure null
  run_while (some test) (cons x l) = ev.while test (cons x l) null

  unfoldable pub while_handler : Expr → M W Pointer
  unfolding run_while
  while_handler e = run_while (as_list (second e)) (rest (rest e))
