-- ===== src/Lio/Arithmetic.antt =====
-- What a nested arithmetic expression of a script comes to, on src/lio.c and src/lio_basics.c.
use phatio.Prelude.{
  ℕ, zero, suc, ◌+◌, ◌-◌, ◌*◌, ◌/◌, ◌%◌, ◌^◌, ◌≤◌, ◌<◌, ◌≡◌, ◌≢◌, refl, ap, ◌∙◌, true, false,
  Option, none, some, bit_and, bit_or, ltb, ◌==◌, if◌then◌else◌, arith,
}
use phatio.Lio.Syntax.{
  Builtin, Item, Machine, Outcome, Evaluator, list, function, uint16, nil, cons, to, value,
  undefined, bind,
}
use phatio.Lio.Values.{Device, continue_evaluating, uint16_step}
use phatio.Lio.Basics.{operate, give}
use phatio.Lio.Basics
use phatio.Lio.Eval.{call, eval_head, eval_step, evaluator}

pub data Operation : Type 0 where
  plus minus times over remainder or_bits and_bits left right equal less greater : Operation

pub data Sum : Type 0 where
  constant : ℕ → Sum
  operation : Operation → Sum → Sum → Sum

-- the results on 16 bits; none for a division by 0, and for a shift by 16 bits or more
abbrev pub apply : Operation → ℕ → ℕ → Option ℕ
apply Operation.plus x y = some ((x + y) % 65536)
apply Operation.minus x y = some ((x + 65536 - y) % 65536)
apply Operation.times x y = some ((x * y) % 65536)
apply Operation.over x zero = none
apply Operation.over x (suc y) = some ((x / suc y) % 65536)
apply Operation.remainder x zero = none
apply Operation.remainder x (suc y) = some ((x % suc y) % 65536)
apply Operation.or_bits x y = some (bit_or x y % 65536)
apply Operation.and_bits x y = some (bit_and x y % 65536)
apply Operation.left x y = if ltb y 16 then some ((x * 2 ^ y) % 65536) else none
apply Operation.right x y = if ltb y 16 then some ((x / 2 ^ y) % 65536) else none
apply Operation.equal x y = some (if x == y then 1 else 0)
apply Operation.less x y = some (if ltb x y then 1 else 0)
apply Operation.greater x y = some (if ltb y x then 1 else 0)

abbrev both : Option ℕ → Option ℕ → (ℕ → ℕ → Option ℕ) → Option ℕ
both (some x) (some y) f = f x y
both none y f = none
both (some x) none f = none

abbrev pub meaning : Sum → Option ℕ
meaning (constant v) = some v
meaning (operation o a b) = both (meaning a) (meaning b) (apply o)

abbrev pub builtin : Operation → Builtin
builtin Operation.plus = Builtin.add
builtin Operation.minus = Builtin.subtract
builtin Operation.times = Builtin.multiply
builtin Operation.over = Builtin.divide
builtin Operation.remainder = Builtin.modulus
builtin Operation.or_bits = Builtin.bitwise_or
builtin Operation.and_bits = Builtin.bitwise_and
builtin Operation.left = Builtin.lshift
builtin Operation.right = Builtin.rshift
builtin Operation.equal = Builtin.eq_handler
builtin Operation.less = Builtin.lt_handler
builtin Operation.greater = Builtin.gt_handler

-- the item that the reader makes of it, `(+ a b)` and the like
abbrev pub written : Sum → Item
written (constant v) = uint16 v
written (operation o a b) =
    list (cons (function (builtin o)) (cons (written a) (cons (written b) nil)))

-- the function that the built-in calls for it
abbrev pub operator : Operation → Basics.Operator
operator Operation.plus = Basics.add
operator Operation.minus = Basics.subtract
operator Operation.times = Basics.multiply
operator Operation.over = Basics.divide
operator Operation.remainder = Basics.modulus
operator Operation.or_bits = Basics.bitwise_or
operator Operation.and_bits = Basics.bitwise_and
operator Operation.left = Basics.lshift
operator Operation.right = Basics.rshift
operator Operation.equal = Basics.eq_handler
operator Operation.less = Basics.lt_handler
operator Operation.greater = Basics.gt_handler

abbrev pub depth : Sum → ℕ
depth (constant v) = 0
depth (operation o a b) = suc (if ltb (depth a) (depth b) then depth b else depth a)

-- how many lists are evaluated
abbrev pub size : Sum → ℕ
size (constant v) = 0
size (operation o a b) = suc (size a + size b)

module _ {W : Type 0} (device : Device W) where
  abbrev pub ticks : ℕ → W → W
  ticks zero w = w
  ticks (suc k) w = ticks k (device.tick w)

  ticks_add : (j k : ℕ) (w : W) → ticks k (ticks j w) ≡ ticks (j + k) w
  ticks_add zero k w = let e : k ≡ 0 + k = omega arith in ap (λ n. ticks n w) e
  ticks_add (suc j) k w =
      let e : suc (j + k) ≡ suc j + k = omega arith in
      ticks_add j k (device.tick w) ∙ ap (λ n. ticks n w) e

  -- `m` after `k` tests of the clock
  abbrev pub after : ℕ → Machine W → Machine W
  after k m = record m { rest = ticks k m.rest }

  -- The script runs, with a time limit that it does not reach in `n` tests of the clock.
  pub record IsRunning (n : ℕ) (m : Machine W) : Type 0 where
    pub started : m.time_started ≢ 0
    pub going : m.heap.lio_stopped ≡ false
    pub fits : m.time_started + 2000 < 2 ^ 32
    pub within : (k : ℕ) → k < n → device.millis (ticks k m.rest) ≤ m.time_started + 2000

  after-IsRunning : (j n : ℕ) (m : Machine W) → IsRunning (j + n) m → IsRunning n (after j m)
  after-IsRunning j n m r = record {
    started = r.started;
    going = r.going;
    fits = r.fits;
    within = λ k h. rw (ticks_add j k m.rest) (r.within (j + k) (omega arith));
  }

  fewer-IsRunning : (j n : ℕ) (m : Machine W) → IsRunning n m → j ≤ n → IsRunning j m
  fewer-IsRunning j n m r h = record {
    started = r.started;
    going = r.going;
    fits = r.fits;
    within = λ k l. r.within k (omega arith);
  }

  continue_evaluating-IsRunning :
      (m : Machine W) → IsRunning 1 m → continue_evaluating device m ≡ value true (after 1 m)
  unfolding continue_evaluating
  continue_evaluating-IsRunning m r = ground (arith, r.within 0 (omega arith))

  -- the outcome for a number, or for none
  abbrev pub gives : Option ℕ → Machine W → Outcome W ℕ
  gives none m = undefined
  gives (some v) m = value v m

  after_add : (j k : ℕ) (m : Machine W) → after k (after j m) ≡ after (j + k) m
  after_add j k m = ap (λ w. record m { rest = w }) (ticks_add j k m.rest)

  call-builtin :
      (ev : Evaluator W) (o : Operation)
      → call device ev (builtin o) ≡ operate device ev (operator o)
  unfolding call
  call-builtin ev Operation.plus = refl
  call-builtin ev Operation.minus = refl
  call-builtin ev Operation.times = refl
  call-builtin ev Operation.over = refl
  call-builtin ev Operation.remainder = refl
  call-builtin ev Operation.or_bits = refl
  call-builtin ev Operation.and_bits = refl
  call-builtin ev Operation.left = refl
  call-builtin ev Operation.right = refl
  call-builtin ev Operation.equal = refl
  call-builtin ev Operation.less = refl
  call-builtin ev Operation.greater = refl

  -- the value that an operator returns, as a number
  bind-give :
      (ev : Evaluator W) (o : Operation) (x y : ℕ) (m : Machine W)
      → bind (give (operator o x y) m) (uint16_step device ev) ≡ gives (apply o x y) m
  unfolding uint16_step
  bind-give ev Operation.plus x y m = refl
  bind-give ev Operation.minus x y m = refl
  bind-give ev Operation.times x y m = refl
  bind-give ev Operation.over x zero m = refl
  bind-give ev Operation.over x (suc y) m = ground arith
  bind-give ev Operation.remainder x zero m = refl
  bind-give ev Operation.remainder x (suc y) m = ground arith
  bind-give ev Operation.or_bits x y m = refl
  bind-give ev Operation.and_bits x y m = refl
  bind-give ev Operation.left x y m = ground arith
  bind-give ev Operation.right x y m = ground arith
  bind-give ev Operation.equal x y m = refl
  bind-give ev Operation.less x y m = refl
  bind-give ev Operation.greater x y m = refl

  operate-gives :
      (ev : Evaluator W) (o : Operation) (i j k : Item) (u v : Option ℕ) (m m₁ m₂ : Machine W)
      → ev.eval_as_uint16 (to j) m ≡ gives u m₁
      → ev.eval_as_uint16 (to k) m₁ ≡ gives v m₂
      → bind
          (operate device ev (operator o) (cons i (cons j (cons k nil))) m)
          (uint16_step device ev)
        ≡ gives (both u v (apply o)) m₂
  unfolding operate
  operate-gives ev o i j k none v m m₁ m₂ p q = rw p refl
  operate-gives ev o i j k (some x) none m m₁ m₂ p q = rw p (rw q refl)
  operate-gives ev o i j k (some x) (some y) m m₁ m₂ p q = rw p (rw q (bind-give ev o x y m₂))

  -- With fuel for its depth, and time for its lists, evaluating a nested arithmetic expression gives its
  -- value on 16 bits, and is undefined exactly if a division by 0 or a shift by 16 or more is in it;
  -- besides, only the clock goes on.
  pub eval_as_uint16-meaning :
      (a : Sum) (f : ℕ) (m : Machine W)
      → IsRunning (size a) m
      → 2 * depth a < f
      → (evaluator device f).eval_as_uint16 (to (written a)) m
        ≡ gives (meaning a) (after (size a) m)
  unfolding evaluator uint16_step eval_step eval_head
  eval_as_uint16-meaning (constant v) (suc f) m r h = refl
  eval_as_uint16-meaning (operation o a b) (suc zero) m r h = absurd (omega arith)
  eval_as_uint16-meaning (operation o a b) (suc (suc f)) m r h =
      let n = size a + size b in
      let m₁ = after 1 m in
      let r₁ = after-IsRunning 1 n m (fewer-IsRunning (1 + n) (suc n) m r (omega arith)) in
      let r₂ = after-IsRunning (size a) (size b) m₁ r₁ in
      let p =
        eval_as_uint16-meaning a f m₁ (fewer-IsRunning (size a) n m₁ r₁ (omega arith))
          (ground arith) in
      let q = eval_as_uint16-meaning b f (after (size a) m₁) r₂ (ground arith) in
      let i = function (builtin o) in
      let ev = evaluator device f in
      let g = operate-gives ev o i (written a) (written b) (meaning a) (meaning b) m₁ _ _ p q in
      let e = after_add (size a) (size b) m₁ in
      rw (continue_evaluating-IsRunning m (fewer-IsRunning 1 (suc n) m r (omega arith)))
        (rw (call-builtin ev o) (g ∙ ap (gives (meaning (operation o a b))) e))
  eval_as_uint16-meaning a zero m r h = absurd (omega arith)
