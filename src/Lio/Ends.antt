-- ===== src/Lio/Ends.antt =====
-- What it means that a run of src/lio.c under a time limit ends, and that it comes nearer to the limit.
pub mod Steps
pub mod Rules
pub mod Operators
pub mod References
pub mod Limit
use phatio.Prelude.{
  ℕ, zero, suc, ◌+◌, ◌-◌, ◌*◌, ◌%◌, ◌^◌, ◌≤◌, ◌<◌, ◌≡◌, ◌≢◌, ◌⊎◌, inl, inr, refl, Bool, true, false,
  not, Option, none, some, ltb, leb, ◌==◌, if◌then◌else◌, Bool-cases, arith,
}
use phatio.Heap.{Heap}
use phatio.Lio.Syntax.{
  Item, Expr, Pointer, Machine, Outcome, M, Evaluator, list, variable, nil, cons, wild, null, to,
  value, undefined, exhausted, pure, wrong, ◌>>=◌, bind,
}
use phatio.Lio.Values.{Device, or_wrong, lio_stop, continue_evaluating}

-- A run under the time limit: the millisecond in which it began, and how many more times at most, from a
-- state of the device on, the clock can be read until it shows more than 2000 milliseconds after that.
pub record Run (W : Type 0) : Type 0 where
  pub began : ℕ
  pub readings : W → ℕ

-- The clock gets there: a reading before the limit uses up one of those, and nothing turns the clock back.
-- The timer interrupt counts the milliseconds, so that this holds only while interrupts are enabled.
pub record Advances {W : Type 0} (device : Device W) (start : Run W) : Type 0 where
  pub tick :
      (w : W)
      → device.millis w ≤ start.began + 2000
      → start.readings (device.tick w) < start.readings w
  pub later : (w : W) → start.readings (device.tick w) ≤ start.readings w
  pub wait : (w : W) → start.readings (device.wait w) ≤ start.readings w
  pub stop : (w : W) → start.readings (device.stop w) ≤ start.readings w
  pub store : (e : Expr) (w : W) → start.readings (device.store e w).1 ≤ start.readings w

module _ {W : Type 0} (device : Device W) (start : Run W) where
  -- the readings of the clock that are left before one ends the run
  abbrev pub left : Machine W → ℕ
  left m = if m.heap.lio_stopped then 0 else start.readings m.rest

  -- The run of `c` from `m` ends: it may be undefined, but does not use up its fuel.
  abbrev pub Ends : {A : Type 0} → Machine W → (A → Machine W → Type 0) → Outcome W A → Type 0
  Ends m P (value a m') = (m'.time_started ≡ start.began) × (left m' ≤ left m) × P a m'
  Ends m P undefined = Unit
  Ends m P exhausted = ⊥

  abbrev pub Any : {A : Type 0} → A → Machine W → Type 0
  Any a m = Unit

  -- null, or nearer to the limit than `m`
  abbrev pub NullOrLater : Machine W → Pointer → Machine W → Type 0
  NullOrLater m p m' = (p ≡ null) ⊎ (left m' < left m)

  pub Ends-later :
      {A : Type 0} (P : A → Machine W → Type 0) (m m' : Machine W) (o : Outcome W A)
      → left m' ≤ left m
      → Ends m' P o
      → Ends m P o
  Ends-later P m m' (value a m₁) h (t, l, p) = (t, omega (arith, l, h), p)
  Ends-later P m m' undefined h e = tt
  Ends-later P m m' exhausted h e = e

  pub Ends-any :
      {A : Type 0} (P : A → Machine W → Type 0) (m : Machine W) (o : Outcome W A)
      → Ends m P o
      → Ends m Any o
  Ends-any P m (value a m₁) (t, l, p) = (t, l, tt)
  Ends-any P m undefined e = tt
  Ends-any P m exhausted e = e

  pub bind-Ends :
      {A B : Type 0} (P : A → Machine W → Type 0) (Q : B → Machine W → Type 0) (m : Machine W)
      (o : Outcome W A) (f : A → M W B)
      → Ends m P o
      → ((a : A) (m' : Machine W)
          → m'.time_started ≡ start.began
          → left m' ≤ left m
          → P a m'
          → Ends m Q (f a m'))
      → Ends m Q (bind o f)
  bind-Ends P Q m (value a m₁) f (t, l, p) k = k a m₁ t l p
  bind-Ends P Q m undefined f e k = tt
  bind-Ends P Q m exhausted f e k = e

  -- A computation that ends wherever the fuel `n` is twice the readings that are left, and 2 more.
  pub record IsFine (n : ℕ) {A : Type 0} (c : M W A) : Type 0 where
    pub ends :
        (m : Machine W) → m.time_started ≡ start.began → 2 * left m + 2 ≤ n → Ends m Any (c m)

  pub >>=-IsFine :
      {n : ℕ} {A B : Type 0} {c : M W A} {f : A → M W B}
      → IsFine n c
      → ((a : A) → IsFine n (f a))
      → IsFine n (c >>= f)
  >>=-IsFine {n} {A} {B} {c} {f} h k = record {
    ends = λ m t fuel.
        bind-Ends Any Any m (c m) f (h.ends m t fuel) (λ a m' t' l _.
          Ends-later Any m m' (f a m') l ((k a).ends m' t' (omega (arith, fuel, l))));
  }

  pub pure-IsFine : {n : ℕ} {A : Type 0} (a : A) → IsFine n (pure a)
  pure-IsFine a = record { ends = λ m t fuel. (t, omega arith, tt) }

  pub wrong-IsFine : {n : ℕ} {A : Type 0} → IsFine n (wrong {A = A})
  wrong-IsFine = record { ends = λ m t fuel. tt }

  pub or_wrong-IsFine : {n : ℕ} {A : Type 0} (o : Option A) → IsFine n (or_wrong o)
  or_wrong-IsFine none = record { ends = λ m t fuel. tt }
  or_wrong-IsFine (some a) = record { ends = λ m t fuel. (t, omega arith, tt) }

  limit_cases : (a b : ℕ) → (a ≤ b) ⊎ (b < a)
  limit_cases a b = ground arith

  module _ (clock : Advances device start) where
    pub lio_stop-Ends :
        (m : Machine W) → m.time_started ≡ start.began → Ends m Any (lio_stop device m)
    unfolding lio_stop
    lio_stop-Ends m t = (t, omega arith, tt)

    pub lio_stop-IsFine : {n : ℕ} → IsFine n (lio_stop device)
    lio_stop-IsFine = record { ends = λ m t fuel. lio_stop-Ends m t }

    -- Each reading that lets the run go on is nearer to the limit.
    pub continue_evaluating-Ends :
        (m : Machine W)
        → start.began ≢ 0
        → start.began + 2000 < 2 ^ 32
        → m.time_started ≡ start.began
        → Ends m (λ go m'. (go ≡ false) ⊎ (left m' < left m)) (continue_evaluating device m)
    unfolding continue_evaluating lio_stop
    continue_evaluating-Ends m pos fits t =
        elim (limit_cases (device.millis m.rest) (start.began + 2000)) [
          | inl h ↦ ground (arith, clock.tick m.rest h, clock.stop (device.tick m.rest))
          | inr h ↦ ground (arith, clock.later m.rest, clock.stop (device.tick m.rest))
        ]
