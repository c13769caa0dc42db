-- ===== src/Conditions/Laws.antt =====
-- src/lio_conditions.c over a course of readings.
use phatio.Prelude.{
  ℕ, zero, suc, ◌+◌, ◌≡◌, inl, inr, refl, sym, ap, ◌∙◌, Bool, true, false, not, ◌&&◌, ◌||◌, List,
  [], ◌∷◌, ◌++◌, ltb, leb, ◌==◌, if◌then◌else◌, Bool-cases, arith,
}
use phatio.Scheduler.{Scheduler, add_triggered_task}
use phatio.Conditions.{DigitalCondition, AdcCondition, check_digital_condition, check_adc_condition}

-- the checks for the readings of a list, one after the other
abbrev pub run_digital : List ℕ → DigitalCondition → Scheduler → DigitalCondition × Scheduler
run_digital [] c s = (c, s)
run_digital (v ∷ vs) c s =
    run_digital vs (check_digital_condition v c s).0 (check_digital_condition v c s).1

abbrev pub run_adc : List ℕ → AdcCondition → Scheduler → AdcCondition × Scheduler
run_adc [] c s = (c, s)
run_adc (v ∷ vs) c s = run_adc vs (check_adc_condition v c s).0 (check_adc_condition v c s).1

-- whether the reading `v` is not back beyond the limit, on the side where the condition was triggered
abbrev pub holds : AdcCondition → ℕ → Bool
holds c v = if c.above then leb c.limit v else leb v c.limit

abbrev pub all_hold : AdcCondition → List ℕ → Bool
all_hold c [] = true
all_hold c (v ∷ vs) = holds c v && all_hold c vs

-- whether the reading `v` is past the value that triggers
abbrev pub past : AdcCondition → ℕ → Bool
past c v = if c.above then ltb c.trigger_value v else ltb v c.trigger_value

-- the limit is no further out than the trigger
abbrev pub limit_inside : AdcCondition → Bool
limit_inside c = if c.above then leb c.limit c.trigger_value else leb c.trigger_value c.limit

adc_step :
    (v : ℕ) (c : AdcCondition) (s : Scheduler)
    → c.triggered_before ≡ true
    → holds c v ≡ true
    → check_adc_condition v c s ≡ (c, s)
unfolding check_adc_condition
adc_step v c s t h = ground arith

adc_held :
    (vs ws : List ℕ) (c : AdcCondition) (s : Scheduler)
    → c.triggered_before ≡ true
    → all_hold c vs ≡ true
    → run_adc (vs ++ ws) c s ≡ run_adc ws c s
adc_held [] ws c s t h = refl
adc_held (v ∷ vs) ws c s t h =
    let here : holds c v ≡ true = ground arith in
    let later : all_hold c vs ≡ true = ground arith in
    ap (λ (p : AdcCondition × Scheduler). run_adc (vs ++ ws) p.0 p.1) (adc_step v c s t here)
    ∙ adc_held vs ws c s t later

adc_leaves :
    (r : ℕ) (c : AdcCondition) (s : Scheduler)
    → c.triggered_before ≡ true
    → limit_inside c ≡ true
    → holds c r ≡ false
    → check_adc_condition r c s ≡ (record c { triggered_before = false }, s)
unfolding check_adc_condition
adc_leaves r c s t i h = ground arith

adc_enters :
    (v : ℕ) (c : AdcCondition) (s : Scheduler)
    → past c v ≡ true
    → check_adc_condition v (record c { triggered_before = false }) s
      ≡ (record c { triggered_before = true }, add_triggered_task c.action s)
unfolding check_adc_condition
adc_enters v c s h = ground arith

-- A condition that has triggered, and whose limit is not past its trigger, does not trigger again as long as
-- the readings do not go back beyond the limit, however often they pass the trigger. Once one does, the
-- next reading past the trigger triggers it again, once.
pub adc_hysteresis :
    (vs : List ℕ) (r v : ℕ) (c : AdcCondition) (s : Scheduler)
    → c.triggered_before ≡ true
    → limit_inside c ≡ true
    → all_hold c vs ≡ true
    → holds c r ≡ false
    → past c v ≡ true
    → (run_adc vs c s ≡ (c, s))
      × (run_adc (vs ++ r ∷ v ∷ []) c s ≡ (c, add_triggered_task c.action s))
adc_hysteresis vs r v c s t i hold back beyond = (
  quiet vs hold,
  adc_held vs (r ∷ v ∷ []) c s t hold
      ∙ rw (adc_leaves r c s t i back, adc_enters v c s beyond)
          (ap (λ b. (record c { triggered_before = b }, add_triggered_task c.action s)) (sym t)),
)
  where
    quiet : (us : List ℕ) → all_hold c us ≡ true → run_adc us c s ≡ (c, s)
    quiet [] h = refl
    quiet (u ∷ us) h =
        let here : holds c u ≡ true = ground arith in
        let later : all_hold c us ≡ true = ground arith in
        rw (adc_step u c s t here) (quiet us later)

-- how often the readings change to a value that the condition is for
abbrev pub edges : ℕ → ℕ → List ℕ → ℕ
edges trigger before [] = 0
edges trigger before (v ∷ vs) =
    (if not (v == before) && (trigger == 2 || v == trigger) then 1 else 0) + edges trigger v vs

abbrev pub add_times : ℕ → ℕ → Scheduler → Scheduler
add_times zero action s = s
add_times (suc n) action s = add_times n action (add_triggered_task action s)

abbrev fires : ℕ → DigitalCondition → Bool
fires v c = not (v == c.value) && (c.trigger_value == 2 || v == c.trigger_value)

digital_step :
    (v : ℕ) (c : DigitalCondition) (s : Scheduler)
    → check_digital_condition v c s
      ≡ (record c { value = v }, if fires v c then add_triggered_task c.action s else s)
unfolding check_digital_condition
digital_step v c s = elim (Bool-cases (v == c.value)) [
  | inl same ↦
      let e : v ≡ c.value = ground arith in rw same (ap (λ n. (record c { value = n }, s)) (sym e))
  | inr other ↦ rw other refl
]

add_times_first :
    (b : Bool) (n action : ℕ) (s : Scheduler)
    → add_times n action (if b then add_triggered_task action s else s)
      ≡ add_times ((if b then 1 else 0) + n) action s
add_times_first true n action s =
    let e : suc n ≡ 1 + n = omega arith in ap (λ m. add_times m action s) e
add_times_first false n action s =
    let e : n ≡ 0 + n = omega arith in ap (λ m. add_times m action s) e

-- Over a course of readings a digital condition adds its expression once for each change to a value
-- that it is for.
pub check_digital_condition-edges :
    (vs : List ℕ) (c : DigitalCondition) (s : Scheduler)
    → (run_digital vs c s).1 ≡ add_times (edges c.trigger_value c.value vs) c.action s
check_digital_condition-edges [] c s = refl
check_digital_condition-edges (v ∷ vs) c s =
    ap (λ (p : DigitalCondition × Scheduler). (run_digital vs p.0 p.1).1) (digital_step v c s)
    ∙ check_digital_condition-edges vs (record c { value = v })
        (if fires v c then add_triggered_task c.action s else s)
    ∙ add_times_first (fires v c) (edges c.trigger_value v vs) c.action s
