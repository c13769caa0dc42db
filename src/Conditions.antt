-- ===== src/Conditions.antt =====
-- The conditions of src/lio_conditions.c: expressions that are run when a pin changes or an analogue
-- value passes a limit. `value` and `trigger_value` are bit fields of 1 and 2 bits, for which only the
-- values below are passed.
pub mod Laws
use phatio.Prelude.{
  ℕ, zero, suc, ◌+◌, Bool, true, false, not, ◌&&◌, ◌||◌, Option, none, some, List, [], ◌∷◌, ◌++◌,
  ltb, ◌==◌, if◌then◌else◌,
}
use phatio.Scheduler.{Scheduler, add_triggered_task}
use phatio.Pins.Ports.{Registers, get_iopin, get_in}
use phatio.Pins.Adc.{read_adc}

pub record DigitalCondition : Type 0 where
  pub pin : ℕ
  pub action : ℕ
  pub value : ℕ
  pub trigger_value : ℕ

pub record AdcCondition : Type 0 where
  pub pinid : ℕ
  pub trigger_value : ℕ
  pub limit : ℕ
  pub action : ℕ
  pub triggered_before : Bool
  pub above : Bool

pub record Conditions : Type 0 where
  pub adc_conditions : List AdcCondition
  pub digital_conditions : List DigitalCondition

abbrev pub toggle : ℕ
toggle = 2

-- on the value read from the pin
unfoldable pub check_digital_condition :
    ℕ → DigitalCondition → Scheduler → DigitalCondition × Scheduler
check_digital_condition new_val c s = if new_val == c.value then (c, s) else (
  record c { value = new_val },
  if c.trigger_value == toggle || new_val == c.trigger_value
      then add_triggered_task c.action s
      else s,
)

-- On the value of `read_adc`. An int16_t is compared with a uint16_t as unsigned, on its bit pattern.
unfoldable pub check_adc_condition : ℕ → AdcCondition → Scheduler → AdcCondition × Scheduler
check_adc_condition current_value c s =
    if (c.above && ltb c.trigger_value current_value)
      || (not c.above && ltb current_value c.trigger_value)
    then if c.triggered_before
      then (c, s)
      else (record c { triggered_before = true }, add_triggered_task c.action s)
    else if (c.above && ltb current_value c.limit) || (not c.above && ltb c.limit current_value)
    then (record c { triggered_before = false }, s)
    else (c, s)

unfoldable pub check_digital :
    Registers → List DigitalCondition → Scheduler → List DigitalCondition × Scheduler
unfolding check_digital_condition get_in
check_digital r [] s = ([], s)
check_digital r (c ∷ cs) s =
    let (c', s1) = check_digital_condition (get_in c.pin r) c s in
    let (cs', s2) = check_digital r cs s1 in (c' ∷ cs', s2)

module _ (sample : ℕ → ℕ) where
  -- with the interrupt flag that `read_adc` leaves
  unfoldable pub check_adc :
      List AdcCondition → Bool → Scheduler → List AdcCondition × Bool × Scheduler
  unfolding check_adc_condition read_adc
  check_adc [] interrupts s = ([], interrupts, s)
  check_adc (c ∷ cs) interrupts s =
      let (current_value, enabled) = read_adc sample c.pinid in
      let (c', s1) = check_adc_condition current_value c s in
      let (cs', enabled', s2) = check_adc cs enabled s1 in (c' ∷ cs', enabled', s2)

  unfoldable pub conditions_check :
      Registers → Conditions → Bool → Scheduler → Conditions × Bool × Scheduler
  unfolding check_digital check_adc
  conditions_check r cs interrupts s =
      let (digital, s1) = check_digital r cs.digital_conditions s in
      let (adc, interrupts', s2) = check_adc cs.adc_conditions interrupts s1 in
      (record { adc_conditions = adc; digital_conditions = digital }, interrupts', s2)

unfoldable pub conditions_clear : Conditions → Conditions
conditions_clear cs = record { adc_conditions = []; digital_conditions = [] }

-- `new_digital_condition` once `data_alloc` has given room: the pin's id is the value of the first
-- argument, and `action` what `store_expression` gives. `none` is a pin that is not in the table.
unfoldable pub new_digital_condition : ℕ → ℕ → ℕ → Registers → Conditions → Option Conditions
unfolding get_iopin get_in
new_digital_condition pinid trigger action r cs = elim (get_iopin pinid) [
  | none ↦ none
  | some pin ↦
      let condition : DigitalCondition = record {
        pin = pin;
        action = action;
        value = get_in pin r;
        trigger_value = trigger;
      } in
      some (record cs { digital_conditions = cs.digital_conditions ++ condition ∷ [] })
]

-- `new_adc_condition` likewise; `limit` is `none` where the fourth item is a list
unfoldable pub new_adc_condition : ℕ → ℕ → Option ℕ → ℕ → Bool → Conditions → Conditions
new_adc_condition pinid trigger_value limit action above cs =
    let condition : AdcCondition = record {
      pinid = pinid;
      trigger_value = trigger_value;
      limit = elim limit [ none ↦ trigger_value | some l ↦ l ];
      action = action;
      triggered_before = false;
      above = above;
    } in
    record cs { adc_conditions = cs.adc_conditions ++ condition ∷ [] }
