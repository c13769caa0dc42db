-- ===== src/Scheduler.antt =====
-- The scheduler of src/scheduler.c: the table of periodic tasks, the triggered tasks, and the timer
-- interrupt. A handler is a pointer, 0 for none; one from `start_flash` on is a lio expression in
-- flash, any other a C function. `none` is behaviour that C leaves undefined: a write outside
-- `tasks`, or `%` by 0.
pub mod Triggered
pub mod Interrupt
pub mod Tasks
use phatio.Prelude.{
  ℕ, zero, suc, ◌+◌, ◌-◌, ◌%◌, ◌^◌, Bool, true, false, not, ◌&&◌, Option, none, some, List, [], ◌∷◌,
  map, get_or, set, length, ltb, leb, ◌==◌, if◌then◌else◌,
}

-- `schedule`
pub record Task : Type 0 where
  pub every_ms : ℕ
  pub handler : ℕ

pub record Scheduler : Type 0 where
  pub time_since_start : ℕ
  pub on_millisecond : Bool
  pub ocr0a : ℕ
  pub tasks : List Task
  pub triggered_tasks : List ℕ

abbrev pub millisecond : ℕ
millisecond = 250

abbrev pub start_flash : ℕ
start_flash = 0x6800

abbrev pub is_in_flash : ℕ → Bool
is_in_flash ptr = leb start_flash ptr

-- the loop of `scheduler_add` from slot `i` on: the number returned, and the slots
unfoldable pub add_from : ℕ → ℕ → ℕ → List Task → ℕ × List Task
add_from every handler i [] = (0, [])
add_from every handler i (t ∷ ts) =
    let (n, ts') = add_from every handler (i + 1) ts in
    if t.handler == 0
    then (i + 1, record { every_ms = every; handler = handler } ∷ ts)
    else (n, t ∷ ts')

unfoldable pub scheduler_add : ℕ → ℕ → Scheduler → ℕ × Scheduler
unfolding add_from
scheduler_add every handler s =
    let (n, ts) = add_from every handler 0 s.tasks in (n, record s { tasks = ts })

unfoldable pub scheduler_remove : ℕ → Scheduler → Option Scheduler
scheduler_remove scheduled s =
    if scheduled == 0
    then some s
    else if leb scheduled (length s.tasks)
    then some
        (record s { tasks = set s.tasks (scheduled - 1) (record { every_ms = 0; handler = 0 }) })
    else none

-- `led_task` is the handler of that name
unfoldable pub scheduler_clear : ℕ → Scheduler → Scheduler
unfolding scheduler_add
scheduler_clear led_task s =
    let cleared = record s {
      triggered_tasks = map (λ _. 0) s.triggered_tasks;
      tasks = map (λ t. record { every_ms = t.every_ms; handler = 0 }) s.tasks;
    } in
    (scheduler_add 10 led_task cleared).1

-- the loop of `add_triggered_task`
unfoldable pub add_triggered : ℕ → List ℕ → List ℕ
add_triggered handler [] = []
add_triggered handler (t ∷ ts) = if t == 0 then handler ∷ ts else t ∷ add_triggered handler ts

unfoldable pub add_triggered_task : ℕ → Scheduler → Scheduler
unfolding add_triggered
add_triggered_task handler s = record s {
  triggered_tasks = add_triggered handler s.triggered_tasks;
}

-- the loop of `perform_triggered_task`: the handler taken, 0 for none, and the slots
unfoldable pub take_triggered : List ℕ → ℕ × List ℕ
take_triggered [] = (0, [])
take_triggered (t ∷ ts) =
    let (h, ts') = take_triggered ts in if t == 0 then (h, t ∷ ts') else (t, 0 ∷ ts)

-- What runs a handler: `safe_evalexpressions` for one in flash, else the C function, each as its
-- effect on the state.
module _ (eval call : ℕ → Scheduler → Scheduler) where
  unfoldable pub perform_triggered_task : Scheduler → Scheduler
  unfolding take_triggered
  perform_triggered_task s =
      let (handler, ts) = take_triggered s.triggered_tasks in
      let s' = record s { triggered_tasks = ts } in
      if handler == 0 then s' else if is_in_flash handler then eval handler s' else call handler s'

  -- the body of the interrupt's loop for the slot `i`
  unfoldable pub run_slot : ℕ → Scheduler → Option Scheduler
  unfolding add_triggered_task
  run_slot i s =
      let t = get_or s.tasks i (record { every_ms = 0; handler = 0 }) in
      if t.handler == 0
      then some s
      else if t.every_ms == 0
      then none
      else if ((s.time_since_start + i) % 2 ^ 32) % t.every_ms == 0
      then if is_in_flash t.handler
        then some (add_triggered_task t.handler s)
        else some (call t.handler s)
      else some s

  unfoldable pub run_slots : ℕ → ℕ → Scheduler → Option Scheduler
  run_slots zero i s = some s
  run_slots (suc n) i s = elim (run_slot i s) [ none ↦ none | some s' ↦ run_slots n (i + 1) s' ]

  -- `ISR(TIMER0_COMPA_vect)`. The line `OCR0A == MILLISECOND;` is a comparison and sets nothing.
  unfoldable pub timer_interrupt : Scheduler → Option Scheduler
  unfolding run_slots run_slot
  timer_interrupt s =
      if s.on_millisecond
      then run_slots 16 0 (record s { time_since_start = (s.time_since_start + 1) % 2 ^ 32 })
      else some (record s { ocr0a = millisecond; on_millisecond = true })
