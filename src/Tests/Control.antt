-- ===== src/Tests/Control.antt =====
-- Runs for src/scheduler.c, src/log.c, src/config.c and src/util.c.
use phatio.Prelude.{
  ℕ, zero, suc, ◌≡◌, ◌≢◌, ◌⊎◌, refl, true, false, if◌then◌else◌, ◌==◌, ◌+◌, none, some, List, [],
  ◌∷◌, replicate, arith,
}
use phatio.Scheduler.{
  Scheduler, scheduler_add, scheduler_remove, add_triggered_task, perform_triggered_task,
  timer_interrupt, is_in_flash,
}
use phatio.Scheduler.Tasks.{task_at, scheduler_remove-scheduler_add}
use phatio.Scheduler.Triggered.{count, add_triggered_task-count, perform_triggered_task-Taken}
use phatio.Scheduler.Interrupt.{HasPeriods, timer_interrupt-HasPeriods, scheduler_add_zero}
use phatio.Log.Keys.{KeyLog, key_printf_P, log_consume_as_char}
use phatio.Log.Queue.{
  IsValid, pending, key_printf_P-pending, key_printf_P-overlong, log_consume_as_char-pending,
}
use phatio.Log.Leds.{Leds, ledmanual, ledstate_off, state_of, led_error, led_flash, led_task}
use phatio.Log.Manual.{lit_of, manual_kept}
use phatio.Config.{Config}
use phatio.Config.Laws
use phatio.Heap.{Heap, data_alloc, data_alloc_wraps}

abbrev scheduler : Scheduler
scheduler = record {
  time_since_start = 41;
  on_millisecond = true;
  ocr0a = 0;
  tasks =
      record { every_ms = 10; handler = 300 }
      ∷ record { every_ms = 0; handler = 0 }
      ∷ record { every_ms = 0; handler = 0 }
      ∷ [];
  triggered_tasks = 0 ∷ 0x7000 ∷ 0 ∷ [];
}

scheduler-HasPeriods : HasPeriods scheduler.tasks
scheduler-HasPeriods zero h = omega arith
scheduler-HasPeriods (suc zero) h = absurd (h refl)
scheduler-HasPeriods (suc (suc zero)) h = absurd (h refl)
scheduler-HasPeriods (suc (suc (suc i))) h = absurd (h refl)

abbrev quiet : ℕ → Scheduler → Scheduler
quiet h s = s

scheduler_remove-scheduler_add_example :
    (s' : Scheduler) × (scheduler_remove
        (scheduler_add 5 0x7100 scheduler).0
        (scheduler_add 5 0x7100 scheduler).1
      ≡ some s')
    × ((task_at s'.tasks 1).handler ≡ 0)
    × ((j : ℕ) → j ≢ 1 → task_at s'.tasks j ≡ task_at scheduler.tasks j)
unfolding scheduler_add
scheduler_remove-scheduler_add_example =
    scheduler_remove-scheduler_add 5 0x7100 scheduler (omega arith)

add_triggered_task-count_example :
    count 0x7000 (add_triggered_task 0x7000 scheduler).triggered_tasks ≡ 2
add_triggered_task-count_example =
    add_triggered_task-count 0x7000 0x7000 scheduler (omega arith) (omega arith)

perform_triggered_task-Taken_example :
    (h : ℕ) × (rest : List ℕ) × (perform_triggered_task quiet quiet scheduler ≡ (
      let s' = record scheduler { triggered_tasks = rest } in
      if h == 0 then s' else if is_in_flash h then quiet h s' else quiet h s'))
    × ((h ≢ 0) ⊎ (count 0x7000 scheduler.triggered_tasks ≡ 0))
    × (1 ≡ (if h == 0x7000 then 1 else 0) + count 0x7000 rest)
perform_triggered_task-Taken_example =
    perform_triggered_task-Taken quiet quiet scheduler 0x7000 (omega arith)

timer_interrupt-HasPeriods_example :
    (s' : Scheduler) × (timer_interrupt quiet quiet scheduler ≡ some s') × HasPeriods s'.tasks
timer_interrupt-HasPeriods_example =
    timer_interrupt-HasPeriods quiet quiet (λ h s k. k) scheduler scheduler-HasPeriods

abbrev no_tasks : Scheduler
no_tasks = record scheduler { tasks = record { every_ms = 0; handler = 0 } ∷ [] }

scheduler_add_zero_example : timer_interrupt quiet quiet (scheduler_add 0 0x7100 no_tasks).1 ≡ none
scheduler_add_zero_example =
    scheduler_add_zero quiet quiet 0x7100 no_tasks (omega arith) refl (omega arith) refl

abbrev keys : KeyLog
keys = record { buffer = b'a' ∷ b'b' ∷ replicate 98 0; write_position = 2; read_position = 1 }

keys-IsValid : IsValid keys
keys-IsValid = record { size = refl; ordered = omega arith; inside = omega arith }

key_printf_P-pending_example :
    IsValid (key_printf_P (b'c' ∷ []) keys)
    × (pending (key_printf_P (b'c' ∷ []) keys) ≡ b'b' ∷ b'c' ∷ [])
key_printf_P-pending_example = key_printf_P-pending (b'c' ∷ []) keys keys-IsValid (omega arith)

key_printf_P-overlong_example : (key_printf_P (replicate 120 b'x') keys).write_position ≡ 120
key_printf_P-overlong_example =
    key_printf_P-overlong (replicate 120 b'x') keys (omega arith) (omega arith) (omega arith)

log_consume_as_char-pending_example :
    ((pending keys ≡ []) × (log_consume_as_char keys ≡ some (0, keys)))
    ⊎ ((c : ℕ) × (k' : KeyLog) × (log_consume_as_char keys ≡ some (c, k'))
        × (pending keys ≡ c ∷ pending k')
        × IsValid k')
log_consume_as_char-pending_example = log_consume_as_char-pending keys keys-IsValid

abbrev leds : Leds
leds = record { led_state = ledmanual ∷ ledstate_off ∷ []; lit = true ∷ false ∷ [] }

manual_kept_example :
    (state_of (led_error 1 leds) 0 ≡ ledmanual)
    × (lit_of (led_error 1 leds) 0 ≡ true)
    × (state_of (led_flash 0 leds) 0 ≡ ledmanual)
    × (lit_of (led_flash 0 leds) 0 ≡ true)
    × (state_of (led_task false 70 leds) 0 ≡ ledmanual)
    × (lit_of (led_task false 70 leds) 0 ≡ true)
manual_kept_example = manual_kept 0 1 0 70 false leds refl

abbrev flags : Config
flags = record { bit_config = 0x04; byte_config = 0 ∷ []; eeprom_bits = 0x04; eeprom_byte = 0 }

flags-IsValid : Laws.IsValid flags
flags-IsValid = record { ram = omega arith; eeprom = omega arith }

abbrev heap : Heap
heap = record { free_data = 230; lio_stopped = false }

data_alloc_wraps_example :
    ((data_alloc 40 heap).0 ≡ some 230)
    × ((data_alloc 10 (data_alloc 40 heap).1).0 ≡ some 14)
    × ((data_alloc 40 heap).1.lio_stopped ≡ false)
data_alloc_wraps_example = data_alloc_wraps 40 10 heap (omega arith) (omega arith) (omega arith)
