-- ===== src/Scheduler/Interrupt.antt =====
-- When the timer interrupt of src/scheduler.c is defined: no task that is set has the period 0.
use phatio.Prelude.{
  ℕ, zero, suc, ◌+◌, ◌%◌, ◌^◌, ◌<◌, ◌≡◌, ◌≢◌, ◌⊎◌, ◌↔◌, inl, inr, refl, Bool, true, false, Option,
  none, some, List, [], ◌∷◌, ◌==◌, length, set, get_or-set_self, if◌then◌else◌, arith,
}
use phatio.Scheduler.{
  Task, Scheduler, scheduler_add, add_triggered_task, run_slot, run_slots, timer_interrupt,
  is_in_flash,
}
use phatio.Scheduler.Tasks.{no_task, task_at, scheduler_add-Added}

-- every task that is set has a period
abbrev pub HasPeriods : List Task → Type 0
HasPeriods ts = (i : ℕ) → (task_at ts i).handler ≢ 0 → (task_at ts i).every_ms ≢ 0

task_at-set :
    (ts : List Task) (i j : ℕ) (t : Task)
    → (task_at (set ts i t) j ≡ task_at ts j) ⊎ (task_at (set ts i t) j ≡ t)
task_at-set [] i j t = inl refl
task_at-set (x ∷ ts) zero zero t = inr refl
task_at-set (x ∷ ts) zero (suc j) t = inl refl
task_at-set (x ∷ ts) (suc i) zero t = inl refl
task_at-set (x ∷ ts) (suc i) (suc j) t = task_at-set ts i j t

set-HasPeriods :
    (ts : List Task) (i : ℕ) (t : Task)
    → (t.handler ≢ 0 → t.every_ms ≢ 0)
    → HasPeriods ts
    → HasPeriods (set ts i t)
set-HasPeriods ts i t ok h j = elim (task_at-set ts i j t) [ inl e ↦ rw e (h j) | inr e ↦ rw e ok ]

-- A task added with a period keeps all periods.
pub scheduler_add-HasPeriods :
    (every handler : ℕ) (s : Scheduler)
    → every ≢ 0
    → HasPeriods s.tasks
    → HasPeriods (scheduler_add every handler s).1.tasks
scheduler_add-HasPeriods every handler s ne h = elim (scheduler_add-Added every handler s) [
  | inl (z, e, full) ↦ rw e h
  | inr (i, n, lt, free, e, before) ↦ rw e (set-HasPeriods s.tasks i _ (λ _. ne) h)
]

-- defined, and with periods
abbrev Safe : Option Scheduler → Type 0
Safe none = ⊥
Safe (some s) = HasPeriods s.tasks

Safe-if :
    (b : Bool) (x y : Option Scheduler)
    → (b ≡ true → Safe x)
    → (b ≡ false → Safe y)
    → Safe (if b then x else y)
Safe-if true x y h k = h refl
Safe-if false x y h k = k refl

Safe-bind :
    (o : Option Scheduler) (f : Scheduler → Option Scheduler)
    → Safe o
    → ((s : Scheduler) → HasPeriods s.tasks → Safe (f s))
    → Safe (elim o [ none ↦ none | some s ↦ f s ])
Safe-bind none f h k = h
Safe-bind (some s) f h k = k s h

Safe-some : (o : Option Scheduler) → Safe o → (s : Scheduler) × (o ≡ some s) × HasPeriods s.tasks
Safe-some none h = absurd h
Safe-some (some s) h = (s, refl, h)

module _ (eval call : ℕ → Scheduler → Scheduler) where
  run_slot_iff :
      (i : ℕ) (s : Scheduler)
      → (run_slot eval call i s ≡ none)
        ↔ (((task_at s.tasks i).handler ≢ 0) × ((task_at s.tasks i).every_ms ≡ 0))
  unfolding run_slot
  run_slot_iff i s = (λ h. ground arith, λ h. ground arith)

  module _ (kept : (h : ℕ) (s : Scheduler) → HasPeriods s.tasks → HasPeriods (call h s).tasks) where
    run_slot-Safe : (i : ℕ) (s : Scheduler) → HasPeriods s.tasks → Safe (run_slot eval call i s)
    unfolding run_slot add_triggered_task
    run_slot-Safe i s h =
        let t = task_at s.tasks i in
        Safe-if (t.handler == 0) _ _ (λ _. h)
          (λ nz.
            Safe-if (t.every_ms == 0) _ _ (λ z. absurd (h i (ground arith) (ground arith)))
              (λ _.
                Safe-if (((s.time_since_start + i) % 2 ^ 32) % t.every_ms == 0) _ _
                  (λ _. Safe-if (is_in_flash t.handler) _ _ (λ _. h) (λ _. kept t.handler s h))
                  (λ _. h)))

    run_slots-Safe :
        (n i : ℕ) (s : Scheduler) → HasPeriods s.tasks → Safe (run_slots eval call n i s)
    unfolding run_slots
    run_slots-Safe zero i s h = h
    run_slots-Safe (suc n) i s h =
        Safe-bind (run_slot eval call i s) (run_slots eval call n (i + 1)) (run_slot-Safe i s h)
          (run_slots-Safe n (i + 1))

    -- The timer interrupt is defined on a table in which every task that is set has a period, and
    -- leaves such a table, if the C functions that it runs do.
    pub timer_interrupt-HasPeriods :
        (s : Scheduler)
        → HasPeriods s.tasks
        → (s' : Scheduler) × (timer_interrupt eval call s ≡ some s') × HasPeriods s'.tasks
    unfolding timer_interrupt
    timer_interrupt-HasPeriods s h = Safe-some (timer_interrupt eval call s) (
        Safe-if s.on_millisecond _ _
          (λ _.
            run_slots-Safe 16 0 (record s { time_since_start = (s.time_since_start + 1) % 2 ^ 32 })
              h)
          (λ _. h))

first_slot_zero :
    (eval call : ℕ → Scheduler → Scheduler) (s : Scheduler)
    → s.on_millisecond ≡ true
    → (task_at s.tasks 0).handler ≢ 0
    → (task_at s.tasks 0).every_ms ≡ 0
    → timer_interrupt eval call s ≡ none
unfolding timer_interrupt
first_slot_zero eval call s ms nh z =
    ground (arith, first_none ((run_slot_iff eval call 0 next).1 (nh, z)))
  where
    next : Scheduler
    next = record s { time_since_start = (s.time_since_start + 1) % 2 ^ 32 }

    first_none : run_slot eval call 0 next ≡ none → run_slots eval call 16 0 next ≡ none
    first_none e = rw (e, run_slots)

-- `(every 0 ...)`: once a task with the period 0 stands in the first slot, the timer interrupt on a
-- millisecond is undefined.
pub scheduler_add_zero :
    (eval call : ℕ → Scheduler → Scheduler) (handler : ℕ) (s : Scheduler)
    → handler ≢ 0
    → (task_at s.tasks 0).handler ≡ 0
    → 0 < length s.tasks
    → s.on_millisecond ≡ true
    → timer_interrupt eval call (scheduler_add 0 handler s).1 ≡ none
scheduler_add_zero eval call handler s nh free room ms = elim (scheduler_add-Added 0 handler s) [
  | inl (z, e, full) ↦ absurd (full 0 room free)
  | inr (zero, n, lt, f, e, before) ↦
      first_slot_zero eval call (scheduler_add 0 handler s).1 (unfold scheduler_add in ms)
        (rw (e, get_or-set_self s.tasks 0 _ no_task room) nh)
        (rw (e, get_or-set_self s.tasks 0 _ no_task room) refl)
  | inr (suc i, n, lt, f, e, before) ↦ absurd (before 0 (omega arith) free)
]
