-- ===== src/Scheduler/Tasks.antt =====
-- The table of periodic tasks of src/scheduler.c, and what the timer interrupt needs of it.
use phatio.Prelude.{
  ℕ, zero, suc, ◌+◌, ◌-◌, ◌<◌, ◌≡◌, ◌≢◌, ◌⊎◌, inl, inr, refl, sym, ap, ◌∙◌, some, List, [], ◌∷◌,
  ◌==◌, length, get_or, set, length-set, get_or-set_self, get_or-set_ne, Bool-cases, arith,
}
use phatio.Scheduler.{Task, Scheduler, add_from, scheduler_add, scheduler_remove}

abbrev pub no_task : Task
no_task = record { every_ms = 0; handler = 0 }

abbrev pub task_at : List Task → ℕ → Task
task_at ts i = get_or ts i no_task

-- What `scheduler_add` returns: 0 if every slot is taken, and then nothing changes; else one more
-- than the index of the first free slot, which alone is filled.
abbrev pub Added : ℕ → ℕ → List Task → ℕ × List Task → Type 0
Added every handler ts (n, ts') =
    ((n ≡ 0) × (ts' ≡ ts) × ((i : ℕ) → i < length ts → (task_at ts i).handler ≢ 0))
    ⊎ ((i : ℕ) × (n ≡ i + 1)
        × (i < length ts)
        × ((task_at ts i).handler ≡ 0)
        × (ts' ≡ set ts i (record { every_ms = every; handler = handler }))
        × ((j : ℕ) → j < i → (task_at ts j).handler ≢ 0))

below_suc :
    (t : Task) (ts : List Task) (k : ℕ)
    → t.handler ≢ 0
    → ((j : ℕ) → j < k → (task_at ts j).handler ≢ 0)
    → (j : ℕ) → j < suc k
    → (task_at (t ∷ ts) j).handler ≢ 0
below_suc t ts k nz h zero lt = nz
below_suc t ts k nz h (suc j) lt = h j (omega arith)

abbrev AddedFrom : ℕ → ℕ → ℕ → List Task → ℕ × List Task → Type 0
AddedFrom every handler k ts (n, ts') =
    ((n ≡ 0) × (ts' ≡ ts) × ((i : ℕ) → i < length ts → (task_at ts i).handler ≢ 0))
    ⊎ ((i : ℕ) × (n ≡ k + i + 1)
        × (i < length ts)
        × ((task_at ts i).handler ≡ 0)
        × (ts' ≡ set ts i (record { every_ms = every; handler = handler }))
        × ((j : ℕ) → j < i → (task_at ts j).handler ≢ 0))

add_from-AddedFrom :
    (every handler k : ℕ) (ts : List Task)
    → AddedFrom every handler k ts (add_from every handler k ts)
unfolding add_from
add_from-AddedFrom every handler k [] = inl (refl, refl, λ i lt. absurd (omega arith))
add_from-AddedFrom every handler k (t ∷ ts) = elim (Bool-cases (t.handler == 0)) [
  | inl free ↦
      rw free (inr (0, omega arith, omega arith, ground arith, refl, λ j lt. absurd (omega arith)))
  | inr taken ↦ rw taken (later (ground arith) (add_from-AddedFrom every handler (k + 1) ts))
]
  where
    rest : ℕ × List Task
    rest = add_from every handler (k + 1) ts

    later :
        t.handler ≢ 0
        → AddedFrom every handler (k + 1) ts rest
        → AddedFrom every handler k (t ∷ ts) (rest.0, t ∷ rest.1)
    later nz (inl (z, e, all)) = inl (z, ap (◌∷◌ t) e, below_suc t ts (length ts) nz all)
    later nz (inr (i, n, lt, free, e, before)) =
        inr (suc i, omega arith, omega arith, free, ap (◌∷◌ t) e, below_suc t ts i nz before)

-- `scheduler_add` takes the first free slot and no other, and reports failure exactly when none is
-- free.
pub scheduler_add-Added :
    (every handler : ℕ) (s : Scheduler)
    → Added every handler s.tasks
        ((scheduler_add every handler s).0, (scheduler_add every handler s).1.tasks)
unfolding scheduler_add
scheduler_add-Added every handler s = elim (add_from-AddedFrom every handler 0 s.tasks) [
  | inl full ↦ inl full
  | inr (i, n, lt, free, e, before) ↦ inr (i, omega arith, lt, free, e, before)
]

-- `delete_schedule` on the number that `every` gave: the slot is free again, and no other slot has
-- changed.
pub scheduler_remove-scheduler_add :
    (every handler : ℕ) (s : Scheduler)
    → (scheduler_add every handler s).0 ≢ 0
    → (s' : Scheduler) × (scheduler_remove
          (scheduler_add every handler s).0
          (scheduler_add every handler s).1
        ≡ some s')
      × ((task_at s'.tasks ((scheduler_add every handler s).0 - 1)).handler ≡ 0)
      × ((j : ℕ)
          → j ≢ (scheduler_add every handler s).0 - 1
          → task_at s'.tasks j ≡ task_at s.tasks j)
scheduler_remove-scheduler_add every handler s ne = elim (scheduler_add-Added every handler s) [
  | inl (z, e, full) ↦ absurd (ne z)
  | inr (i, n, lt, free, e, before) ↦ rw n (removed i lt e)
]
  where
    added : Scheduler
    added = (scheduler_add every handler s).1

    task : Task
    task = record { every_ms = every; handler = handler }

    removed :
        (i : ℕ)
        → i < length s.tasks
        → added.tasks ≡ set s.tasks i task
        → (s' : Scheduler) × (scheduler_remove (i + 1) added ≡ some s')
          × ((task_at s'.tasks (i + 1 - 1)).handler ≡ 0)
          × ((j : ℕ) → j ≢ i + 1 - 1 → task_at s'.tasks j ≡ task_at s.tasks j)
    removed i lt e =
        let back : i + 1 - 1 ≡ i = omega arith in
        let len : length added.tasks ≡ length s.tasks = rw e (length-set s.tasks i task) in
        rw back (
          record added { tasks = set added.tasks i no_task },
          unfold scheduler_remove in ground arith,
          ground (arith, get_or-set_self added.tasks i no_task no_task (omega arith)),
          λ j nj.
              get_or-set_ne added.tasks i j no_task no_task (λ x. nj (sym x))
              ∙ rw e (get_or-set_ne s.tasks i j task no_task (λ x. nj (sym x))),
        )
