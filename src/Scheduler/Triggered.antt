-- ===== src/Scheduler/Triggered.antt =====
-- The triggered tasks of src/scheduler.c as a bag: how often each handler waits.
use phatio.Prelude.{
  ℕ, ◌+◌, ◌≡◌, ◌≢◌, ◌⊎◌, inl, inr, refl, true, false, not, ◌&&◌, List, [], ◌∷◌, ◌==◌, length,
  Bool-cases, if◌then◌else◌, arith,
}
use phatio.Scheduler.{
  Scheduler, add_triggered, add_triggered_task, take_triggered, perform_triggered_task, is_in_flash,
}

-- how many slots hold `x`
abbrev pub count : ℕ → List ℕ → ℕ
count x [] = 0
count x (t ∷ ts) = (if t == x then 1 else 0) + count x ts

-- A handler is added once if a slot is free, and dropped if none is; the others stay as they were.
pub add_triggered_task-count :
    (h x : ℕ) (s : Scheduler)
    → h ≢ 0
    → x ≢ 0
    → count x (add_triggered_task h s).triggered_tasks
      ≡ (if h == x && not (count 0 s.triggered_tasks == 0) then 1 else 0)
        + count x s.triggered_tasks
unfolding add_triggered_task
add_triggered_task-count h x s nh nx = loop s.triggered_tasks
  where
    loop :
        (ts : List ℕ)
        → count x (add_triggered h ts)
          ≡ (if h == x && not (count 0 ts == 0) then 1 else 0) + count x ts
    loop [] = ground arith
    loop (t ∷ ts) = ground (arith, loop ts)

-- what `perform_triggered_task` takes
abbrev Taken : List ℕ → ℕ × List ℕ → Type 0
Taken ts (h, rest) =
    (length rest ≡ length ts)
    × (h ≡ 0 → (x : ℕ) → x ≢ 0 → count x ts ≡ 0)
    × ((x : ℕ) → x ≢ 0 → count x ts ≡ (if h == x then 1 else 0) + count x rest)

take_triggered-Taken : (ts : List ℕ) → Taken ts (take_triggered ts)
unfolding take_triggered
take_triggered-Taken [] = (refl, λ z x nx. refl, λ x nx. ground arith)
take_triggered-Taken (t ∷ ts) =
    let ih = take_triggered-Taken ts in
    (
      ground (arith, ih),
      λ z x nx. ground (arith, ih.1, ih.1 (ground arith) x nx),
      λ x nx. ground (arith, ih.2 x nx),
    )

-- One call takes one waiting handler, if there is one, and runs it once on the state that no longer
-- holds it: any handler `x` waits once less if it is the one that is taken, and as often as before if
-- it is not. With none waiting nothing is run.
pub perform_triggered_task-Taken :
    (eval call : ℕ → Scheduler → Scheduler) (s : Scheduler) (x : ℕ)
    → x ≢ 0
    → (h : ℕ) × (rest : List ℕ) × (perform_triggered_task eval call s ≡ (
        let s' = record s { triggered_tasks = rest } in
        if h == 0 then s' else if is_in_flash h then eval h s' else call h s'))
      × ((h ≢ 0) ⊎ (count x s.triggered_tasks ≡ 0))
      × (count x s.triggered_tasks ≡ (if h == x then 1 else 0) + count x rest)
unfolding perform_triggered_task
perform_triggered_task-Taken eval call s x nx =
    let t = take_triggered-Taken s.triggered_tasks in
    (
      (take_triggered s.triggered_tasks).0,
      (take_triggered s.triggered_tasks).1,
      refl,
      taken_or_none (Bool-cases ((take_triggered s.triggered_tasks).0 == 0)),
      t.2 x nx,
    )
  where
    taken_or_none :
        ((take_triggered s.triggered_tasks).0 == 0 ≡ true)
          ⊎ ((take_triggered s.triggered_tasks).0 == 0 ≡ false)
        → ((take_triggered s.triggered_tasks).0 ≢ 0) ⊎ (count x s.triggered_tasks ≡ 0)
    taken_or_none (inl z) = inr ((take_triggered-Taken s.triggered_tasks).1 (ground arith) x nx)
    taken_or_none (inr nz) = inl (λ e. ground arith)
