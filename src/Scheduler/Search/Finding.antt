-- ===== src/Scheduler/Search/Finding.antt =====
-- The whole search of `run_once` in include/scheduler.h: it gives up only if there is no task.
use mathlib.Core.Path.{subst}
use tiny_coro_build_your_own.Common.{
  ℕ, ◌<◌, ◌≡◌, refl, sym, ap, ap₂, ◌∙◌, ◌⊎◌, inl, inr, Option, none, some, List, [], ◌∷◌, arith,
  All, length, leb, Option-cases, Bool-cases, leb→le,
}
use tiny_coro_build_your_own.Task.{Task}
use tiny_coro_build_your_own.Queue.Global
use tiny_coro_build_your_own.Queue.Global.{GlobalQueue}
use tiny_coro_build_your_own.Scheduler.{Worker, Scheduler, steal, pop_at, pop_global, find_task}
use tiny_coro_build_your_own.Scheduler.Search.{Valid, IdleAt, pop_at-misses}
use tiny_coro_build_your_own.Scheduler.Search.Stealing.{steal-alone, steal-none_left}

-- The last two parts of a search.
abbrev after_global : ℕ → Scheduler × Option Task → Scheduler × Option Task
after_global start (s, task) =
    let stolen = steal start s in elim task [ some t ↦ (s, some t) | none ↦ stolen ]

abbrev after_own : ℕ → Scheduler → List Worker × Option Task → Scheduler × Option Task
after_own start s (workers, task) = elim task [
  | some t ↦ (record s { workers = workers }, some t)
  | none ↦ after_global start (pop_global (record s { workers = workers }))
]

find_task-parts :
    (i start : ℕ) (s : Scheduler) → find_task i start s ≡ after_own start s (pop_at i s.workers)
unfolding find_task
find_task-parts i start s = refl

queue-cases :
    (g : GlobalQueue)
    → ((g ≡ []) × (Global.pop g ≡ ([], none)))
      ⊎ ((t : Task) × (rest : GlobalQueue) × (Global.pop g ≡ (rest, some t)))
unfolding Global.pop
queue-cases [] = inl (refl, refl)
queue-cases (t ∷ rest) = inr (t, rest, refl)

pop_global-cases :
    (s : Scheduler)
    → ((s.global_queue ≡ []) × (pop_global s ≡ (s, none)))
      ⊎ ((s' : Scheduler) × (t : Task) × (pop_global s ≡ (s', some t)))
unfolding pop_global
pop_global-cases s = elim (queue-cases s.global_queue) [
  | inl (empty, missed) ↦
      inl (empty, ap result missed ∙ ap (λ (g : GlobalQueue). result (g, none)) (sym empty))
  | inr (t, rest, found) ↦ inr (record s { global_queue = rest }, t, ap result found)
]
  where
    result : GlobalQueue × Option Task → Scheduler × Option Task
    result (g, task) = (record s { global_queue = g }, task)

abbrev AllIdle : Scheduler → Type 0
AllIdle s = (x : ℕ) → x < length s.workers → IdleAt x s.workers

-- The rest of a search of a worker whose own queue is empty.
global-misses :
    (i start : ℕ) (s : Scheduler)
    → All Valid s.workers
    → i < length s.workers
    → start < length s.workers
    → IdleAt i s.workers
    → (after_global start (pop_global s)).1 ≡ none
    → ((after_global start (pop_global s)).0 ≡ s) × (s.global_queue ≡ []) × AllIdle s
global-misses i start s v li ls own_idle e = elim (pop_global-cases s) [
  | inl (empty, missed) ↦
      let f = ap (after_global start) missed in
      let e' = sym (ap (λ (r : Scheduler × Option Task). r.1) f) ∙ e in
      elim (Bool-cases (leb (length s.workers) 1)) [
        | inl alone ↦ (
          ap (λ (r : Scheduler × Option Task). r.0) (f ∙ steal-alone start s alone),
          empty,
          λ x lx.
              subst (λ m. IdleAt m s.workers)
                (let le = leb→le (length s.workers) 1 alone in omega arith) own_idle,
        )
        | inr several ↦
            let (same, idle) = steal-none_left start s v ls several e' in
            (ap (λ (r : Scheduler × Option Task). r.0) f ∙ same, empty, idle)
      ]
  | inr (s', t, found) ↦
      let f = ap (after_global start) found in
      absurd (let e' = sym (ap (λ (r : Scheduler × Option Task). r.1) f) ∙ e in cc)
]

-- With valid queues, a search of worker i that finds no task has changed nothing, and there was none: the global queue is
-- empty, and so is the queue of every worker, its own and the others.
pub find_task-misses :
    (i start : ℕ) (s : Scheduler)
    → All Valid s.workers
    → i < length s.workers
    → start < length s.workers
    → (find_task i start s).1 ≡ none
    → ((find_task i start s).0 ≡ s)
      × (s.global_queue ≡ [])
      × ((x : ℕ) → x < length s.workers → IdleAt x s.workers)
find_task-misses i start s v li ls e = elim (Option-cases (pop_at i s.workers).1) [
  | inl missed ↦
      let (same, idle) = pop_at-misses i s.workers v missed in
      let f =
        find_task-parts i start s ∙ ap (after_own start s) (ap₂ (λ us t. (us, t)) same missed) in
      let (same', empty, all) =
        global-misses i start s v li ls idle
          (sym (ap (λ (r : Scheduler × Option Task). r.1) f) ∙ e) in
      (ap (λ (r : Scheduler × Option Task). r.0) f ∙ same', empty, all)
  | inr (t, found) ↦
      let f =
        find_task-parts i start s ∙ ap (λ u. after_own start s ((pop_at i s.workers).0, u)) found in
      absurd (let e' = sym (ap (λ (r : Scheduler × Option Task). r.1) f) ∙ e in cc)
]
