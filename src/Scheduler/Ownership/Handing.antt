-- ===== src/Scheduler/Ownership/Handing.antt =====
-- include/scheduler.h: a search takes one reference from the queues, or none.
use tiny_coro_build_your_own.Common.{
  ℕ, zero, suc, ◌+◌, ◌%◌, ◌≡◌, refl, ap, ◌∙◌, inl, inr, Option, none, some, List, [], ◌∷◌, ◌++◌,
  arith, All, count, count-append, length, leb, Bool-cases,
}
use tiny_coro_build_your_own.Task.{Task}
use tiny_coro_build_your_own.Queue.Steal.{StealQueue}
use tiny_coro_build_your_own.Queue.Steal
use tiny_coro_build_your_own.Queue.Global
use tiny_coro_build_your_own.Queue.Global.{GlobalQueue}
use tiny_coro_build_your_own.Scheduler.{
  Worker, Scheduler, steal_worker, steal_at, steal_loop, steal, pop_at, pop_global, find_task,
}
use tiny_coro_build_your_own.Scheduler.Search.{Valid}
use tiny_coro_build_your_own.Scheduler.Ownership.{
  entries, worker_refs, handles, refs, Splits, Taken, pop-Taken, steal-Taken,
}

-- The workers after one of them has given something.
abbrev Gave : List Worker → List Worker × Option Task → Type 0
Gave ws r = All Valid r.0 × Splits (worker_refs ws) r.1 (worker_refs r.0) × (length r.0 ≡ length ws)

front-Gave :
    (w : Worker) (ws : List Worker) (r : StealQueue × Option Task)
    → All Valid ws
    → Taken w.local_queue r
    → Gave (w ∷ ws) (record w { local_queue = r.0 } ∷ ws, r.1)
front-Gave w ws r vs (v, split) = (
  (v, vs),
  λ a. omega (
    arith,
    split a,
    count-append a (entries w.local_queue) (worker_refs ws),
    count-append a (entries r.0) (worker_refs ws),
  ),
  refl,
)

later-Gave :
    (w : Worker) (ws : List Worker) (r : List Worker × Option Task)
    → Valid w
    → Gave ws r
    → Gave (w ∷ ws) (w ∷ r.0, r.1)
later-Gave w ws r v (vs, split, size) = (
  (v, vs),
  λ a. omega (
    arith,
    split a,
    count-append a (entries w.local_queue) (worker_refs ws),
    count-append a (entries w.local_queue) (worker_refs r.0),
  ),
  ap suc size,
)

pop_at-Gave : (i : ℕ) (ws : List Worker) → All Valid ws → Gave ws (pop_at i ws)
unfolding pop_at
pop_at-Gave i [] v = (tt, λ a. omega arith, refl)
pop_at-Gave zero (w ∷ ws) ((k, b, v), vs) =
    front-Gave w ws (Steal.pop w.local_queue) vs (pop-Taken v)
pop_at-Gave (suc i) (w ∷ ws) (v, vs) = later-Gave w ws (pop_at i ws) v (pop_at-Gave i ws vs)

steal_at-Gave : (i : ℕ) (ws : List Worker) → All Valid ws → Gave ws (steal_at i ws)
unfolding steal_at steal_worker
steal_at-Gave i [] v = (tt, λ a. omega arith, refl)
steal_at-Gave zero (w ∷ ws) ((k, b, v), vs) =
    front-Gave w ws (Steal.steal w.local_queue) vs (steal-Taken v)
steal_at-Gave (suc i) (w ∷ ws) (v, vs) = later-Gave w ws (steal_at i ws) v (steal_at-Gave i ws vs)

-- The rest of a loop, after a round that may have found something.
after_round-Gave :
    (ws : List Worker) (r rest : List Worker × Option Task)
    → Gave ws r
    → Gave r.0 rest
    → Gave ws (elim (r.1) [ none ↦ rest | some t ↦ (r.0, some t) ])
after_round-Gave ws (ws', none) rest (vs, split, size) (vs', split', size') =
    (vs', λ a. omega (arith, split a, split' a), size' ∙ size)
after_round-Gave ws (ws', some t) rest g g' = g

steal_loop-Gave :
    (start i rounds : ℕ) (ws : List Worker) → All Valid ws → Gave ws (steal_loop start i rounds ws)
unfolding steal_loop
steal_loop-Gave start i zero ws v = (v, λ a. omega arith, refl)
steal_loop-Gave start i (suc rounds) ws v =
    let r = steal_at ((start + i) % length ws) ws in
    let g = steal_at-Gave ((start + i) % length ws) ws v in
    after_round-Gave ws r (steal_loop start (suc i) rounds r.0) g
      (steal_loop-Gave start (suc i) rounds r.0 g.0)

-- A scheduler that has given a task, or none.
abbrev pub Hands : Scheduler → Scheduler × Option Task → Type 0
Hands s r =
    All Valid r.0.workers × Splits (refs s) r.1 (refs r.0) × (length r.0.workers ≡ length s.workers)

workers-Hands :
    (s : Scheduler) (r : List Worker × Option Task)
    → Gave s.workers r
    → Hands s (record s { workers = r.0 }, r.1)
workers-Hands s r (vs, split, size) = (
  vs,
  λ a. omega (
    arith,
    split a,
    count-append a (handles s.global_queue) (worker_refs s.workers),
    count-append a (handles s.global_queue) (worker_refs r.0),
  ),
  size,
)

steal-Hands : (start : ℕ) (s : Scheduler) → All Valid s.workers → Hands s (steal start s)
unfolding steal
steal-Hands start s v =
    let n = length s.workers in
    elim (Bool-cases (leb n 1)) [
      | inl alone ↦ rw alone (v, (λ a. omega arith), refl)
      | inr several ↦
          rw several (
            workers-Hands s (steal_loop start 0 n s.workers)
              (steal_loop-Gave start 0 n s.workers v))
    ]

pub pop_global-Hands : (s : Scheduler) → All Valid s.workers → Hands s (pop_global s)
unfolding pop_global Global.pop
pop_global-Hands s v = by_queue s.global_queue refl
  where
    by_queue :
        (g : GlobalQueue)
        → s.global_queue ≡ g
        → Hands s (record s { global_queue = (Global.pop g).0 }, (Global.pop g).1)
    by_queue [] e =
        (v, (λ a. ap (λ q. count a (handles q ++ worker_refs s.workers)) e ∙ omega arith), refl)
    by_queue (t ∷ g) e =
        (v, (λ a. ap (λ q. count a (handles q ++ worker_refs s.workers)) e ∙ omega arith), refl)

after_global-Hands :
    (start : ℕ) (s : Scheduler) (r : Scheduler × Option Task)
    → Hands s r
    → (let stolen = steal start r.0 in
        Hands s (elim (r.1) [ some t ↦ (r.0, some t) | none ↦ stolen ]))
after_global-Hands start s (s', some t) h = h
after_global-Hands start s (s', none) (v, split, size) =
    let (v', split', size') = steal-Hands start s' v in
    (v', (λ a. omega (arith, split a, split' a)), size' ∙ size)

pub find_task-Hands :
    (i start : ℕ) (s : Scheduler) → All Valid s.workers → Hands s (find_task i start s)
unfolding find_task
find_task-Hands i start s v = own (pop_at i s.workers) (pop_at-Gave i s.workers v)
  where
    own :
        (r : List Worker × Option Task)
        → Gave s.workers r
        → (let s' = record s { workers = r.0 } in
            let (s'', next_global) = pop_global s' in
            let stolen = steal start s'' in
            Hands s (elim (r.1) [
              | some t ↦ (s', some t)
              | none ↦ elim next_global [ some t ↦ (s'', some t) | none ↦ stolen ]
            ]))
    own (ws, some t) g = workers-Hands s (ws, some t) g
    own (ws, none) g =
        let (v', split, size) = workers-Hands s (ws, none) g in
        let s' = record s { workers = ws } in
        let (v'', split', size') =
          after_global-Hands start s' (pop_global s') (pop_global-Hands s' v') in
        (v'', (λ a. omega (arith, split a, split' a)), size' ∙ size)
