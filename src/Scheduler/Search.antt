-- ===== src/Scheduler/Search.antt =====
-- A worker's search for a task, queue by queue: what it means that one gives none.
pub mod Stealing
pub mod Finding
use mathlib.Core.Path.{subst}
use tiny_coro_build_your_own.Common.{
  ℕ, zero, suc, ◌-◌, ◌≡◌, refl, sym, ap, ◌∙◌, inl, inr, Option, none, some, List, [], ◌∷◌, All,
  get_elem?,
}
use tiny_coro_build_your_own.Task.{Task}
use tiny_coro_build_your_own.Ebr.{EbrManager}
use tiny_coro_build_your_own.Queue.Steal
use tiny_coro_build_your_own.Queue.Steal.{StealQueue}
use tiny_coro_build_your_own.Queue.Refinement.Steps.{IsValid, contents, new_queue-IsValid}
use tiny_coro_build_your_own.Queue.Refinement.{pop-Takes, steal-Takes}
use tiny_coro_build_your_own.Scheduler.{
  new_worker, new_workers, Worker, steal_worker, steal_at, steal, pop_at,
}

-- The worker's queue is valid; and it holds nothing.
abbrev pub Valid : Worker → Type 0
Valid worker = (k b : ℕ) × IsValid k b worker.local_queue

abbrev pub Idle : Worker → Type 0
Idle worker = (k b : ℕ) × IsValid k b worker.local_queue × (contents b worker.local_queue ≡ [])

abbrev pub IdleAt : ℕ → List Worker → Type 0
IdleAt i workers = (worker : Worker) → get_elem? workers i ≡ some worker → Idle worker

-- The workers of a new scheduler have valid queues.
pub new_workers-Valid :
    (address : ℕ → ℕ) (i n : ℕ) (ebr : EbrManager) → All Valid (new_workers address i n ebr).1
unfolding new_workers new_worker
new_workers-Valid address i zero ebr = tt
new_workers-Valid address i (suc n) ebr = (
  (10, 0, new_queue-IsValid (address i) (new_worker (address i) i ebr).1.ebr_state),
  new_workers-Valid address (suc i) n (new_worker (address i) i ebr).0,
)

steal-misses :
    {k b : ℕ} {q : StealQueue}
    → IsValid k b q
    → (Steal.steal q).1 ≡ none
    → (contents b q ≡ []) × (Steal.steal q ≡ (q, none))
steal-misses v e = elim (steal-Takes v) [
  | inl found_none ↦ found_none
  | inr (p, b', found, v', split) ↦ absurd (let e' = sym found ∙ e in cc)
]

pop-misses :
    {k b : ℕ} {q : StealQueue}
    → IsValid k b q
    → (Steal.pop q).1 ≡ none
    → (contents b q ≡ []) × (Steal.pop q ≡ (q, none))
pop-misses v e = elim (pop-Takes v) [
  | inl found_none ↦ found_none
  | inr (p, b', found, v', split) ↦ absurd (let e' = sym found ∙ e in cc)
]

steal_worker-misses :
    (w : Worker) → Valid w → (steal_worker w).1 ≡ none → ((steal_worker w).0 ≡ w) × Idle w
unfolding steal_worker
steal_worker-misses w (k, b, v) e =
    let (empty, same) = steal-misses v e in
    (ap (λ (r : StealQueue × Option Task). record w { local_queue = r.0 }) same, (k, b, v, empty))

at_front : (w w' : Worker) → some w ≡ some w' → Idle w → Idle w'
at_front w w' e idle = let same : w ≡ w' = cc in subst Idle same idle

pub steal_at-misses :
    (idx : ℕ) (ws : List Worker)
    → All Valid ws
    → (steal_at idx ws).1 ≡ none
    → ((steal_at idx ws).0 ≡ ws) × IdleAt idx ws
unfolding steal_at
steal_at-misses idx [] v e = (refl, λ w e'. cc)
steal_at-misses zero (w ∷ ws) v e =
    let (same, idle) = steal_worker-misses w v.0 e in
    (ap (λ u. u ∷ ws) same, λ w' e'. at_front w w' e' idle)
steal_at-misses (suc idx) (w ∷ ws) v e =
    let (same, idle) = steal_at-misses idx ws v.1 e in (ap (λ us. w ∷ us) same, idle)

pub pop_at-misses :
    (i : ℕ) (ws : List Worker)
    → All Valid ws
    → (pop_at i ws).1 ≡ none
    → ((pop_at i ws).0 ≡ ws) × IdleAt i ws
unfolding pop_at
pop_at-misses i [] v e = (refl, λ w e'. cc)
pop_at-misses zero (w ∷ ws) ((k, b, v), vs) e =
    let (empty, same) = pop-misses v e in
    (
      ap (λ (r : StealQueue × Option Task). record w { local_queue = r.0 } ∷ ws) same,
      λ w' e'. at_front w w' e' (k, b, v, empty),
    )
pop_at-misses (suc i) (w ∷ ws) v e =
    let (same, idle) = pop_at-misses i ws v.1 e in (ap (λ us. w ∷ us) same, idle)
