-- ===== src/Scheduler/Ownership/Spawn.antt =====
-- include/scheduler.h, `spawn`: the caller's reference becomes the queue's.
use tiny_coro_build_your_own.Common.{
  ℕ, zero, suc, ◌+◌, ◌%◌, ◌≡◌, refl, sym, ap, Bool, ◌≢◌, inl, inr, List, [], ◌∷◌, ◌++◌, arith, All,
  length, count, count-append, ◌==◌, Bool-cases, is_empty,
}
use tiny_coro_build_your_own.Task.{Task, detach}
use tiny_coro_build_your_own.Task.Resuming.{same_counts-Counted}
use tiny_coro_build_your_own.Queue.Global.{GlobalQueue}
use tiny_coro_build_your_own.Scheduler.{Worker, Scheduler, World, wake_at, wake, spawn}
use tiny_coro_build_your_own.Scheduler.Spawn.{queued, spawn-queue}
use tiny_coro_build_your_own.Scheduler.Search.{Valid}
use tiny_coro_build_your_own.Scheduler.Ownership.{worker_refs, handles, refs, entries}
use tiny_coro_build_your_own.Scheduler.Ownership.State.{Accounted}

-- The queues of the workers are those before.
abbrev pub Same : List Worker → List Worker → Type 0
Same ws ws' =
    (worker_refs ws' ≡ worker_refs ws) × (All Valid ws → All Valid ws') × (length ws' ≡ length ws)

-- The flag and the counter play no part.
pub same_workers-Accounted :
    {ext : List ℕ} {w : World} (ws : List Worker) (stop : Bool) (next : ℕ)
    → Accounted ext w
    → Same w.scheduler.workers ws
    → Accounted ext
        (record w { scheduler = record (w.scheduler) { workers = ws; stop = stop; next = next } })
same_workers-Accounted {ext} {w} ws stop next v (same, keeps, _) = record {
  counted =
      same_counts-Counted v.counted
        (λ a nz. ap (λ rs. count a ((handles w.scheduler.global_queue ++ rs) ++ ext)) (sym same));
  queues = keeps v.queues;
}

wake_at-Same : (i : ℕ) (ws : List Worker) → Same ws (wake_at i ws)
unfolding wake_at wake
wake_at-Same i [] = (refl, (λ v. v), refl)
wake_at-Same zero (w ∷ ws) = (refl, (λ v. v), refl)
wake_at-Same (suc i) (w ∷ ws) =
    let (same, keeps, size) = wake_at-Same i ws in
    (ap (λ rs. entries w.local_queue ++ rs) same, (λ v. (v.0, keeps v.1)), ap suc size)

pub spawn-Same : (t : Task) (s : Scheduler) → Same s.workers (spawn t s).workers
unfolding spawn detach
spawn-Same t s = elim (Bool-cases (t.handle == 0)) [
  | inl null ↦ rw null (refl, (λ v. v), refl)
  | inr live ↦ elim (Bool-cases (is_empty s.workers)) [
    | inl alone ↦ rw (live, alone) (refl, (λ v. v), refl)
    | inr several ↦ rw (live, several) (wake_at-Same (s.next % length s.workers) s.workers)
  ]
]

pub handles-append :
    (a : ℕ) (g g' : GlobalQueue)
    → count a (handles (g ++ g')) ≡ count a (handles g) + count a (handles g')
handles-append a [] g' = omega arith
handles-append a (t ∷ g) g' = omega (arith, handles-append a g g')

queued-count : (a p : ℕ) → a ≢ 0 → count a (handles (queued p)) ≡ count a (p ∷ [])
queued-count a p nz = ground arith

-- After `spawn` the scheduler refers to the frame in the caller's place, if the task is not null.
pub spawn-Accounted :
    {ext : List ℕ} (t : Task) (w : World)
    → Accounted (t.handle ∷ ext) w
    → Accounted ext (record w { scheduler = spawn t w.scheduler })
spawn-Accounted {ext} t w v =
    let s' = spawn t w.scheduler in
    let (same, keeps, size) = spawn-Same t w.scheduler in
    record {
      counted = same_counts-Counted v.counted (λ a nz. omega (
        arith,
        count-append a (refs w.scheduler) (t.handle ∷ ext),
        count-append a (handles w.scheduler.global_queue) (worker_refs w.scheduler.workers),
        count-append a (refs s') ext,
        count-append a (handles s'.global_queue) (worker_refs s'.workers),
        ap (count a) same,
        ap (λ g. count a (handles g)) (spawn-queue t w.scheduler),
        handles-append a w.scheduler.global_queue (queued t.handle),
        queued-count a t.handle nz,
      ));
      queues = keeps v.queues;
    }
