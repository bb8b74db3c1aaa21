-- ===== src/Scheduler/Contract/Refinement.antt =====
-- include/scheduler.h: a `Scheduler` with valid queues keeps its contract.
use mathlib.Core.Path.{subst}
use tiny_coro_build_your_own.Common.{
  ℕ, suc, ◌+◌, ◌<◌, ◌≡◌, refl, sym, ap, ap₂, ◌∙◌, inl, inr, Option, none, some, List, [], ◌∷◌, ◌++◌,
  arith, All, count, count-append, length, ◌==◌, Bool-cases,
}
use tiny_coro_build_your_own.Common.Bag.{
  bag, put_all, occurrences, same_bag, bag-put, occurrences-bag,
}
use tiny_coro_build_your_own.Task.{Task}
use tiny_coro_build_your_own.Scheduler.{Worker, Scheduler, spawn, pop_global, find_task}
use tiny_coro_build_your_own.Scheduler.Spawn.{queued, spawn-queue}
use tiny_coro_build_your_own.Scheduler.Search.{Valid, IdleAt}
use tiny_coro_build_your_own.Scheduler.Search.Finding.{find_task-misses}
use tiny_coro_build_your_own.Scheduler.Ownership.{worker_refs, handles, refs, entries-contents}
use tiny_coro_build_your_own.Scheduler.Ownership.Handing.{Hands, pop_global-Hands, find_task-Hands}
use tiny_coro_build_your_own.Scheduler.Ownership.Spawn.{handles-append, spawn-Same}
use tiny_coro_build_your_own.Scheduler.Contract.{
  Op, spawns, searches, polls, perform, tasks, spawned_by, Allowed, Fits, history, Runs, spawned,
  returned, Runs-balance,
}

abbrev Kept : ℕ → Scheduler → Type 0
Kept n s = All Valid s.workers × (length s.workers ≡ n)

spawn-count :
    (a : ℕ) (t : Task) (s : Scheduler)
    → count a (refs (spawn t s)) ≡ count a (handles (queued t.handle)) + count a (refs s)
spawn-count a t s = omega (
  arith,
  count-append a (handles s.global_queue) (worker_refs s.workers),
  count-append a (handles (spawn t s).global_queue) (worker_refs (spawn t s).workers),
  ap (count a) (spawn-Same t s).0,
  ap (λ g. count a (handles g)) (spawn-queue t s),
  handles-append a s.global_queue (queued t.handle),
)

spawn-Allowed :
    (t : Task) (s : Scheduler) → tasks (spawn t s) ≡ put_all (spawned_by (spawns t)) (tasks s)
unfolding put_all
spawn-Allowed t s = elim (Bool-cases (t.handle == 0)) [
  | inl null ↦ rw null (same_bag (λ a. let e = spawn-count a t s in ground (arith, e, null)))
  | inr live ↦
      rw live
        (bag-put t.handle (refs s) (λ a. let e = spawn-count a t s in ground (arith, e, live)))
]

idle-refs : (ws : List Worker) → ((x : ℕ) → x < length ws → IdleAt x ws) → worker_refs ws ≡ []
idle-refs [] idle = refl
idle-refs (w ∷ ws) idle =
    let (k, b, v, empty) = idle 0 (omega arith) w refl in
    ap₂ (λ xs ys. xs ++ ys) (entries-contents v ∙ empty)
      (idle-refs ws (λ x lx. idle (suc x) (omega (arith, lx))))

pub search-Allowed :
    (i start : ℕ) (s : Scheduler) (r : Scheduler × Option Task)
    → find_task i start s ≡ r
    → Hands s r
    → All Valid s.workers
    → Fits (length s.workers) (searches i start)
    → Allowed (searches i start) (tasks s) r.1 (tasks r.0)
search-Allowed i start s (s', some t) e (_, split, _) v fits =
    bag-put t.handle (refs s') (λ a. omega (arith, split a))
search-Allowed i start s (s', none) e (_, split, _) v (li, ls) =
    let (same, empty, idle) = find_task-misses i start s v li ls (ap (λ r. r.1) e) in
    (
      ap bag (ap₂ (λ g rs. handles g ++ rs) empty (idle-refs s.workers idle)),
      ap tasks (sym (ap (λ r. r.0) e) ∙ same),
    )

poll-Allowed :
    (s : Scheduler) (r : Scheduler × Option Task)
    → Hands s r
    → Allowed polls (tasks s) r.1 (tasks r.0)
poll-Allowed s (s', some t) (_, split, _) = bag-put t.handle (refs s') (λ a. omega (arith, split a))
poll-Allowed s (s', none) (_, split, _) = same_bag (λ a. omega (arith, split a))

perform-Allowed :
    (n : ℕ) (o : Op) (s : Scheduler)
    → Kept n s
    → Fits n o
    → Kept n (perform o s).0 × Allowed o (tasks s) (perform o s).1 (tasks (perform o s).0)
unfolding perform
perform-Allowed n (spawns t) s (v, size) fits =
    let (_, keeps, same) = spawn-Same t s in ((keeps v, same ∙ size), (refl, spawn-Allowed t s))
perform-Allowed n polls s (v, size) fits =
    let (v', split, same) = pop_global-Hands s v in
    ((v', same ∙ size), poll-Allowed s (pop_global s) (v', split, same))
perform-Allowed n (searches i start) s (v, size) fits =
    let (v', split, same) = find_task-Hands i start s v in
    (
      (v', same ∙ size),
      search-Allowed i start s (find_task i start s) refl (v', split, same) v
          (subst (λ m. Fits m (searches i start)) (sym size) fits),
    )

history-Kept :
    (n : ℕ) (os : List Op) (s : Scheduler)
    → Kept n s
    → All (Fits n) os
    → Kept n (history os s).1 × Runs os (tasks s) (history os s).0 (tasks (history os s).1)
unfolding history
history-Kept n [] s kept fits = (kept, refl)
history-Kept n (o ∷ os) s kept (fit, fits) =
    let (kept', allowed) = perform-Allowed n o s kept fit in
    let (at_end, runs) = history-Kept n os (perform o s).0 kept' fits in
    (at_end, (tasks (perform o s).0, allowed, runs))

-- A history of calls on a scheduler with valid queues, each search by one of its workers and with a random number below
-- their number, is one that the contract allows: with the order and the places of the tasks forgotten, `spawn` puts a
-- task that is not null into the bag, a search takes one out and gives none only if the bag is empty, and a look at the
-- global queue takes one out or leaves the bag as it is.
pub history-Runs :
    (os : List Op) (s : Scheduler)
    → All Valid s.workers
    → All (Fits (length s.workers)) os
    → Runs os (tasks s) (history os s).0 (tasks (history os s).1)
history-Runs os s v fits = (history-Kept (length s.workers) os s (v, refl) fits).1

search_at_end :
    (i start : ℕ) (s : Scheduler)
    → All Valid s.workers
    → Fits (length s.workers) (searches i start)
    → (find_task i start s).1 ≡ none
    → tasks s ≡ bag []
search_at_end i start s v fits missed =
    let r = find_task i start s in
    (subst (λ t. Allowed (searches i start) (tasks s) t (tasks r.0)) missed
      (search-Allowed i start s r refl (find_task-Hands i start s v) v fits)).0

-- A scheduler starts with empty queues. If after a history of calls another search finds no task, each search by one of
-- its workers and with a random number below their number, then the calls have returned each task exactly as often as it
-- was given to the scheduler.
pub each_returned :
    (os : List Op) (i start a : ℕ) (s : Scheduler)
    → All Valid s.workers
    → All (Fits (length s.workers)) os
    → i < length s.workers
    → start < length s.workers
    → refs s ≡ []
    → (find_task i start (history os s).1).1 ≡ none
    → count a (returned (history os s).0) ≡ count a (spawned os)
each_returned os i start a s v fits li ls empty missed =
    let ((v', size), runs) = history-Kept (length s.workers) os s (v, refl) fits in
    let end = (history os s).1 in
    let none_left = search_at_end i start end v' (rw size (li, ls)) missed in
    omega (
      arith,
      Runs-balance a os (tasks s) (tasks end) (history os s).0 runs,
      occurrences-bag a (refs s),
      ap (count a) empty,
      ap (occurrences a) none_left,
      occurrences-bag a [],
    )
