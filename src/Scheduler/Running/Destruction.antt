-- ===== src/Scheduler/Running/Destruction.antt =====
-- include/scheduler.h: which coroutines outlive their scheduler.
use tiny_coro_build_your_own.Common.{
  ℕ, ◌<◌, ◌≡◌, ◌≢◌, ◌↔◌, refl, Option, none, some, List, [], ◌∷◌, ◌++◌, arith, count, count-append,
  ℕ_discrete,
}
use tiny_coro_build_your_own.Task.{Frames, Promise, Task, ◌>>=◌, destruct}
use tiny_coro_build_your_own.Task.Ownership.{Counted, Counts, count-erase}
use tiny_coro_build_your_own.Task.Resuming.{same_counts-Counted, destruct-Counted}
use tiny_coro_build_your_own.Queue.Global.{GlobalQueue}
use tiny_coro_build_your_own.Scheduler.{World}
use tiny_coro_build_your_own.Scheduler.Ownership.{worker_refs, handles}
use tiny_coro_build_your_own.Scheduler.Ownership.State.{timer_refs, Sound}
use tiny_coro_build_your_own.Scheduler.Running.{clear, destroy}

abbrev Clears : GlobalQueue → List ℕ → Frames → Type 0
Clears g others fs = (fs' : Frames) × (clear g fs ≡ some fs') × Counted fs' others

-- A reference less.
destruct-front :
    (t : Task) (others : List ℕ) (fs : Frames)
    → Counted fs (t.handle ∷ others)
    → (fs' : Frames) × (destruct t fs ≡ some fs') × Counted fs' others
unfolding destruct
destruct-front t others fs inv = elim (ℕ_discrete t.handle 0) [
  | yes null ↦ (fs, ground (arith, null), same_counts-Counted inv (λ a nz. ground (arith, null)))
  | no live ↦
      let held : 0 < count t.handle (t.handle ∷ others) = ground arith in
      let (fs', gone, inv') = destruct-Counted inv t live held in
      (
        fs',
        gone,
        same_counts-Counted inv'
            (λ a nz. let e = count-erase t.handle a (t.handle ∷ others) held in ground (arith, e)),
      )
]

clear-Clears :
    (g : GlobalQueue) (others : List ℕ) (fs : Frames)
    → Counted fs (handles g ++ others)
    → Clears g others fs
unfolding clear
clear-Clears [] others fs inv = (fs, refl, inv)
clear-Clears (t ∷ g) others fs inv =
    let (fs', gone, inv') = destruct-front t (handles g ++ others) fs inv in
    let (fs'', cleared, inv'') = clear-Clears g others fs' inv' in
    (fs'', rw (gone, ◌>>=◌) cleared, inv'')

-- When a scheduler is destroyed in a sound state, no frame that is gone is touched, and each frame is gone afterwards
-- exactly if no timer, no worker's own queue and no code outside the queues holds a reference to it: those to which
-- only these refer are never destroyed.
pub destroy-leaves :
    (ext : List ℕ) (w : World)
    → Sound ext w
    → (fs : Frames) × (destroy w ≡ some fs)
      × ((a : ℕ)
          → a ≢ 0
          → (fs a ≡ none) ↔ (
              count a (worker_refs w.scheduler.workers ++ (ext ++ timer_refs w.reactor.timers))
              ≡ 0))
unfolding destroy
destroy-leaves ext w v =
    let others = worker_refs w.scheduler.workers ++ (ext ++ timer_refs w.reactor.timers) in
    let g = w.scheduler.global_queue in
    let (fs, cleared, inv) = clear-Clears g others w.shared.frames (
      same_counts-Counted v.counted (λ a nz. omega (
        arith,
        count-append a (handles g ++ worker_refs w.scheduler.workers)
            (ext ++ timer_refs w.reactor.timers),
        count-append a (handles g) (worker_refs w.scheduler.workers),
        count-append a (handles g) others,
        count-append a (worker_refs w.scheduler.workers) (ext ++ timer_refs w.reactor.timers),
      ))) in
    (fs, cleared, λ a nz. gone_iff (fs a) (inv.counts a nz))
  where
    gone_iff : {n : ℕ} (f : Option Promise) → Counts f n → (f ≡ none) ↔ (n ≡ 0)
    gone_iff none c = ((λ e. c), (λ e. refl))
    gone_iff (some p) c = ((λ e. absurd (cc)), (λ e. absurd (omega (arith, c.1, e))))
