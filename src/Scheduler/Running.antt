-- ===== src/Scheduler/Running.antt =====
-- include/scheduler.h: `Worker::run`, turn by turn, and what is destroyed with a `Scheduler`.
pub mod Life
pub mod Destruction
use tiny_coro_build_your_own.Common.{
  ℕ, zero, suc, Bool, true, false, Option, none, some, List, [], ◌∷◌, if◌then◌else◌, get_elem?,
}
use tiny_coro_build_your_own.Task.{◌>>=◌, Frames, destruct}
use tiny_coro_build_your_own.Parker
use tiny_coro_build_your_own.Parker.{try_park, reset}
use tiny_coro_build_your_own.Queue.Global.{GlobalQueue}
use tiny_coro_build_your_own.Scheduler.{Worker, World, ran, parks, run_once}

-- A turn of the loop: the random number of its search, and what other threads do before the test of
-- the stop flag, before each round of polling, and while the worker waits in `park`, until it is woken.
pub record Turn : Type 0 where
  pub start : ℕ
  pub before : World → World
  pub polling : ℕ → World → World
  pub parked : World → World

unfoldable pub change_parker : (Parker.State → Parker.State) → ℕ → List Worker → List Worker
change_parker f i [] = []
change_parker f zero (worker ∷ workers) = record worker { parker = f worker.parker } ∷ workers
change_parker f (suc i) (worker ∷ workers) = worker ∷ change_parker f i workers

abbrev pub with_parker : (Parker.State → Parker.State) → ℕ → World → World
with_parker f i w = record w {
  scheduler = record (w.scheduler) { workers = change_parker f i w.scheduler.workers };
}

-- Whether the compare-exchange of `park` is won, so that the worker waits.
abbrev pub waits : ℕ → World → Bool
waits i w = elim (get_elem? w.scheduler.workers i) [
  | none ↦ false
  | some worker ↦ (try_park worker.parker).1
]

-- `parker_.park()`
unfoldable pub park : ℕ → (World → World) → World → World
park i others w =
    let w₁ = with_parker (λ p. (try_park p).0) i w in
    with_parker reset i (if waits i w then others w₁ else w₁)

module _ (body : ℕ → World → Option World) (i ls : ℕ) where
  -- `run` of worker i, whose state in the manager is `ls`: where it is after these turns, and whether it
  -- has left the loop.
  unfoldable pub run : List Turn → World → Option (World × Bool)
  unfolding park
  run [] w = some (w, false)
  run (t ∷ ts) w =
      let w₁ = t.before w in
      let continued = (do
        (w₂, outcome) ← run_once body t.polling i ls t.start w₁
        run ts (elim outcome [ ran ↦ w₂ | parks ↦ park i t.parked w₂ ])) in
      if w₁.scheduler.stop then some (w₁, true) else continued

-- The destructors of the tasks in the deque.
unfoldable pub clear : GlobalQueue → Frames → Option Frames
clear [] fs = some fs
clear (t ∷ ts) fs = do fs' ← destruct t fs; clear ts fs'

-- The frames after the members of a `Scheduler` are destroyed, at the end of `~Scheduler`: timers and
-- the arrays of work-stealing queues hold plain addresses, only the global queue holds tasks.
unfoldable pub destroy : World → Option Frames
unfolding clear
destroy w = clear w.scheduler.global_queue w.shared.frames
