-- ===== src/Scheduler/Ownership/Tests.antt =====
-- The theorem on a worker's turn at a queued coroutine that runs to its end.
use mathlib.Core.Path.{subst}
use tiny_coro_build_your_own.Common.{
  ℕ, suc, ◌*◌, ◌≡◌, refl, sym, true, false, Option, none, some, List, [], ◌∷◌, ◌↔◌, ◌≢◌, All, count,
  ◌++◌, arith, update, ◌==◌, if◌then◌else◌,
}
use tiny_coro_build_your_own.Task.{Promise, Frames, ◌>>=◌, final_suspend}
use tiny_coro_build_your_own.Task.Ownership.{Counted}
use tiny_coro_build_your_own.Task.Resuming.{write-Counted}
use tiny_coro_build_your_own.Ebr
use tiny_coro_build_your_own.Queue.Steal.{new_queue}
use tiny_coro_build_your_own.Queue.Array.Slots.{window}
use tiny_coro_build_your_own.Scheduler.{Scheduler, World, with_frames, new_workers, new_worker}
use tiny_coro_build_your_own.Scheduler.Search.{new_workers-Valid}
use tiny_coro_build_your_own.Scheduler.Ownership.{refs, worker_refs}
use tiny_coro_build_your_own.Scheduler.Running.{Turn, run, destroy}
use tiny_coro_build_your_own.Scheduler.Running.Life.{
  Considerate, Stands, run-Sound, peer, peer-Leaves,
}
use tiny_coro_build_your_own.Scheduler.Running.Destruction.{destroy-leaves}
use tiny_coro_build_your_own.Reactor.{Round, shut_down}
use tiny_coro_build_your_own.Reactor
use tiny_coro_build_your_own.Reactor.Ownership.{shut_down-Sound, quiet_turn-Leaves}
use tiny_coro_build_your_own.Scheduler.Ownership.State.{Sound}
use tiny_coro_build_your_own.Scheduler.Ownership.Turn.{Behaves}

-- Code that goes on to the final suspend point.
abbrev finishes : ℕ → World → Option World
finishes a w = do (fs, next) ← final_suspend a w.shared.frames; some (with_frames fs w)

finishes-Behaves : Behaves finishes
unfolding final_suspend
finishes-Behaves a ext w nz (p, live, runs, unfinished) v =
    let p' : Promise = record p { is_running = false; at_end = true } in
    (
      with_frames (update w.shared.frames a (some p')) w,
      ext,
      rw (live, ◌>>=◌) refl,
      record { counted = write-Counted a p' v.counted live refl; queues = v.queues },
    )

abbrev promise : Promise
promise = record { ref_count = 1; is_running = false; continuation = 0; at_end = false }

abbrev one_frame : Frames
one_frame a = if 8 == a then some promise else none

-- Two workers, and a coroutine in the global queue.
abbrev one_task : Scheduler
one_task = record {
  global_queue = record { handle = 8 } ∷ [];
  workers = (new_workers (λ i. 4096 * suc i) 0 2 Ebr.init).1;
  stop = false;
  next = 0;
}

one_ref : refs one_task ++ [] ≡ 8 ∷ []
unfolding new_workers new_worker new_queue window
one_ref = refl

one_frame-Counted : Counted one_frame (8 ∷ [])
one_frame-Counted = record { counts = λ a nz. ground arith }

abbrev world : World
world = record {
  shared = record { frames = one_frame; ebr = Ebr.init };
  scheduler = one_task;
  reactor = record { running = true; timers = []; poller = record { epoll_fd = 3; wake_fd = 4 } };
  calls = [];
}

world-Sound : Sound [] world
world-Sound = record {
  counted = subst (Counted one_frame) (sym one_ref) one_frame-Counted;
  queues = new_workers-Valid (λ i. 4096 * suc i) 0 2 Ebr.init;
}

abbrev quiet : ℕ → World → World
quiet k w = w

-- A second coroutine, of which a timer holds the address.
abbrev two_frames : Frames
two_frames a = if 8 == a then some promise else (if 16 == a then some promise else none)

abbrev sleeping : World
sleeping = record world {
  shared = record { frames = two_frames; ebr = Ebr.init };
  reactor = record (world.reactor) { timers = record { expiry = 1000; handle = 16 } ∷ [] };
}

two_frames-Counted : Counted two_frames (8 ∷ 16 ∷ [])
two_frames-Counted = record { counts = λ a nz. ground arith }

two_refs : refs one_task ++ 16 ∷ [] ≡ 8 ∷ 16 ∷ []
unfolding new_workers new_worker new_queue window
two_refs = refl

sleeping-Sound : Sound [] sleeping
sleeping-Sound = record {
  counted = subst (Counted two_frames) (sym two_refs) two_frames-Counted;
  queues = world-Sound.queues;
}

-- A turn in which nothing comes in between.
abbrev alone : Turn
alone = record { start = 1; before = λ w. w; polling = quiet; parked = λ w. w }

alone-Considerate : Considerate alone
alone-Considerate = ((λ w ext v. (ext, v)), (λ k w ext v. (ext, v)), (λ w ext v. (ext, v)))

-- The reactor finds the timer due.
abbrev round : Round
round = record { now = 500; others = λ m w. w; events = []; later = 2000 }

-- Worker 1 runs before the first turn of worker 0, the reactor before the second, and the scheduler is
-- shut down before the third.
abbrev turns : List Turn
turns =
    record alone { before = peer finishes 1 1 (alone ∷ []) }
    ∷ record alone { before = Reactor.turn round }
    ∷ record alone { before = shut_down }
    ∷ []

turns-Considerate : All Considerate turns
turns-Considerate =
    let (nothing, polling, parked) = alone-Considerate in
    (
      (
        peer-Leaves finishes 1 1 (alone ∷ []) finishes-Behaves (alone-Considerate, tt),
        polling,
        parked,
      ),
      (
        (quiet_turn-Leaves round refl (λ m w ext v. (ext, v)), polling, parked),
        (((λ w ext v. (ext, shut_down-Sound ext w v)), polling, parked), tt),
      ),
    )

run-Sound_example : Stands (run finishes 0 0 turns sleeping)
run-Sound_example =
    run-Sound finishes 0 0 turns [] sleeping finishes-Behaves turns-Considerate sleeping-Sound

destroy-leaves_example :
    (fs : Frames) × (destroy sleeping ≡ some fs)
    × ((a : ℕ)
        → a ≢ 0
        → (fs a ≡ none) ↔ (count a (worker_refs sleeping.scheduler.workers ++ 16 ∷ []) ≡ 0))
destroy-leaves_example = destroy-leaves [] sleeping sleeping-Sound
