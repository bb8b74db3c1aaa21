-- ===== src/AsyncMutex/Tests.antt =====
-- The theorems on the mutex with one coroutine that holds it and another that waits.
use tiny_coro_build_your_own.Common.{
  ℕ, ◌≡◌, refl, true, false, [], ◌∷◌, ◌++◌, update, ◌≢◌, Option, none, some, arith, if◌then◌else◌,
  ◌==◌,
}
use tiny_coro_build_your_own.Scheduler.{Scheduler, spawn, World, with_frames, run_task}
use tiny_coro_build_your_own.Ebr
use tiny_coro_build_your_own.Task.{Promise, Frames, from_address}
use tiny_coro_build_your_own.AsyncMutex.{
  AsyncMutex, await_ready, await_suspend, unlock, unlock_with,
}
use tiny_coro_build_your_own.AsyncMutex.Dangling.{lock-dangles}
use tiny_coro_build_your_own.AsyncMutex.System.{
  Pc, outside, holding, waiting, trying, System, readies, suspends, unlocks, Reach, start, next,
}
use tiny_coro_build_your_own.AsyncMutex.Exclusion.{mutual_exclusion}
use tiny_coro_build_your_own.AsyncMutex.Fairness.{Run, stop, more}

abbrev idle : Scheduler
idle = record { global_queue = []; workers = []; stop = false; next = 0 }

abbrev all_outside : ℕ → Pc
all_outside i = outside

-- Coroutine 8 holds the lock and 16 waits for it.
abbrev contended : System
contended = record {
  mutex = record { locked = true; waiters = 16 ∷ [] };
  scheduler = idle;
  pc = update (update (update all_outside 8 holding) 16 trying) 16 waiting;
}

history : Reach idle contended
unfolding await_ready await_suspend
history = next (next (next start (readies 8 refl)) (readies 16 refl)) (suspends 16 refl)

abbrev holder : ℕ
holder = 8

mutual_exclusion_example : holder ≡ 8
mutual_exclusion_example = mutual_exclusion history 8 8 refl refl

abbrev released : System
released = record {
  mutex = record { locked = true; waiters = [] };
  scheduler = spawn (from_address 16) idle;
  pc = update (update contended.pc 8 outside) 16 holding;
}

one_unlock : Run contended released
unfolding unlock unlock_with
one_unlock = more stop (unlocks 8 refl)

abbrev promise : Promise
promise = record { ref_count = 1; is_running = false; continuation = 0; at_end = false }

abbrev one_frame : Frames
one_frame a = if 8 == a then some promise else none

abbrev world : World
world = record {
  shared = record { frames = one_frame; ebr = Ebr.init };
  scheduler = idle;
  reactor = record { running = true; timers = []; poller = record { epoll_fd = 3; wake_fd = 4 } };
  calls = [];
}

abbrev does_nothing : ℕ → World → Option World
does_nothing h w = some w

abbrev during : World
during = with_frames (update one_frame 8 (some (record promise { is_running = true }))) world

abbrev held : AsyncMutex
held = record { locked = true; waiters = [] }

abbrev address : ℕ
address = 8

nonzero : address ≢ 0
nonzero e = omega arith

lock-dangles_example :
    (let (m', suspended) = await_suspend 8 held in
      (suspended ≡ true)
      × ((v : World) × (run_task does_nothing (record { handle = 8 }) world ≡ some v)
          × (let (m'', scheduler) = unlock m' v.scheduler in
              (scheduler.global_queue ≡ v.scheduler.global_queue ++ record { handle = 8 } ∷ [])
              × ((body : ℕ → World → Option World)
                  → run_task body (record { handle = 8 }) (record v { scheduler = scheduler })
                    ≡ none))))
lock-dangles_example =
    lock-dangles does_nothing 8 held world during refl refl nonzero
      (record { promise = promise; live = refl; not_done = refl; counted = refl }) refl refl
      (record {
        promise = record promise { is_running = true };
        live = refl;
        not_done = refl;
        counted = refl;
      })
