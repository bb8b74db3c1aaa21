-- ===== src/Scheduler/Tests.antt =====
-- The theorems on workers at small systems.
use tiny_coro_build_your_own.Common.{
  ℕ, length, suc, ◌≤◌, ◌*◌, ◌≡◌, refl, ◌≢◌, ◌<◌, Bool, true, false, Option, none, some, [], arith,
  update, if◌then◌else◌, ◌==◌, ltb, All,
}
use tiny_coro_build_your_own.Task.{Frames, Promise, end_resume, destruct}
use tiny_coro_build_your_own.Parker.{unpark, empty}
use tiny_coro_build_your_own.Ebr
use tiny_coro_build_your_own.Queue.Global.{push_ptr, push}
use tiny_coro_build_your_own.Scheduler.{
  new_worker, new_workers, Scheduler, find_task, pop_at, pop_global, steal, steal_loop, steal_at,
  steal_worker, World, run_task, run_once, spawn, with_ebr,
}
use tiny_coro_build_your_own.Scheduler.Wake.{
  System, pushes, wakes, stops, Reach, start, next, start_system,
}
use tiny_coro_build_your_own.Scheduler.Wake.Progress.{
  Takes, Exits, next_task_is_taken, shutdown_ends,
}
use tiny_coro_build_your_own.Common.Int.{◌-ℤ◌}
use tiny_coro_build_your_own.Queue.Steal
use tiny_coro_build_your_own.Queue.Steal.{new_queue}
use tiny_coro_build_your_own.Queue.Global
use tiny_coro_build_your_own.Scheduler.Search.{Valid, new_workers-Valid}
use tiny_coro_build_your_own.Scheduler.Turn.{Polls, run_once-Polls}
use tiny_coro_build_your_own.Scheduler.Lifetimes.{resume_lost}

-- One worker; a task is pushed and the worker woken.
abbrev spawned : System
spawned = record start_system {
  queue = (push_ptr 8 []).0;
  waking = update (update start_system.waking 0 1) 0 0;
  parkers = update start_system.parkers 0 (unpark empty).0;
}

spawned-Reach : Reach 1 spawned
spawned-Reach = next (next start (pushes 0 8 (omega arith))) (wakes 0 (omega arith))

some_left : spawned.queue ≢ []
unfolding push_ptr push
some_left e = cc

next_task_is_taken_example : (i : ℕ) × (i < 1) × ((k : ℕ) × (k ≤ 4) × Takes 1 i k spawned)
next_task_is_taken_example = next_task_is_taken spawned-Reach refl some_left (λ i. ground arith)

abbrev stopped : System
stopped = record start_system {
  stop = true;
  waking = update (λ j. if ltb j 1 then 1 else 0) 0 0;
  parkers = update start_system.parkers 0 (unpark empty).0;
}

stopped-Reach : Reach 1 stopped
stopped-Reach = next (next start stops) (wakes 0 (omega arith))

shutdown_ends_example : (k : ℕ) × (k ≤ 4) × Exits 1 0 k stopped
shutdown_ends_example = shutdown_ends stopped-Reach refl (λ i. ground arith) 0 (omega arith)

-- One frame, with `refs` references.
abbrev promise : Bool → ℕ → Promise
promise is_running refs = record {
  ref_count = refs;
  is_running = is_running;
  continuation = 0;
  at_end = false;
}

abbrev one_frame : Bool → ℕ → Frames
one_frame is_running refs a = if 8 == a then some (promise is_running refs) else none

abbrev world : Frames → World
world fs = record {
  shared = record { frames = fs; ebr = Ebr.init };
  scheduler = record { global_queue = []; workers = []; stop = false; next = 0 };
  reactor = record { running = true; timers = []; poller = record { epoll_fd = 3; wake_fd = 4 } };
  calls = [];
}

abbrev address : ℕ
address = 8

nonzero : address ≢ 0
nonzero e = omega arith

-- Code that does nothing before it suspends.
abbrev does_nothing : ℕ → World → Option World
does_nothing h w = some w

resume_lost_example :
    (w' : World) × (run_task does_nothing (record { handle = 8 }) (world (one_frame true 2))
      ≡ some w')
    × (w'.scheduler ≡ (world (one_frame true 2)).scheduler)
    × (w'.reactor ≡ (world (one_frame true 2)).reactor)
    × ((fs fs' : Frames) × (end_resume (record { handle = 8 }) w'.shared.frames ≡ some fs)
        × (destruct (record { handle = 8 }) fs ≡ some fs')
        × (fs' 8 ≡ none))
resume_lost_example =
    resume_lost does_nothing 8 (world (one_frame true 2)) nonzero
      (record { promise = promise true 2; live = refl; not_done = refl; counted = refl }) refl

-- A new scheduler with two workers.
abbrev idle_pair : Scheduler
idle_pair = record {
  global_queue = [];
  workers = (new_workers (λ i. 4096 * suc i) 0 2 Ebr.init).1;
  stop = false;
  next = 0;
}

idle_pair-Valid : All Valid idle_pair.workers
idle_pair-Valid = new_workers-Valid (λ i. 4096 * suc i) 0 2 Ebr.init

two_workers : length idle_pair.workers ≡ 2
unfolding new_workers
two_workers = refl

nothing_found : (find_task 0 1 idle_pair).1 ≡ none
unfolding new_workers new_worker Ebr.register_thread find_task pop_at Steal.pop pop_global
    Global.pop steal steal_loop steal_at steal_worker Steal.steal new_queue ◌-ℤ◌
nothing_found = refl

abbrev idle_world : World
idle_world = record (world (one_frame true 2)) { scheduler = idle_pair }

-- Another thread spawns a task before the third round.
abbrev spawns_late : ℕ → World → World
spawns_late k w =
    if k == 48 then record w { scheduler = spawn (record { handle = 8 }) w.scheduler } else w

run_once-Polls_example :
    Polls does_nothing spawns_late 0 50
      (with_ebr (Ebr.exit 0 (Ebr.enter 0 idle_world.shared.ebr)) idle_world)
      (run_once does_nothing spawns_late 0 0 1 idle_world)
run_once-Polls_example =
    run_once-Polls does_nothing spawns_late 0 0 1 idle_world idle_pair-Valid
      (omega (arith, two_workers)) (omega (arith, two_workers)) nothing_found
