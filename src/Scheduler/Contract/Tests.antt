-- ===== src/Scheduler/Contract/Tests.antt =====
-- The theorems on the scheduler's contract at a scheduler with two workers.
use tiny_coro_build_your_own.Common.{
  ◌<◌, length, suc, ◌*◌, ◌≡◌, refl, none, false, some, List, [], ◌∷◌, arith, All, count,
}
use tiny_coro_build_your_own.Common.Int.{◌-ℤ◌}
use tiny_coro_build_your_own.Task.{detach}
use tiny_coro_build_your_own.Ebr
use tiny_coro_build_your_own.Queue.Steal
use tiny_coro_build_your_own.Queue.Steal.{new_queue}
use tiny_coro_build_your_own.Queue.Global
use tiny_coro_build_your_own.Queue.Array.Slots.{window}
use tiny_coro_build_your_own.Scheduler.{
  Scheduler, new_worker, new_workers, spawn, wake_at, find_task, pop_at, pop_global, steal,
  steal_loop, steal_at, steal_worker,
}
use tiny_coro_build_your_own.Scheduler.Search.{Valid, new_workers-Valid}
use tiny_coro_build_your_own.Scheduler.Ownership.{refs}
use tiny_coro_build_your_own.Scheduler.Contract.{
  Op, spawns, searches, polls, perform, tasks, Fits, history, Runs, spawned, returned,
}
use tiny_coro_build_your_own.Scheduler.Contract.Refinement.{history-Runs, each_returned}

abbrev pair : Scheduler
pair = record {
  global_queue = [];
  workers = (new_workers (λ i. 4096 * suc i) 0 2 Ebr.init).1;
  stop = false;
  next = 0;
}

pair-Valid : All Valid pair.workers
pair-Valid = new_workers-Valid (λ i. 4096 * suc i) 0 2 Ebr.init

pair_size : length pair.workers ≡ 2
unfolding new_workers
pair_size = refl

pair_empty : refs pair ≡ []
unfolding new_workers new_worker new_queue window
pair_empty = refl

-- Two tasks and a null one; three searches and a look at the global queue.
abbrev calls : List Op
calls =
    spawns (record { handle = 8 })
    ∷ spawns (record { handle = 0 })
    ∷ searches 1 0
    ∷ spawns (record { handle = 16 })
    ∷ polls
    ∷ searches 0 1
    ∷ []

calls-Fits : All (Fits (length pair.workers)) calls
calls-Fits =
    let first : 0 < length pair.workers = omega (arith, pair_size) in
    let second : 1 < length pair.workers = omega (arith, pair_size) in
    (tt, (tt, ((second, first), (tt, (tt, ((first, second), tt))))))

given :
    (history calls pair).0
    ≡ none ∷ none ∷ some (record { handle = 8 }) ∷ none ∷ some (record { handle = 16 }) ∷ none ∷ []
unfolding history perform new_workers new_worker Ebr.register_thread find_task pop_at Steal.pop
    pop_global Global.pop steal steal_loop steal_at steal_worker Steal.steal new_queue
    Global.push_ptr ◌-ℤ◌ spawn wake_at detach
given = refl

none_left : (find_task 0 1 (history calls pair).1).1 ≡ none
unfolding history perform new_workers new_worker Ebr.register_thread find_task pop_at Steal.pop
    pop_global Global.pop steal steal_loop steal_at steal_worker Steal.steal new_queue
    Global.push_ptr ◌-ℤ◌ spawn wake_at detach
none_left = refl

history-Runs_example : Runs calls (tasks pair) (history calls pair).0 (tasks (history calls pair).1)
history-Runs_example = history-Runs calls pair pair-Valid calls-Fits

each_returned_example : count 16 (returned (history calls pair).0) ≡ count 16 (spawned calls)
each_returned_example =
    each_returned calls 0 1 16 pair pair-Valid calls-Fits (omega (arith, pair_size))
      (omega (arith, pair_size)) pair_empty none_left
