-- ===== src/Scheduler/Wake.antt =====
-- Spawning and shutting down against workers that park: include/scheduler.h and include/parker.h with
-- all threads interleaved, one access to the queue, to a parker or to the stop flag at a time.
pub mod Spawning
pub mod Stopping
pub mod Progress
use tiny_coro_build_your_own.Common.{
  ℕ, ◌+◌, ◌-◌, ◌<◌, ◌≡◌, Bool, true, false, none, some, [], if◌then◌else◌, ltb, update,
}
use tiny_coro_build_your_own.Task.{Task}
use tiny_coro_build_your_own.Parker
use tiny_coro_build_your_own.Parker.{empty, notified, unpark, try_park, reset, is_parked}
use tiny_coro_build_your_own.Queue.Global
use tiny_coro_build_your_own.Queue.Global.{GlobalQueue, push_ptr}

-- Where a worker stands: at the test of `run`, looking for a task in `run_once`, running one, before
-- the compare-exchange of `park`, waiting in `park`, before its last store, or out of `run`.
pub data Pc : Type 0 where
  checking searching running deciding blocked leaving exited : Pc

-- `waking i` counts the calls of worker i's `wake` that are still to come from a `spawn` that has
-- pushed its task, or from the destructor that has set `stop`.
pub record System : Type 0 where
  pub queue : GlobalQueue
  pub stop : Bool
  pub parkers : ℕ → Parker.State
  pub pc : ℕ → Pc
  pub waking : ℕ → ℕ

-- With `n` workers. The workers' own queues are empty, since no code calls `schedule`.
pub data Step (n : ℕ) (s : System) : System → Type 0 where
  pushes :
      (i p : ℕ)
      → i < n
      → Step n s
          (record s { queue = (push_ptr p s.queue).0; waking = update s.waking i (s.waking i + 1) })
  stops :
      Step n s
        (record s { stop = true; waking = λ j. if ltb j n then s.waking j + 1 else s.waking j })
  wakes :
      (i : ℕ)
      → 0 < s.waking i
      → Step n s (record s {
        waking = update s.waking i (s.waking i - 1);
        parkers = update s.parkers i (unpark (s.parkers i)).0;
      })
  checks :
      (i : ℕ)
      → s.pc i ≡ checking
      → Step n s (record s { pc = update s.pc i (if s.stop then exited else searching) })
  finds :
      (i : ℕ) (t : Task)
      → s.pc i ≡ searching
      → (Global.pop s.queue).1 ≡ some t
      → Step n s (record s { queue = (Global.pop s.queue).0; pc = update s.pc i running })
  misses :
      (i : ℕ)
      → s.pc i ≡ searching
      → (Global.pop s.queue).1 ≡ none
      → Step n s (record s { queue = (Global.pop s.queue).0; pc = update s.pc i deciding })
  finishes : (i : ℕ) → s.pc i ≡ running → Step n s (record s { pc = update s.pc i checking })
  tries :
      (i : ℕ)
      → s.pc i ≡ deciding
      → Step n s (record s {
        parkers = update s.parkers i (try_park (s.parkers i)).0;
        pc = update s.pc i (if (try_park (s.parkers i)).1 then blocked else leaving);
      })
  wakes_up :
      (i : ℕ)
      → s.pc i ≡ blocked
      → is_parked (s.parkers i) ≡ false
      → Step n s (record s { pc = update s.pc i leaving })
  resets :
      (i : ℕ)
      → s.pc i ≡ leaving
      → Step n s (record s {
        parkers = update s.parkers i (reset (s.parkers i));
        pc = update s.pc i checking;
      })

abbrev pub start_system : System
start_system = record {
  queue = [];
  stop = false;
  parkers = λ i. empty;
  pc = λ i. checking;
  waking = λ i. 0;
}

pub data Reach (n : ℕ) : System → Type 0 where
  start : Reach n start_system
  next : {s s' : System} → Reach n s → Step n s s' → Reach n s'

abbrev pub is_notified : Parker.State → Bool
is_notified notified = true
is_notified _ = false
