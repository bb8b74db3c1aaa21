-- ===== src/Scheduler.antt =====
-- include/scheduler.h and include/worker.h: the scheduler, its workers, and a worker's loop.
pub mod Spawn
pub mod Search
pub mod Wake
pub mod Lifetimes
pub mod Turn
pub mod Ownership
pub mod Contract
pub mod Running
mod Tests
use tiny_coro_build_your_own.Common.{
  ℕ, zero, suc, ◌+◌, ◌%◌, ◌^◌, Bool, true, false, not, Option, none, some, List, [], ◌∷◌, ◌++◌,
  if◌then◌else◌, leb, ◌==◌, is_empty, length, get_elem?, set, map,
}
use tiny_coro_build_your_own.Task.{Frames, Task, ◌>>=◌, detach, destruct, resume}
use tiny_coro_build_your_own.Parker
use tiny_coro_build_your_own.Ebr
use tiny_coro_build_your_own.Ebr.{EbrManager}
use tiny_coro_build_your_own.Queue.Global.{GlobalQueue, push_ptr}
use tiny_coro_build_your_own.Queue.Global
use tiny_coro_build_your_own.Queue.Steal.{StealQueue, Shared}
use tiny_coro_build_your_own.Queue.Steal
use tiny_coro_build_your_own.Poller.{Call}
use tiny_coro_build_your_own.Timer.{Reactor}

pub record Worker : Type 0 where
  pub id : ℕ
  pub ebr_state : ℕ
  pub local_queue : StealQueue
  pub parker : Parker.State

-- `next` is the counter inside `spawn`. Threads are not part of the state.
pub record Scheduler : Type 0 where
  pub global_queue : GlobalQueue
  pub workers : List Worker
  pub stop : Bool
  pub next : ℕ

-- All that the runtime's code reads and writes, and the log of its system calls.
pub record World : Type 0 where
  pub shared : Shared
  pub scheduler : Scheduler
  pub reactor : Reactor
  pub calls : List Call

abbrev pub frames_of : World → Frames
frames_of w = w.shared.frames

abbrev pub with_frames : Frames → World → World
with_frames fs w = record w { shared = record (w.shared) { frames = fs } }

abbrev pub with_ebr : EbrManager → World → World
with_ebr e w = record w { shared = record (w.shared) { ebr = e } }

-- The constructor of `Worker`: it registers with the manager, and gets a queue whose array stands at
-- `address`.
unfoldable pub new_worker : ℕ → ℕ → EbrManager → EbrManager × Worker
new_worker address id ebr =
    let (ebr', ls) = Ebr.register_thread ebr in
    (
      ebr',
      record {
        id = id;
        ebr_state = ls;
        local_queue = Steal.new_queue address ls;
        parker = Parker.State.empty;
      },
    )

-- The loop of the constructor of `Scheduler` from `i` on, with the rounds left; worker i gets an array
-- at `address i`.
unfoldable pub new_workers : (ℕ → ℕ) → ℕ → ℕ → EbrManager → EbrManager × List Worker
unfolding new_worker
new_workers address i zero ebr = (ebr, [])
new_workers address i (suc n) ebr =
    let (ebr', worker) = new_worker (address i) i ebr in
    let (ebr'', workers) = new_workers address (suc i) n ebr' in (ebr'', worker ∷ workers)

-- `Worker::schedule`, with the address for a new array.
unfoldable pub schedule : ℕ → Task → Shared → Worker → Option (Shared × Worker)
schedule fresh t sh worker = do
  (sh', queue) ← Steal.push fresh t sh worker.local_queue
  some (sh', record worker { local_queue = queue })

-- `Worker::wake`
unfoldable pub wake : Worker → Worker
wake worker = record worker { parker = (Parker.unpark worker.parker).0 }

-- `workers_[i]->wake()`
unfoldable pub wake_at : ℕ → List Worker → List Worker
unfolding wake
wake_at i [] = []
wake_at zero (worker ∷ workers) = wake worker ∷ workers
wake_at (suc i) (worker ∷ workers) = worker ∷ wake_at i workers

unfoldable pub spawn : Task → Scheduler → Scheduler
spawn t s =
    let (ptr, t') = detach t in
    let (queue, pushed) = push_ptr ptr s.global_queue in
    let s' = record s { global_queue = queue } in
    if ptr == 0
    then s
    else (if is_empty s.workers then s' else record s' {
      workers = wake_at (s.next % length s.workers) s.workers;
      next = (s.next + 1) % 2 ^ 64;
    })

unfoldable pub pop_global : Scheduler → Scheduler × Option Task
pop_global s =
    let (queue, task) = Global.pop s.global_queue in (record s { global_queue = queue }, task)

-- `Worker::steal`
unfoldable pub steal_worker : Worker → Worker × Option Task
steal_worker worker =
    let (queue, task) = Steal.steal worker.local_queue in
    (record worker { local_queue = queue }, task)

-- `workers_[idx]->steal()`
unfoldable pub steal_at : ℕ → List Worker → List Worker × Option Task
unfolding steal_worker
steal_at idx [] = ([], none)
steal_at zero (worker ∷ workers) =
    let (worker', task) = steal_worker worker in (worker' ∷ workers, task)
steal_at (suc idx) (worker ∷ workers) =
    let (workers', task) = steal_at idx workers in (worker ∷ workers', task)

-- The loop of `Scheduler::steal`, from round `i` on, with the rounds left.
unfoldable pub steal_loop : ℕ → ℕ → ℕ → List Worker → List Worker × Option Task
steal_loop start i zero workers = (workers, none)
steal_loop start i (suc rounds) workers =
    let (workers', task) = steal_at ((start + i) % length workers) workers in
    let rest = steal_loop start (suc i) rounds workers' in
    elim task [ none ↦ rest | some t ↦ (workers', some t) ]

-- `Scheduler::steal`; `start` is the random number, below the number of workers.
unfoldable pub steal : ℕ → Scheduler → Scheduler × Option Task
unfolding steal_loop
steal start s =
    let n = length s.workers in
    let (workers', task) = steal_loop start 0 n s.workers in
    if leb n 1 then (s, none) else (record s { workers = workers' }, task)

-- `Scheduler::is_running`
abbrev pub is_running : Scheduler → Bool
is_running s = not s.stop

-- The flag and the wake-ups of `~Scheduler`.
unfoldable pub stop_workers : Scheduler → Scheduler
unfolding wake
stop_workers s = record s { stop = true; workers = map wake s.workers }

-- `local_queue_->pop()` of worker `i`.
unfoldable pub pop_at : ℕ → List Worker → List Worker × Option Task
pop_at i [] = ([], none)
pop_at zero (worker ∷ workers) =
    let (queue, task) = Steal.pop worker.local_queue in
    (record worker { local_queue = queue } ∷ workers, task)
pop_at (suc i) (worker ∷ workers) =
    let (workers', task) = pop_at i workers in (worker ∷ workers', task)

-- The first block of `run_once` inside its guard: the own queue, the global queue, other workers.
unfoldable pub find_task : ℕ → ℕ → Scheduler → Scheduler × Option Task
unfolding pop_at
find_task i start s =
    let (workers', own) = pop_at i s.workers in
    let s' = record s { workers = workers' } in
    elim own [
      | some t ↦ (s', some t)
      | none ↦
          let (s'', next_global) = pop_global s' in
          let stolen = steal start s'' in
          elim next_global [ some t ↦ (s'', some t) | none ↦ stolen ]
    ]

-- What `run_once` ends with: a task was taken, or the worker goes on to `parker_.park()`.
pub data Outcome : Type 0 where
  ran parks : Outcome

module _ (body : ℕ → World → Option World) where
  -- `task->resume()`, and the destructor of the optional at the end of the function.
  unfoldable pub run_task : Task → World → Option World
  run_task t w = do
    w' ← resume frames_of with_frames body t w
    fs ← destruct t w'.shared.frames
    some (with_frames fs w')

  -- The polling loop with the rounds left. `others` is what other threads do before each round.
  unfoldable pub poll : (ℕ → World → World) → ℕ → ℕ → World → Option (World × Outcome)
  unfolding run_task
  poll others ls zero w = some (w, parks)
  poll others ls (suc rounds) w =
      let w₁ = others (suc rounds) w in
      let w₂ = with_ebr (Ebr.enter ls w₁.shared.ebr) w₁ in
      let (s, task) = pop_global w₂.scheduler in
      let w₃ = record w₂ { scheduler = s } in
      let leave = λ (v : World). with_ebr (Ebr.exit ls v.shared.ebr) v in
      let rest = poll others ls rounds (leave w₃) in
      elim task [ some t ↦ (do w₄ ← run_task t w₃; some (leave w₄, ran)) | none ↦ rest ]

  -- `run_once` of worker `i`, whose state in the manager is `ls`, up to `parker_.park()`.
  unfoldable pub run_once : (ℕ → World → World) → ℕ → ℕ → ℕ → World → Option (World × Outcome)
  unfolding poll find_task run_task
  run_once others i ls start w =
      let w₁ = with_ebr (Ebr.enter ls w.shared.ebr) w in
      let (s, task) = find_task i start w₁.scheduler in
      let w₂ = record w₁ { scheduler = s } in
      let w₃ = with_ebr (Ebr.exit ls w₂.shared.ebr) w₂ in
      elim task [ some t ↦ (do w₄ ← run_task t w₃; some (w₄, ran)) | none ↦ poll others ls 50 w₃ ]
