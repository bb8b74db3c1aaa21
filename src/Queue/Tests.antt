-- ===== src/Queue/Tests.antt =====
-- The theorems on the work-stealing queue at a new queue and one with a task.
use tiny_coro_build_your_own.Common.{
  ℕ, ◌≡◌, refl, ◌≢◌, false, none, some, List, [], ◌∷◌, ◌++◌, suc, length, arith, if◌then◌else◌,
  ◌==◌,
}
use tiny_coro_build_your_own.Task.{Task, Frames}
use tiny_coro_build_your_own.Task.Ownership.{Counted}
use tiny_coro_build_your_own.Ebr
use mathlib.Core.List.{reverse}
use tiny_coro_build_your_own.Queue.Global
use tiny_coro_build_your_own.Queue.Global.{GlobalQueue}
use tiny_coro_build_your_own.Queue.Draining.{drain, tasks, queues_drain}
use tiny_coro_build_your_own.Queue.Steal.{
  StealQueue, Shared, new_queue, write_bottom, push, pop, steal,
}
use tiny_coro_build_your_own.Queue.Refinement.Steps.{
  IsValid, contents, new_queue-IsValid, write_bottom-IsValid,
}
use tiny_coro_build_your_own.Queue.Refinement.{push_refines}
use tiny_coro_build_your_own.Queue.Concurrent.{new_system, start}
use tiny_coro_build_your_own.Queue.Concurrent.Alone.{queue_of}
use tiny_coro_build_your_own.Queue.Concurrent.Alone.Push.{Pushes, push-Agrees}

abbrev no_tasks : StealQueue
no_tasks = new_queue 4096 0

abbrev one_task : StealQueue
one_task = write_bottom 8 no_tasks

one_task-IsValid : IsValid 10 1 one_task
unfolding new_queue
one_task-IsValid = write_bottom-IsValid 8 (new_queue-IsValid 4096 0) (omega arith) (omega arith)

abbrev one_frame : Frames
one_frame a =
    if 8 == a
    then some (record { ref_count = 1; is_running = false; continuation = 0; at_end = false })
    else none

abbrev owner : List ℕ
owner = 8 ∷ []

one_frame-Counted : Counted one_frame owner
one_frame-Counted = record { counts = λ a nz. ground arith }

abbrev task : Task
task = record { handle = 8 }

nonzero : task.handle ≢ 0
nonzero e = omega arith

abbrev memory : Shared
memory = record { frames = one_frame; ebr = Ebr.init }

push_refines_example :
    (sh' : Shared) × (q' : StealQueue) × (push 8192 task memory no_tasks ≡ some (sh', q'))
    × ((k' : ℕ) × IsValid k' 1 q')
    × (contents 1 q' ≡ contents 0 no_tasks ++ 8 ∷ [])
    × Counted sh'.frames owner
push_refines_example =
    push_refines 8192 task memory (new_queue-IsValid 4096 0) (omega arith) one_frame-Counted nonzero
      (omega arith) (omega arith)

push-Agrees_example :
    (sh' : Shared) × (q : StealQueue) × (push 8192 task memory (queue_of (new_system 4096))
      ≡ some (sh', q))
    × Pushes (new_system 4096) 8 q
push-Agrees_example =
    push-Agrees start refl (omega arith) 8192 task memory (λ i t a e. ground (arith, e))
      one_frame-Counted nonzero (omega arith) (omega arith)

queues_drain_example :
    (let n = suc (length (tasks 1 one_task)) in
      ((q' : StealQueue) × (drain steal n one_task ≡ (tasks 1 one_task, q'))
        × (steal q' ≡ (q', none)))
      × ((q' : StealQueue) × (drain pop n one_task ≡ (reverse (tasks 1 one_task), q'))
          × (pop q' ≡ (q', none)))
      × ((g' : GlobalQueue) × (drain Global.pop 2 (task ∷ []) ≡ (task ∷ [], g'))
          × (Global.pop g' ≡ (g', none))))
queues_drain_example = queues_drain (task ∷ []) one_task-IsValid
