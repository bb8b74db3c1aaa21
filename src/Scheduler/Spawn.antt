-- ===== src/Scheduler/Spawn.antt =====
-- What `spawn` does to the global queue and to the parkers.
use tiny_coro_build_your_own.Common.{
  ℕ, ◌≡◌, List, [], ◌∷◌, ◌++◌, arith, if◌then◌else◌, ◌==◌, append-nil, inl, inr, Bool-cases,
}
use tiny_coro_build_your_own.Task.{Task, detach, from_address}
use tiny_coro_build_your_own.Queue.Global.{push_ptr}
use tiny_coro_build_your_own.Scheduler.{Scheduler, spawn}

-- The task that a pointer stands for, none for `nullptr`.
abbrev pub queued : ℕ → List Task
queued p = if p == 0 then [] else record { handle = p } ∷ []

-- The task goes to the back of the global queue, unless it is null.
pub spawn-queue :
    (t : Task) (s : Scheduler) → (spawn t s).global_queue ≡ s.global_queue ++ queued t.handle
unfolding spawn detach push_ptr from_address
spawn-queue t s = elim (Bool-cases (t.handle == 0)) [
  | inl null ↦ rw null (ground (arith, append-nil s.global_queue))
  | inr live ↦ rw live (ground arith)
]

pub spawn_address-queue :
    (p : ℕ) (s : Scheduler) → (spawn (from_address p) s).global_queue ≡ s.global_queue ++ queued p
unfolding from_address
spawn_address-queue p s = rw (spawn-queue (from_address p) s) (ground arith)

-- `spawn` leaves the stop flag and the workers' own queues alone.
pub spawn-stop : (t : Task) (s : Scheduler) → (spawn t s).stop ≡ s.stop
unfolding spawn
spawn-stop t s = ground arith
