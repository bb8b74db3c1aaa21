-- ===== src/Task/Tests.antt =====
-- The theorems on coroutine frames at concrete programs.
use tiny_coro_build_your_own.Common.{
  ℕ, false, ◌≡◌, refl, ◌≢◌, none, some, List, [], ◌∷◌, arith, Option, update,
}
use tiny_coro_build_your_own.Task.{
  Promise, get_return_object, add_ref, copy, dec_ref, destruct, detach, from_address,
}
use tiny_coro_build_your_own.Task.Ownership.{erase}
use tiny_coro_build_your_own.Task.Lifetime.{
  Memory, Op, creates, copies, drops, hands_over, run, exec, AllPermitted, Safe, Runs, run-Runs,
}

abbrev no_memory : Memory
no_memory = record { frames = λ a. none; owners = [] }

no_memory-Safe : Safe no_memory
no_memory-Safe = record { counts = λ a nz. refl }

-- A coroutine is created, its task copied, one task goes through a queue, and both are dropped.
abbrev address : ℕ
address = 8

nonzero : address ≢ 0
nonzero e = omega arith

abbrev program : List Op
program = creates 8 ∷ copies 8 ∷ hands_over 8 ∷ drops 8 ∷ drops 8 ∷ []

permitted : AllPermitted program no_memory
unfolding exec get_return_object copy add_ref detach from_address destruct dec_ref erase
permitted = (
  (nonzero, refl),
  (
    (nonzero, omega arith, omega arith),
    ((nonzero, omega arith), ((nonzero, omega arith), ((nonzero, omega arith), tt))),
  ),
)

run-Runs_example : Runs (run program no_memory)
run-Runs_example = run-Runs program no_memory no_memory-Safe permitted

abbrev counted : ℕ → Option Promise
counted n = some (record { ref_count = n; is_running = false; continuation = 0; at_end = false })

-- What `program` leaves: each of its steps changes the frame at 8, the last one to `none`.
abbrev after_program : Memory
after_program = record {
  frames =
      update (update (update (update no_memory.frames 8 (counted 1)) 8 (counted 2)) 8 (counted 1)) 8
        none;
  owners = 0 ∷ [];
}

ends : run program no_memory ≡ some after_program
unfolding run exec get_return_object copy add_ref detach from_address destruct dec_ref erase
ends = refl
