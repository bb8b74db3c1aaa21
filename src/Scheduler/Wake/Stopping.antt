-- ===== src/Scheduler/Wake/Stopping.antt =====
-- The destructor of the scheduler reaches every worker.
use tiny_coro_build_your_own.Common.{
  ℕ, ◌<◌, ◌≡◌, ◌⊎◌, inl, inr, Bool, true, false, arith, Bool-cases,
}
use tiny_coro_build_your_own.Parker
use tiny_coro_build_your_own.Parker.{empty, parked, notified, unpark, try_park, reset, is_parked}
use tiny_coro_build_your_own.Scheduler.Wake.{
  Pc, checking, leaving, exited, System, Step, pushes, stops, wakes, checks, finds, misses,
  finishes, tries, wakes_up, resets, Reach, start, next, is_notified,
}

-- The worker tests the stop flag before it blocks, or is out already.
abbrev pub stopping : Pc → Parker.State → Bool
stopping checking p = true
stopping leaving p = true
stopping exited p = true
stopping _ p = is_notified p

abbrev Leaves : System → ℕ → Type 0
Leaves s i = (0 < s.waking i) ⊎ (stopping (s.pc i) (s.parkers i) ≡ true)

Step-Leaves :
    {n : ℕ} {s s' : System} → Step n s s' → s.stop ≡ true → (j : ℕ) → Leaves s j → Leaves s' j
unfolding unpark try_park reset
Step-Leaves (pushes i p h) stop j v = ground arith
Step-Leaves stops stop j v = ground arith
Step-Leaves (wakes i h) stop j v = ground arith
Step-Leaves (checks i at) stop j v = ground arith
Step-Leaves (finds i t at e) stop j v = ground arith
Step-Leaves (misses i at e) stop j v = ground arith
Step-Leaves (finishes i at) stop j v = ground arith
Step-Leaves (tries i at) stop j v = ground arith
Step-Leaves (wakes_up i at e) stop j v = ground arith
Step-Leaves (resets i at) stop j v = ground arith

-- The first step to a stopped system is `stops`.
Step-stops :
    {n : ℕ} {s s' : System}
    → Step n s s'
    → s.stop ≡ false
    → s'.stop ≡ true
    → (j : ℕ) → j < n
    → Leaves s' j
Step-stops (pushes i p h) run stop j l = cc
Step-stops stops run stop j l = ground arith
Step-stops (wakes i h) run stop j l = cc
Step-stops (checks i at) run stop j l = cc
Step-stops (finds i t at e) run stop j l = cc
Step-stops (misses i at e) run stop j l = cc
Step-stops (finishes i at) run stop j l = cc
Step-stops (tries i at) run stop j l = cc
Step-stops (wakes_up i at e) run stop j l = cc
Step-stops (resets i at) run stop j l = cc

Reach-Leaves : {n : ℕ} {s : System} → Reach n s → s.stop ≡ true → (j : ℕ) → j < n → Leaves s j
Reach-Leaves start stop j l = cc
Reach-Leaves (next {s} r st) stop j l = elim (Bool-cases s.stop) [
  | inl e ↦ Step-Leaves st e j (Reach-Leaves r e j l)
  | inr e ↦ Step-stops st e stop j l
]

-- The destructor leaves no worker asleep: once `stop` is set and all calls of `wake` are made, each
-- worker has left, or is to test the flag, or has a notification with which it cannot block before it
-- tests the flag.
pub shutdown-no_sleeper :
    {n : ℕ} {s : System}
    → Reach n s
    → s.stop ≡ true
    → ((i : ℕ) → s.waking i ≡ 0)
    → (i : ℕ) → i < n
    → stopping (s.pc i) (s.parkers i) ≡ true
shutdown-no_sleeper {s} r stop all_woken i l = ground (arith, all_woken i, Reach-Leaves r stop i l)
