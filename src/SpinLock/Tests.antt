-- ===== src/SpinLock/Tests.antt =====
-- The theorem on the spin lock with one thread that holds it and another that spins.
use tiny_coro_build_your_own.Common.{ℕ, refl, true, ◌⊎◌, update}
use tiny_coro_build_your_own.SpinLock.{
  exchange, Pc, outside, trying, spinning, holding, System, calls, exchanges, Reach, start, next,
}
use tiny_coro_build_your_own.SpinLock.Exclusion.{Free, Taken, Reach-one_holder}

abbrev all_outside : ℕ → Pc
all_outside i = outside

abbrev contended : System
contended = record {
  lock = record { lock_ = true };
  pc = update (update (update (update all_outside 0 trying) 0 holding) 1 trying) 1 spinning;
}

history : Reach contended
unfolding exchange
history =
    next (next (next (next start (calls 0 refl)) (exchanges 0 refl)) (calls 1 refl))
      (exchanges 1 refl)

Reach-one_holder_example : Free contended ⊎ Taken contended
Reach-one_holder_example = Reach-one_holder history
