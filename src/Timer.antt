-- ===== src/Timer.antt =====
-- include/timer.h, and the state of the reactor in include/scheduler.h. Times are counted in
-- nanoseconds of the steady clock.
use tiny_coro_build_your_own.Common.{ℕ, Bool, List, [], ◌∷◌, if◌then◌else◌, ltb}
use tiny_coro_build_your_own.Poller.{Poller}

pub record Timer : Type 0 where
  pub expiry : ℕ
  pub handle : ℕ

-- `operator>`
abbrev pub greater : Timer → Timer → Bool
greater a b = ltb b.expiry a.expiry

-- The `std::priority_queue` with `std::greater`: its top is a timer that is greater than no other.
-- It is kept in order here; where two timers expire together, the one pushed first is on top, which
-- the library leaves open.
abbrev pub Timers : Type 0
Timers = List Timer

unfoldable pub push : Timer → Timers → Timers
push t [] = t ∷ []
push t (u ∷ us) = if greater u t then t ∷ u ∷ us else u ∷ push t us

pub record Reactor : Type 0 where
  pub running : Bool
  pub timers : Timers
  pub poller : Poller
