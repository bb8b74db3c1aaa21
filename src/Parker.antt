-- ===== src/Parker.antt =====
-- include/parker.h
use tiny_coro_build_your_own.Common.{Bool, true, false, if◌then◌else◌}

pub data State : Type 0 where
  empty parked notified : State

abbrev pub is_empty_state : State → Bool
is_empty_state empty = true
is_empty_state _ = false

abbrev pub is_parked : State → Bool
is_parked parked = true
is_parked _ = false

-- `unpark`: the state is exchanged for NOTIFIED; the flag tells whether `notify_one` is called.
unfoldable pub unpark : State → State × Bool
unpark old = (notified, is_parked old)

-- The compare-exchange at the start of `park`: the new state, and whether it was won.
unfoldable pub try_park : State → State × Bool
try_park s = if is_empty_state s then (parked, true) else (s, false)

-- The store at the end of `park`.
unfoldable pub reset : State → State
reset s = empty
