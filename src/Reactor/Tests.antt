-- ===== src/Reactor/Tests.antt =====
-- The theorems on the reactor at two timers and at the event of a wake-up.
use mathlib.Core.List.{Mem}
use tiny_coro_build_your_own.Common.{
  ℕ, ◌≡◌, ◌≤◌, ◌<◌, ◌+◌, ◌*◌, ◌^◌, ◌⊎◌, refl, ◌≢◌, true, false, Option, none, some, [], ◌∷◌, arith,
  update, if◌then◌else◌, ◌==◌,
}
use tiny_coro_build_your_own.Common.Int.{pos}
use tiny_coro_build_your_own.Task.{Frames, Promise}
use tiny_coro_build_your_own.Ebr
use tiny_coro_build_your_own.Poller
use tiny_coro_build_your_own.Timer.{Timer, Timers}
use tiny_coro_build_your_own.Scheduler.{World, with_frames, run_task}
use tiny_coro_build_your_own.Reactor.{timeout_ms, turn, Round}
use tiny_coro_build_your_own.Scheduler.Ownership.State.{Sound}
use tiny_coro_build_your_own.Reactor.Ownership.{Turned, turn-Sound}
use tiny_coro_build_your_own.Reactor.Order.{IsSorted}
use tiny_coro_build_your_own.Reactor.Timeout.{timeout_ms-in_time}
use tiny_coro_build_your_own.Reactor.Sleep.{then_sleeps, sleep-dangles}

abbrev soon : Timer
soon = record { expiry = 2000000; handle = 8 }

abbrev late : Timer
late = record { expiry = 9000000; handle = 16 }

abbrev far : Timer
far = record { expiry = 2 ^ 31 * 1000000; handle = 24 }

abbrev two_timers : Timers
two_timers = soon ∷ late ∷ []

two_timers-IsSorted : IsSorted two_timers
two_timers-IsSorted = ((omega arith, tt), (tt, tt))

abbrev poller : Poller.Poller
poller = record { epoll_fd = 3; wake_fd = 4 }

abbrev promise : Promise
promise = record { ref_count = 1; is_running = false; continuation = 0; at_end = false }

abbrev one_frame : Frames
one_frame a = if 8 == a then some promise else none

abbrev world : World
world = record {
  shared = record { frames = one_frame; ebr = Ebr.init };
  scheduler = record { global_queue = []; workers = []; stop = false; next = 0 };
  reactor = record { running = true; timers = two_timers; poller = poller };
  calls = [];
}

timeout_ms-in_time_example :
    (m : ℕ) × (timeout_ms 500000 two_timers ≡ pos m)
    × (((2000000 ≤ 500000) × (m ≡ 0))
        ⊎ ((500000 + m * 1000000 ≤ 2000000) × (2000000 < 500000 + (m + 1) * 1000000)))
timeout_ms-in_time_example = timeout_ms-in_time 500000 soon (late ∷ []) (omega arith)

abbrev readable : Poller.EpollEvent
readable = record { events = Poller.Flag.epollin ∷ []; user = 8 }

abbrev does_nothing : ℕ → World → Option World
does_nothing h w = some w

abbrev address : ℕ
address = 8

nonzero : address ≢ 0
nonzero e = omega arith

abbrev during : World
during = with_frames (update one_frame 8 (some (record promise { is_running = true }))) world

sleep-dangles_example :
    (v : World) × (run_task (then_sleeps does_nothing 500000 10) (record { handle = 8 }) world
      ≡ some v)
    × (v.shared.frames 8 ≡ none)
    × Mem (record { expiry = 500000 + 10 * 1000000; handle = 8 }) v.reactor.timers
sleep-dangles_example =
    sleep-dangles does_nothing 500000 10 8 world during nonzero
      (record { promise = promise; live = refl; not_done = refl; counted = refl }) refl refl
      (record {
        promise = record promise { is_running = true };
        live = refl;
        not_done = refl;
        counted = refl;
      })

-- A timer for the coroutine 8, and an event for 16.
abbrev two_frames : Frames
two_frames a = if 8 == a then some promise else (if 16 == a then some promise else none)

abbrev waiting : World
waiting = record {
  shared = record { frames = two_frames; ebr = Ebr.init };
  scheduler = record { global_queue = []; workers = []; stop = false; next = 0 };
  reactor = record { running = true; timers = soon ∷ []; poller = poller };
  calls = [];
}

abbrev round : Round
round = record {
  now = 500000;
  others = λ m w. w;
  events = record { events = []; user = 16 } ∷ [];
  later = 3000000;
}

waiting-Sound : Sound (16 ∷ []) waiting
waiting-Sound = record { counted = record { counts = λ a nz. ground arith }; queues = tt }

turn-Sound_example : Turned round waiting (turn round waiting) × Sound [] (turn round waiting)
turn-Sound_example = turn-Sound [] round waiting waiting-Sound
