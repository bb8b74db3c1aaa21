-- ===== src/Reactor.antt =====
-- include/scheduler.h: the reactor's thread, its timers, and `AsyncSleep`.
pub mod Order
pub mod Timeout
pub mod Events
pub mod Ownership
pub mod Sleep
mod Tests
use tiny_coro_build_your_own.Common.{
  ℕ, zero, suc, ◌+◌, ◌-◌, ◌*◌, ◌/◌, ◌%◌, ◌^◌, Bool, true, false, List, [], ◌∷◌, ◌++◌, if◌then◌else◌,
  ltb, leb, ◌==◌,
}
use tiny_coro_build_your_own.Common.Int.{ℤ, pos, negsuc}
use tiny_coro_build_your_own.Task.{from_address}
use tiny_coro_build_your_own.Poller
use tiny_coro_build_your_own.Poller.{Call, EpollEvent}
use tiny_coro_build_your_own.Timer
use tiny_coro_build_your_own.Timer.{Timer, Timers, Reactor}
use tiny_coro_build_your_own.Queue.Steal.{Shared}
use tiny_coro_build_your_own.Scheduler.{World, spawn, new_workers, stop_workers}

abbrev pub log : List Call → World → World
log calls w = record w { calls = w.calls ++ calls }

-- `scheduler_->spawn(Task::from_address(p))`
unfoldable pub spawn_address : ℕ → World → World
unfolding spawn
spawn_address p w = record w { scheduler = spawn (from_address p) w.scheduler }

-- `running_ = true`; the flag tells whether the thread is started.
unfoldable pub start : Reactor → Reactor × Bool
start r = if r.running then (r, false) else (record r { running = true }, true)

abbrev pub new_reactor : Poller.Poller → Reactor
new_reactor poller = record { running = false; timers = []; poller = poller }

-- The constructor of `Scheduler` with n workers, and what was there before: the manager of epochs and
-- the frames.
unfoldable pub new_scheduler : (ℕ → ℕ) → ℕ → Poller.Poller → Shared → World
unfolding start new_workers
new_scheduler address n poller sh =
    let (ebr, workers) = new_workers address 0 n sh.ebr in
    record {
      shared = record sh { ebr = ebr };
      scheduler = record { global_queue = []; workers = workers; stop = false; next = 0 };
      reactor = (start (new_reactor poller)).0;
      calls = [];
    }

unfoldable pub stop : World → World
stop w =
    let r = w.reactor in
    let stopped = record w { reactor = record r { running = false } } in
    if r.running then log (Poller.wake r.poller) stopped else stopped

-- `~Scheduler`, up to the joining of the workers' threads.
unfoldable pub shut_down : World → World
unfolding stop stop_workers
shut_down w = let w' = stop w in record w' { scheduler = stop_workers w'.scheduler }

-- `timers_.top().expiry == expiry`, after the push.
abbrev pub is_next : ℕ → Timers → Bool
is_next expiry [] = false
is_next expiry (t ∷ ts) = t.expiry == expiry

unfoldable pub add_timer : ℕ → ℕ → World → World
add_timer expiry handle w =
    let r = w.reactor in
    let timers = Timer.push (record { expiry = expiry; handle = handle }) r.timers in
    let w' = record w { reactor = record r { timers = timers } } in
    if is_next expiry timers then log (Poller.wake r.poller) w' else w'

-- The lambda `io_handler`.
unfoldable pub io_handler : ℕ → World → World
unfolding spawn_address
io_handler udata w = if udata == 0 then w else spawn_address udata w

-- `static_cast<int>`
abbrev pub to_int : ℕ → ℤ
to_int n = if ltb (n % 2 ^ 32) (2 ^ 31) then pos (n % 2 ^ 32) else negsuc (2 ^ 32 - 1 - n % 2 ^ 32)

-- The timeout of a round, in milliseconds, at the time `now`.
unfoldable pub timeout_ms : ℕ → Timers → ℤ
timeout_ms now [] = negsuc 0
timeout_ms now (t ∷ ts) = if leb t.expiry now then pos 0 else to_int ((t.expiry - now) / 1000000)

-- The loop that pops the timers that are due: those left, and the state after the spawns.
unfoldable pub fire : ℕ → Timers → World → Timers × World
fire now [] w = ([], w)
fire now (t ∷ ts) w =
    let rest = fire now ts (spawn_address t.handle w) in
    if leb t.expiry now then rest else (t ∷ ts, w)

-- What happens outside in one round of the loop: the clock before and after the wait, what other
-- threads do meanwhile, given the timeout, and the events that come.
pub record Round : Type 0 where
  pub now : ℕ
  pub others : ℤ → World → World
  pub events : List EpollEvent
  pub later : ℕ

-- One round of `loop`, with `running_` true.
unfoldable pub turn : Round → World → World
turn e w =
    let w₁ = e.others (timeout_ms e.now w.reactor.timers) w in
    let w₂ = Poller.wait (λ c. log (c ∷ [])) io_handler w₁.reactor.poller e.events w₁ in
    let (timers, w₃) = fire e.later w₂.reactor.timers w₂ in
    record w₃ { reactor = record (w₃.reactor) { timers = timers } }

unfoldable pub loop : List Round → World → World
unfolding turn
loop [] w = w
loop (e ∷ es) w = let rest = loop es (turn e w) in if w.reactor.running then rest else w

-- `AsyncSleep::await_suspend`: the handle goes into the timer as it is.
unfoldable pub sleep_suspend : ℕ → ℕ → ℕ → World → World
sleep_suspend now duration h w = add_timer (now + duration * 1000000) h w
