-- ===== src/Reactor/Timeout.antt =====
-- How long the reactor sleeps, and when a new timer wakes it.
use tiny_coro_build_your_own.Common.{
  ℕ, ◌+◌, ◌-◌, ◌*◌, ◌/◌, ◌^◌, ◌≤◌, ◌<◌, ◌≡◌, ◌⊎◌, inl, inr, false, [], ◌∷◌, ◌++◌, arith, Bool-cases,
  dec_lt,
}
use tiny_coro_build_your_own.Common.Int.{pos, negsuc}
use tiny_coro_build_your_own.Poller
use tiny_coro_build_your_own.Timer
use tiny_coro_build_your_own.Timer.{Timer, Timers}
use tiny_coro_build_your_own.Scheduler.{World}
use tiny_coro_build_your_own.Reactor.{timeout_ms, add_timer, is_next}

-- While the next timer is less than 2 ^ 31 milliseconds away the reactor does not sleep past it, and
-- wakes less than a millisecond early; it does not sleep at all if the timer is due.
pub timeout_ms-in_time :
    (now : ℕ) (t : Timer) (ts : Timers)
    → (t.expiry - now) / 1000000 < 2 ^ 31
    → (m : ℕ) × (timeout_ms now (t ∷ ts) ≡ pos m)
      × (((t.expiry ≤ now) × (m ≡ 0))
          ⊎ ((now + m * 1000000 ≤ t.expiry) × (t.expiry < now + (m + 1) * 1000000)))
unfolding timeout_ms
timeout_ms-in_time now t ts near = ((t.expiry - now) / 1000000, ground arith, soon)
  where
    soon :
        ((t.expiry ≤ now) × ((t.expiry - now) / 1000000 ≡ 0))
        ⊎ ((now + (t.expiry - now) / 1000000 * 1000000 ≤ t.expiry)
            × (t.expiry < now + ((t.expiry - now) / 1000000 + 1) * 1000000))
    soon = elim (dec_lt now t.expiry) [
      | yes ahead ↦ inr (omega arith, omega arith)
      | no due ↦ inl (omega arith, omega arith)
    ]

-- From 2 ^ 31 to 2 ^ 32 - 1 milliseconds the cast gives a negative number.
pub timeout_ms-wraps :
    (now : ℕ) (t : Timer) (ts : Timers)
    → 2 ^ 31 ≤ (t.expiry - now) / 1000000
    → (t.expiry - now) / 1000000 < 2 ^ 32
    → (m : ℕ) × (timeout_ms now (t ∷ ts) ≡ negsuc m)
unfolding timeout_ms
timeout_ms-wraps now t ts far fits = (2 ^ 32 - 1 - (t.expiry - now) / 1000000, ground arith)

-- A push that does not come out on top keeps the top.
push-not_next :
    (t : Timer) (ts : Timers) (now : ℕ)
    → is_next t.expiry (Timer.push t ts) ≡ false
    → timeout_ms now (Timer.push t ts) ≡ timeout_ms now ts
unfolding Timer.push timeout_ms
push-not_next t [] now h = ground arith
push-not_next t (u ∷ us) now h = ground arith

-- A new timer wakes the reactor, or does not change how long it has to sleep.
add_timer-wakes :
    (expiry handle : ℕ) (w : World)
    → ((add_timer expiry handle w).calls ≡ w.calls ++ Poller.wake w.reactor.poller)
      ⊎ ((now : ℕ)
          → timeout_ms now (add_timer expiry handle w).reactor.timers
            ≡ timeout_ms now w.reactor.timers)
unfolding add_timer
add_timer-wakes expiry handle w =
    let t : Timer = record { expiry = expiry; handle = handle } in
    elim (Bool-cases (is_next expiry (Timer.push t w.reactor.timers))) [
      | inl first ↦ inl (rw first)
      | inr behind ↦ inr (λ now. rw behind (push-not_next t w.reactor.timers now behind))
    ]
