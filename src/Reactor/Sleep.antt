-- ===== src/Reactor/Sleep.antt =====
-- `co_await sleep_for(...)` in a coroutine that a worker runs.
use mathlib.Core.List.{Mem, mem-cons_self}
use mathlib.Core.List.Perm
use mathlib.Core.Path.{subst}
use tiny_coro_build_your_own.Common.{
  ℕ, ◌+◌, ◌*◌, ◌≡◌, ◌≢◌, ◌<◌, List, [], ◌∷◌, ◌++◌, false, Option, none, some, arith, update, sym,
  refl, ◌∙◌, count, count-append, suc,
}
use tiny_coro_build_your_own.Task.{◌>>=◌}
use tiny_coro_build_your_own.Task.Ownership.{Counts}
use tiny_coro_build_your_own.Queue.Steal.{Shared}
use tiny_coro_build_your_own.Timer
use tiny_coro_build_your_own.Timer.{Timer}
use tiny_coro_build_your_own.Scheduler.{World, with_frames, run_task}
use tiny_coro_build_your_own.Scheduler.Lifetimes.{Suspended, running, run_task-frees, update_self}
use tiny_coro_build_your_own.Reactor.{add_timer, sleep_suspend}
use tiny_coro_build_your_own.Scheduler.Ownership.{refs}
use tiny_coro_build_your_own.Scheduler.Ownership.State.{timer_refs, Safe, Sound}
use tiny_coro_build_your_own.Reactor.Order.{push-perm}

-- A coroutine that runs some code and then sleeps.
abbrev pub then_sleeps : (ℕ → World → Option World) → ℕ → ℕ → ℕ → World → Option World
then_sleeps code now duration h w = do w' ← code h w; some (sleep_suspend now duration h w')

add_timer-frames : (expiry h : ℕ) (w : World) → (add_timer expiry h w).shared ≡ w.shared
unfolding add_timer
add_timer-frames expiry h w = ground arith

add_timer-timers :
    (expiry h : ℕ) (w : World)
    → (add_timer expiry h w).reactor.timers
      ≡ Timer.push (record { expiry = expiry; handle = h }) w.reactor.timers
unfolding add_timer
add_timer-timers expiry h w = ground arith

push-mem : (t : Timer) (ts : Timer.Timers) → Mem t (Timer.push t ts)
push-mem t ts = (Perm.mem_iff (push-perm t ts)).1 mem-cons_self

-- A worker that holds the only reference to an idle, suspended coroutine runs it, and it sleeps, its
-- code having taken no reference. After the turn the frame is destroyed, while the timer that is to
-- resume the coroutine still holds its address.
pub sleep-dangles :
    (code : ℕ → World → Option World) (now duration a : ℕ) (w w' : World)
    → a ≢ 0
    → (s : Suspended a 1 w.shared.frames) → s.promise.is_running ≡ false
    → code a (with_frames (update w.shared.frames a (some (running s.promise))) w) ≡ some w'
    → Suspended a 1 w'.shared.frames
    → (v : World) × (run_task (then_sleeps code now duration) (record { handle = a }) w ≡ some v)
      × (v.shared.frames a ≡ none)
      × Mem (record { expiry = now + duration * 1000000; handle = a }) v.reactor.timers
unfolding sleep_suspend
sleep-dangles code now duration a w w' nz s rest ran s' = (
  with_frames (update asleep.shared.frames a none) asleep,
  run_task-frees (then_sleeps code now duration) a nz w asleep s rest (rw (ran, ◌>>=◌))
      (subst (λ (sh : Shared). Suspended a 1 sh.frames) (sym unchanged) s'),
  update_self asleep.shared.frames a none,
  rw (add_timer-timers (now + duration * 1000000) a w')
      (push-mem (record { expiry = now + duration * 1000000; handle = a }) w'.reactor.timers),
)
  where
    asleep : World
    asleep = sleep_suspend now duration a w'

    unchanged : asleep.shared ≡ w'.shared
    unchanged = add_timer-frames (now + duration * 1000000) a w'

count-push : (t : Timer) (ts : Timer.Timers) → 0 < count t.handle (timer_refs (Timer.push t ts))
unfolding Timer.push
count-push t [] = ground arith
count-push t (u ∷ us) = ground (arith, count-push t us)

-- One reference that is counted cannot be the caller's and a timer's.
two_references :
    (a : ℕ) (ext : List ℕ) (w : World)
    → a ≢ 0
    → Suspended a 1 w.shared.frames
    → 0 < count a (timer_refs w.reactor.timers)
    → ¬ Sound (a ∷ ext) w
two_references a ext w nz s waits sound =
    let held =
      subst (λ f. Counts f (count a (refs w.scheduler ++ a ∷ (ext ++ timer_refs w.reactor.timers))))
        s.live (sound.counted.counts a nz) in
    omega (
      arith,
      held.0,
      s.counted,
      waits,
      count-append a (refs w.scheduler) (a ∷ (ext ++ timer_refs w.reactor.timers)),
      count_self a (ext ++ timer_refs w.reactor.timers),
      count-append a ext (timer_refs w.reactor.timers),
    )
  where
    count_self : (x : ℕ) (xs : List ℕ) → count x (x ∷ xs) ≡ suc (count x xs)
    count_self x xs = ground arith

-- Such code does not keep the contract of `Behaves`: the reference that its caller keeps and the one that the timer
-- would have to hold are two, and the frame's count is one.
sleep-unsafe :
    (code : ℕ → World → Option World) (now duration a : ℕ) (w w' : World)
    → a ≢ 0
    → code a w ≡ some w'
    → Suspended a 1 w'.shared.frames
    → ¬ Safe (a ∷ []) (then_sleeps code now duration a w)
unfolding sleep_suspend
sleep-unsafe code now duration a w w' nz ran s (v, ext, came, sound) =
    two_references a ext asleep nz
      (subst (λ (sh : Shared). Suspended a 1 sh.frames) (sym (add_timer-frames expiry a w')) s)
      (rw (add_timer-timers expiry a w')
        (count-push (record { expiry = expiry; handle = a }) w'.reactor.timers))
      (subst (λ u. Sound (a ∷ ext) u) (sym (some-inj (sym waits ∙ came))) sound)
  where
    expiry : ℕ
    expiry = now + duration * 1000000

    asleep : World
    asleep = add_timer expiry a w'

    waits : then_sleeps code now duration a w ≡ some asleep
    waits = rw (ran, ◌>>=◌) refl

    some-inj : {x y : World} → some x ≡ some y → x ≡ y
    some-inj e = cc
