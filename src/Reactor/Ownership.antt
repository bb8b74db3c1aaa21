-- ===== src/Reactor/Ownership.antt =====
-- include/scheduler.h, the loop of the reactor: the references that timers and registrations hold go
-- to the scheduler.
use mathlib.Core.Path.{subst}
use tiny_coro_build_your_own.Common.{
  ℕ, suc, map, ◌≡◌, append_assoc, count, count-append, ap, true, ◌∙◌, refl, sym, inl, inr, List, [],
  ◌∷◌, ◌++◌, arith, leb, Bool-cases, if◌then◌else◌, ◌==◌, ==_iff,
}
use tiny_coro_build_your_own.Common.Int.{ℤ, pos}
use tiny_coro_build_your_own.Task.{from_address}
use tiny_coro_build_your_own.Poller
use tiny_coro_build_your_own.Poller.{EpollEvent, Call}
use tiny_coro_build_your_own.Timer.{Timers, Reactor}
use tiny_coro_build_your_own.Scheduler.{World, Worker, wake, stop_workers}
use tiny_coro_build_your_own.Scheduler.Ownership.{entries}
use tiny_coro_build_your_own.Scheduler.Ownership.State.{
  timer_refs, Accounted, Sound, null-Accounted, reordered-Accounted,
}
use tiny_coro_build_your_own.Scheduler.Running.Life.{Leaves}
use tiny_coro_build_your_own.Scheduler.Ownership.Spawn.{
  Same, same_workers-Accounted, spawn-Accounted,
}
use tiny_coro_build_your_own.Reactor.Order
use tiny_coro_build_your_own.Reactor.Events
use tiny_coro_build_your_own.Reactor.{
  log, spawn_address, io_handler, fire, timeout_ms, turn, stop, shut_down, Round,
}

-- The references of registrations whose events have come.
abbrev pub event_refs : List EpollEvent → List ℕ
event_refs [] = []
event_refs (ev ∷ evs) = ev.user ∷ event_refs evs

from_address-handle : (p : ℕ) → (from_address p).handle ≡ p
unfolding from_address
from_address-handle p = ground arith

spawn_address-Accounted :
    {ext : List ℕ} (p : ℕ) (w : World) → Accounted (p ∷ ext) w → Accounted ext (spawn_address p w)
unfolding spawn_address
spawn_address-Accounted {ext} p w v =
    spawn-Accounted (from_address p) w
      (subst (λ h. Accounted (h ∷ ext) w) (sym (from_address-handle p)) v)

fire-Accounted :
    (ext : List ℕ) (now : ℕ) (ts : Timers) (w : World)
    → Accounted (timer_refs ts ++ ext) w
    → Accounted (timer_refs (fire now ts w).0 ++ ext) (fire now ts w).1
unfolding fire
fire-Accounted ext now [] w v = v
fire-Accounted ext now (t ∷ ts) w v = elim (Bool-cases (leb t.expiry now)) [
  | inl due ↦
      rw due (
        fire-Accounted ext now ts (spawn_address t.handle w) (spawn_address-Accounted t.handle w v))
  | inr not_yet ↦ rw not_yet v
]

log-Accounted :
    {ext : List ℕ} {w : World} (cs : List Call) → Accounted ext w → Accounted ext (log cs w)
log-Accounted cs v = record { counted = v.counted; queues = v.queues }

reactor-Accounted :
    {ext : List ℕ} {w : World} {r : Reactor}
    → Accounted ext w
    → Accounted ext (record w { reactor = r })
reactor-Accounted v = record { counted = v.counted; queues = v.queues }

abbrev handle_event : Poller.Poller → EpollEvent → World → World
handle_event p ev w =
    if ev.user == 0 then log (Call.read_fd (pos p.wake_fd) ∷ []) w else io_handler ev.user w

handle_event-Accounted :
    {ext : List ℕ} (p : Poller.Poller) (ev : EpollEvent) (w : World)
    → Accounted (ev.user ∷ ext) w
    → Accounted ext (handle_event p ev w) × ((handle_event p ev w).reactor ≡ w.reactor)
unfolding io_handler spawn_address
handle_event-Accounted {ext} p ev w v = elim (Bool-cases (ev.user == 0)) [
  | inl null ↦
      rw null
        (log-Accounted (Call.read_fd (pos p.wake_fd) ∷ []) (null-Accounted (at_null null)), refl)
  | inr live ↦ rw live (spawn_address-Accounted ev.user w v, refl)
]
  where
    at_null : (ev.user == 0) ≡ true → Accounted (0 ∷ ext) w
    at_null null = subst (λ h. Accounted (h ∷ ext) w) ((==_iff ev.user 0).0 null) v

wait-Accounted :
    (ext : List ℕ) (p : Poller.Poller) (evs : List EpollEvent) (w : World)
    → Accounted (event_refs evs ++ ext) w
    → (let w' = Poller.wait (λ c. log (c ∷ [])) io_handler p evs w in
        Accounted ext w' × (w'.reactor ≡ w.reactor))
unfolding Poller.wait
wait-Accounted ext p [] w v = (v, refl)
wait-Accounted ext p (ev ∷ evs) w v =
    let (v', same) = handle_event-Accounted p ev w v in
    let (v'', same') = wait-Accounted ext p evs (handle_event p ev w) v' in (v'', same' ∙ same)

-- One round of the reactor's loop keeps the account of the references.
round-Sound :
    (ext : List ℕ) (e : Round) (w : World)
    → (let w₁ = e.others (timeout_ms e.now w.reactor.timers) w in
        Sound (event_refs e.events ++ ext) w₁)
    → Sound ext (turn e w)
unfolding turn
round-Sound ext e w v =
    let w₁ = e.others (timeout_ms e.now w.reactor.timers) w in
    let ts = timer_refs w₁.reactor.timers in
    let w₂ = Poller.wait (λ c. log (c ∷ [])) io_handler w₁.reactor.poller e.events w₁ in
    let (v₂, same) =
      wait-Accounted (ext ++ ts) w₁.reactor.poller e.events w₁
        (subst (λ xs. Accounted xs w₁) (append_assoc (event_refs e.events) ext ts) v) in
    let v₃ : Accounted (timer_refs w₂.reactor.timers ++ ext) w₂ =
      reordered-Accounted
        (λ a. omega (
          arith,
          count-append a ext ts,
          count-append a (timer_refs w₂.reactor.timers) ext,
          ap (λ (r : Reactor). count a (timer_refs r.timers)) same,
        ))
        v₂ in
    let left = fire e.later w₂.reactor.timers w₂ in
    reordered-Accounted
      (λ a.
        omega
          (arith, count-append a ext (timer_refs left.0), count-append a (timer_refs left.0) ext))
      (reactor-Accounted (fire-Accounted ext e.later w₂.reactor.timers w₂ v₃))

stop_workers-Same : (ws : List Worker) → Same ws (map wake ws)
unfolding wake
stop_workers-Same [] = (refl, (λ v. v), refl)
stop_workers-Same (w ∷ ws) =
    let (same, keeps, size) = stop_workers-Same ws in
    (ap (λ rs. entries w.local_queue ++ rs) same, (λ v. (v.0, keeps v.1)), ap suc size)

-- `~Scheduler` up to the joining of the threads moves no reference.
pub shut_down-Sound : (ext : List ℕ) (w : World) → Sound ext w → Sound ext (shut_down w)
unfolding shut_down stop stop_workers
shut_down-Sound ext w v =
    let flagged =
      same_workers-Accounted (map wake w.scheduler.workers) true w.scheduler.next v
        (stop_workers-Same w.scheduler.workers) in
    elim (Bool-cases w.reactor.running) [
      | inl runs ↦
          rw runs (log-Accounted (Poller.wake w.reactor.poller) (reactor-Accounted flagged))
      | inr still ↦ rw still (reactor-Accounted flagged)
    ]

-- Seen from a worker, a round in which no registration's event comes moves references only from timers
-- to the global queue.
pub quiet_turn-Leaves :
    (e : Round) → e.events ≡ [] → ((m : ℤ) → Leaves (e.others m)) → Leaves (turn e)
quiet_turn-Leaves e none_came leaves w ext v =
    let w₁ = e.others (timeout_ms e.now w.reactor.timers) w in
    let (ext', v₁) = leaves (timeout_ms e.now w.reactor.timers) w ext v in
    (
      ext',
      round-Sound ext' e w (subst (λ evs. Sound (event_refs evs ++ ext') w₁) (sym none_came) v₁),
    )

handle_event-reactor :
    (p : Poller.Poller) (ev : EpollEvent) (w : World) → (handle_event p ev w).reactor ≡ w.reactor
unfolding io_handler spawn_address
handle_event-reactor p ev w = elim (Bool-cases (ev.user == 0)) [
  | inl null ↦ rw null refl
  | inr live ↦ rw live refl
]

wait-reactor :
    (p : Poller.Poller) (evs : List EpollEvent) (w : World)
    → (Poller.wait (λ c. log (c ∷ [])) io_handler p evs w).reactor ≡ w.reactor
unfolding Poller.wait
wait-reactor p [] w = refl
wait-reactor p (ev ∷ evs) w = wait-reactor p evs (handle_event p ev w) ∙ handle_event-reactor p ev w

-- The tasks of these events and then of these timers join the global queue.
abbrev pub Turned : Round → World → World → Type 0
Turned e w₁ w' =
    Order.Fires e.later w₁.reactor.timers w'.reactor.timers
      (w₁.scheduler.global_queue ++ Events.tasks_of e.events) w'.scheduler.global_queue

turn-Turned :
    (e : Round) (w : World) → Turned e (e.others (timeout_ms e.now w.reactor.timers) w) (turn e w)
unfolding turn
turn-Turned e w =
    let w₁ = e.others (timeout_ms e.now w.reactor.timers) w in
    let w₂ = Poller.wait (λ c. log (c ∷ [])) io_handler w₁.reactor.poller e.events w₁ in
    let same = wait-reactor w₁.reactor.poller e.events w₁ in
    subst
      (λ q.
        Order.Fires e.later w₁.reactor.timers (fire e.later w₂.reactor.timers w₂).0 q
          (fire e.later w₂.reactor.timers w₂).1.scheduler.global_queue)
      (Events.dispatch-queue w₁.reactor.poller e.events w₁)
      (subst
        (λ (r : Reactor).
          Order.Fires e.later r.timers (fire e.later w₂.reactor.timers w₂).0
            w₂.scheduler.global_queue (fire e.later w₂.reactor.timers w₂).1.scheduler.global_queue)
        same (Order.fire-Fires e.later w₂.reactor.timers w₂))

-- One round of the reactor's loop, after which other threads have left the state sound: if each timer holds a
-- reference to its coroutine, and so does each registration whose event comes, then the timers that are due, up to the
-- first that is not, are taken from the queue of timers, and no others; the tasks of the events that have come, in their
-- order, and then those of the timers taken, are appended to the global queue; and their references are the
-- scheduler's: each frame is allocated exactly if there is a reference to it, with that count.
pub turn-Sound :
    (ext : List ℕ) (e : Round) (w : World)
    → (let w₁ = e.others (timeout_ms e.now w.reactor.timers) w in
        Sound (event_refs e.events ++ ext) w₁ → Turned e w₁ (turn e w) × Sound ext (turn e w))
turn-Sound ext e w v = (turn-Turned e w, round-Sound ext e w v)
