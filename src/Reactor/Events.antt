-- ===== src/Reactor/Events.antt =====
-- What the events of `epoll_wait` lead to.
use tiny_coro_build_your_own.Common.{
  ◌%◌, ◌^◌, ◌<◌, ◌≡◌, sym, ap, ◌∙◌, inl, inr, List, [], ◌∷◌, ◌++◌, arith, if◌then◌else◌, ◌==◌,
  append-nil, append_assoc, Bool-cases,
}
use native.Mathlib.Nat.{mod-eq_of_lt}
use tiny_coro_build_your_own.Common.Int.{pos}
use tiny_coro_build_your_own.Task.{Task}
use tiny_coro_build_your_own.Poller
use tiny_coro_build_your_own.Poller.{Call, EpollEvent, wake_event}
use tiny_coro_build_your_own.Scheduler.{World}
use tiny_coro_build_your_own.Scheduler.Spawn.{queued, spawn_address-queue}
use tiny_coro_build_your_own.Reactor.{log, spawn_address, io_handler}

abbrev pub dispatch : Poller.Poller → List EpollEvent → World → World
dispatch p evs w = Poller.wait (λ c. log (c ∷ [])) io_handler p evs w

-- The tasks behind the events, in their order.
abbrev pub tasks_of : List EpollEvent → List Task
tasks_of [] = []
tasks_of (ev ∷ evs) = queued ev.user ++ tasks_of evs

-- What one event leads to.
abbrev handle_event : Poller.Poller → EpollEvent → World → World
handle_event p ev w =
    if ev.user == 0 then log (Call.read_fd (pos p.wake_fd) ∷ []) w else io_handler ev.user w

handle_event-queue :
    (p : Poller.Poller) (ev : EpollEvent) (w : World)
    → (handle_event p ev w).scheduler.global_queue ≡ w.scheduler.global_queue ++ queued ev.user
unfolding io_handler spawn_address
handle_event-queue p ev w = elim (Bool-cases (ev.user == 0)) [
  | inl null ↦ rw null (sym (append-nil _))
  | inr live ↦ let e = spawn_address-queue ev.user w.scheduler in rw live (rw live at e)
]

-- Each event with a pointer makes one task ready, in the order of the events.
pub dispatch-queue :
    (p : Poller.Poller) (evs : List EpollEvent) (w : World)
    → (dispatch p evs w).scheduler.global_queue ≡ w.scheduler.global_queue ++ tasks_of evs
unfolding Poller.wait
dispatch-queue p [] w = sym (append-nil _)
dispatch-queue p (ev ∷ evs) w =
    dispatch-queue p evs (handle_event p ev w)
    ∙ ap (λ xs. xs ++ tasks_of evs) (handle_event-queue p ev w)
    ∙ append_assoc w.scheduler.global_queue (queued ev.user) (tasks_of evs)

-- The event of a wake-up carries the descriptor: if that is from 1 to 2 ^ 31 - 1, whatever the state,
-- it makes a task out of the number of the descriptor, and no system call is made.
pub wake_event-spawns :
    (p : Poller.Poller) (w : World)
    → 0 < p.wake_fd
    → p.wake_fd < 2 ^ 31
    → ((dispatch p (wake_event p.wake_fd ∷ []) w).scheduler.global_queue
        ≡ w.scheduler.global_queue ++ record { handle = p.wake_fd } ∷ [])
      × ((dispatch p (wake_event p.wake_fd ∷ []) w).calls ≡ w.calls)
unfolding Poller.wait io_handler spawn_address
wake_event-spawns p w some_fd small = (
  dispatch-queue p (wake_event p.wake_fd ∷ []) w
      ∙ ap (λ xs. w.scheduler.global_queue ++ xs) carries_fd,
  ground (arith, mod-eq_of_lt {n = p.wake_fd} {m = 2 ^ 32}),
)
  where
    whole : p.wake_fd % 2 ^ 32 ≡ p.wake_fd
    whole = omega arith

    carries_fd : tasks_of (wake_event p.wake_fd ∷ []) ≡ record { handle = p.wake_fd } ∷ []
    carries_fd = rw whole (ground arith)
