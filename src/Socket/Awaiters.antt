-- ===== src/Socket/Awaiters.antt =====
-- Coroutines that await I/O: their frames, and the results that they resume with.
use tiny_coro_build_your_own.Common.{
  ℕ, ◌≡◌, refl, ◌≢◌, Bool, true, false, Option, some, ◌++◌, update,
}
use tiny_coro_build_your_own.Common.Int.{ℤ}
use tiny_coro_build_your_own.Task.{Promise, Frames, ◌>>=◌, add_ref}
use tiny_coro_build_your_own.Poller
use tiny_coro_build_your_own.Poller.{AddResult}
use tiny_coro_build_your_own.Scheduler.{World, with_frames, run_task}
use tiny_coro_build_your_own.Scheduler.Lifetimes.{Suspended, running, run_task-keeps, update_self}
use tiny_coro_build_your_own.Socket.{Errno, Awaiter, read_suspend, failed, would_block}

-- A coroutine that runs some code and then suspends in `await_suspend` of a read.
abbrev then_reads : (ℕ → World → Option World) → AddResult → Awaiter → ℕ → World → Option World
then_reads code outcome aw h w = do w' ← code h w; read_suspend outcome h aw w'

add_ref-live :
    (a : ℕ) (fs : Frames) (p : Promise)
    → fs a ≡ some p
    → p.ref_count ≡ 1
    → add_ref a fs ≡ some (update fs a (some (record p { ref_count = 2 })))
unfolding add_ref
add_ref-live a fs p live one = rw (live, ◌>>=◌, one) refl

-- A worker that holds the only reference to an idle, suspended coroutine runs it, and it awaits a read,
-- its code having taken no reference. The frame outlives the turn, since `await_suspend` has added a
-- reference for the reactor: it is idle, not finished, with that single reference, and the poller has
-- been told its address.
read-keeps_frame :
    (code : ℕ → World → Option World) (outcome : AddResult) (aw : Awaiter) (a : ℕ) (w w' : World)
    → a ≢ 0
    → (s : Suspended a 1 w.shared.frames) → s.promise.is_running ≡ false
    → code a (with_frames (update w.shared.frames a (some (running s.promise))) w) ≡ some w'
    → Suspended a 1 w'.shared.frames
    → (v : World) × (run_task (then_reads code outcome aw) (record { handle = a }) w ≡ some v)
      × ((s' : Suspended a 1 v.shared.frames) × (s'.promise.is_running ≡ false))
      × (v.calls ≡ w'.calls ++ Poller.add_read w'.reactor.poller aw.fd a outcome)
unfolding read_suspend
read-keeps_frame code outcome aw a w w' nz s rest ran s' = (
  _,
  run_task-keeps (then_reads code outcome aw) a nz w registered s rest
      (rw (ran, ◌>>=◌, add_ref-live a w'.shared.frames s'.promise s'.live s'.counted) refl)
      shared_by_reactor,
  (
    record {
      promise = record (s'.promise) { is_running = false; ref_count = 1 };
      live = update_self registered.shared.frames a _;
      not_done = s'.not_done;
      counted = refl;
    },
    refl,
  ),
  refl,
)
  where
    registered : World
    registered =
        record (with_frames
          (update w'.shared.frames a (some (record (s'.promise) { ref_count = 2 }))) w') {
            calls = w'.calls ++ Poller.add_read w'.reactor.poller aw.fd a outcome;
          }

    shared_by_reactor : Suspended a 2 registered.shared.frames
    shared_by_reactor = record {
      promise = record (s'.promise) { ref_count = 2 };
      live = update_self w'.shared.frames a _;
      not_done = s'.not_done;
      counted = refl;
    }

-- An awaiter that has made its system call, with whether it has to wait.
abbrev pub Resumes :
    (Errno → ℤ → Awaiter → ℤ × Bool)
    → (res retry : ℤ) (errno errno' : Errno) → Awaiter × Bool
    → Type 0
Resumes resume res retry errno errno' (aw, ready) =
    (ready ≡ true → resume errno retry aw ≡ (res, false))
    × (ready ≡ false → would_block errno' ≡ true → resume errno' retry aw ≡ (retry, true))
    × (ready ≡ false
        → would_block errno' ≡ false
        → (resume errno' retry aw ≡ (res, false)) × (failed res ≡ true))
