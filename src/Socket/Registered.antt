-- ===== src/Socket/Registered.antt =====
-- include/socket.h, `await_suspend`: the reference that a registration with the poller holds.
use mathlib.Core.Path.{subst}
use tiny_coro_build_your_own.Common.{
  ℕ, ◌+◌, ◌^◌, ◌<◌, ◌≡◌, ◌≢◌, refl, sym, false, update, Option, some, List, [], ◌∷◌, ◌++◌, arith,
  count-append,
}
use tiny_coro_build_your_own.Task.{Promise, Frames, ◌>>=◌, add_ref}
use tiny_coro_build_your_own.Task.Ownership.{add_ref-Counted, owned_frame}
use tiny_coro_build_your_own.Task.Resuming.{same_counts-Counted}
use tiny_coro_build_your_own.Poller
use tiny_coro_build_your_own.Poller.{AddResult, Call}
use tiny_coro_build_your_own.Scheduler.{World, with_frames, run_task}
use tiny_coro_build_your_own.Scheduler.Lifetimes.{running, begin_resume-idle}
use tiny_coro_build_your_own.Scheduler.Ownership.Turn.{leaves}
use tiny_coro_build_your_own.Scheduler.Ownership.{refs}
use tiny_coro_build_your_own.Scheduler.Ownership.State.{timer_refs, Sound, held}
use tiny_coro_build_your_own.Socket.{Awaiter, read_suspend, write_suspend}

-- Code that comes to `await_suspend`, of a read, an accept or a write.
abbrev pub then_awaits :
    (AddResult → ℕ → Awaiter → World → Option World)
    → (ℕ → World → Option World)
    → AddResult
    → Awaiter
    → ℕ
    → World
    → Option World
then_awaits suspend code outcome aw a w = do w' ← code a w; suspend outcome a aw w'

-- The call has told the poller about the coroutine, which the caller and the registration both refer to.
abbrev pub Registered : List ℕ → ℕ → World → List Call → Option World → Type 0
Registered ext a w calls r =
    (v : World) × (r ≡ some v) × Sound (a ∷ a ∷ ext) v × (v.calls ≡ w.calls ++ calls)

-- One more reference to a coroutine that the caller refers to.
shared_once :
    (a : ℕ) (ext : List ℕ) (w : World)
    → a ≢ 0
    → Sound (a ∷ ext) w
    → ((p : Promise) → w.shared.frames a ≡ some p → p.ref_count + 1 < 2 ^ 31)
    → (fs : Frames) × (add_ref a w.shared.frames ≡ some fs) × Sound (a ∷ a ∷ ext) (with_frames fs w)
shared_once a ext w nz v room =
    let owners = refs w.scheduler ++ a ∷ (ext ++ timer_refs w.reactor.timers) in
    let (p, live, counted) = owned_frame v.counted a nz (held a v) in
    let few = room p live in
    let (fs, added, inv) =
      add_ref-Counted v.counted a nz (held a v) (omega (arith, counted, few)) in
    (
      fs,
      added,
      record {
        counted = same_counts-Counted inv (λ b bz. omega (
          arith,
          count-append b (a ∷ []) owners,
          count-append b (refs w.scheduler) (a ∷ (ext ++ timer_refs w.reactor.timers)),
          count-append b (refs w.scheduler) (a ∷ a ∷ (ext ++ timer_refs w.reactor.timers)),
          count-append b (a ∷ []) (a ∷ (ext ++ timer_refs w.reactor.timers)),
        ));
        queues = v.queues;
      },
    )

module _ (code : ℕ → World → Option World) (outcome : AddResult) (aw : Awaiter) (a : ℕ)
    (ext : List ℕ) (w w' : World) (nz : a ≢ 0) (ran : code a w ≡ some w') (v : Sound (a ∷ ext) w')
    (room : (p : Promise) → w'.shared.frames a ≡ some p → p.ref_count + 1 < 2 ^ 31) where
  registers :
      (suspend : AddResult → ℕ → Awaiter → World → Option World) (calls : List Call)
      → ((fs : Frames)
          → add_ref a w'.shared.frames ≡ some fs
          → (u : World) × (suspend outcome a aw w' ≡ some u)
            × (u ≡ record (with_frames fs w') { calls = w'.calls ++ calls }))
      → Registered ext a w' calls (then_awaits suspend code outcome aw a w)
  registers suspend calls gives =
      let (fs, added, sound) = shared_once a ext w' nz v room in
      let (u, came, is) = gives fs added in
      (
        u,
        rw (ran, ◌>>=◌) came,
        subst (λ x. Sound (a ∷ a ∷ ext) x) (sym is)
            (record { counted = sound.counted; queues = sound.queues }),
        rw is refl,
      )

-- A coroutine that comes to `await_suspend` of a read or an accept, or of a write, in a sound state in which its caller
-- refers to it and one more reference can be counted: the state is sound again with a second reference outside the
-- queues, that of the registration, and the poller has been told the coroutine's address.
await-Registered :
    (code : ℕ → World → Option World) (outcome : AddResult) (aw : Awaiter) (a : ℕ) (ext : List ℕ)
    (w w' : World)
    → a ≢ 0
    → code a w ≡ some w'
    → Sound (a ∷ ext) w'
    → ((p : Promise) → w'.shared.frames a ≡ some p → p.ref_count + 1 < 2 ^ 31)
    → Registered ext a w'
        (Poller.add_read w'.reactor.poller aw.fd a outcome)
        (then_awaits read_suspend code outcome aw a w)
      × Registered ext a w'
          (Poller.add_write w'.reactor.poller aw.fd a outcome)
          (then_awaits write_suspend code outcome aw a w)
unfolding read_suspend write_suspend
await-Registered code outcome aw a ext w w' nz ran v room = (
  registers code outcome aw a ext w w' nz ran v room read_suspend
      (Poller.add_read w'.reactor.poller aw.fd a outcome)
      (λ fs added. (_, rw (added, ◌>>=◌) refl, refl)),
  registers code outcome aw a ext w w' nz ran v room write_suspend
      (Poller.add_write w'.reactor.poller aw.fd a outcome)
      (λ fs added. (_, rw (added, ◌>>=◌) refl, refl)),
)

-- A turn has ended in a sound state with a reference of the registration.
abbrev pub Outlives : List ℕ → ℕ → World → List Call → Option World → Type 0
Outlives ext a w calls r =
    (v : World) × (r ≡ some v) × Sound (a ∷ ext) v × (v.calls ≡ w.calls ++ calls)

turn-Outlives :
    (body : ℕ → World → Option World) (a : ℕ) (ext : List ℕ) (w w' : World) (p : Promise)
    (calls : List Call)
    → a ≢ 0
    → w.shared.frames a ≡ some p
    → p.at_end ≡ false
    → p.is_running ≡ false
    → Registered ext a w' calls
        (body a (with_frames (update w.shared.frames a (some (running p))) w))
    → Outlives ext a w' calls (run_task body (record { handle = a }) w)
turn-Outlives body a ext w w' p calls nz live unfinished idle (u, came, sound, told) =
    let (fs, ran, v) =
      leaves body (record { handle = a }) (a ∷ ext) w u
        (update w.shared.frames a (some (running p))) nz
        (begin_resume-idle a nz w.shared.frames live unfinished idle) came sound in
    (with_frames fs u, ran, v, told)

-- A worker runs an idle, suspended coroutine, whose code comes to `await_suspend` of a read or an accept, or of a write,
-- in a sound state in which one more reference to it can be counted. The turn ends, in a sound state: the worker's
-- reference is gone, the registration has one of its own, for which the frame stays allocated, and the poller has been
-- told the coroutine's address.
pub await-Outlives :
    (code : ℕ → World → Option World) (outcome : AddResult) (aw : Awaiter) (a : ℕ) (ext : List ℕ)
    (w w' : World) (p : Promise)
    → a ≢ 0
    → w.shared.frames a ≡ some p
    → p.at_end ≡ false
    → p.is_running ≡ false
    → code a (with_frames (update w.shared.frames a (some (running p))) w) ≡ some w'
    → Sound (a ∷ ext) w'
    → ((q : Promise) → w'.shared.frames a ≡ some q → q.ref_count + 1 < 2 ^ 31)
    → Outlives ext a w'
        (Poller.add_read w'.reactor.poller aw.fd a outcome)
        (run_task (then_awaits read_suspend code outcome aw) (record { handle = a }) w)
      × Outlives ext a w'
          (Poller.add_write w'.reactor.poller aw.fd a outcome)
          (run_task (then_awaits write_suspend code outcome aw) (record { handle = a }) w)
await-Outlives code outcome aw a ext w w' p nz live unfinished idle ran v room =
    let begun = with_frames (update w.shared.frames a (some (running p))) w in
    let (for_reading, for_writing) =
      await-Registered code outcome aw a ext begun w' nz ran v room in
    (
      turn-Outlives (then_awaits read_suspend code outcome aw) a ext w w' p _ nz live unfinished
          idle for_reading,
      turn-Outlives (then_awaits write_suspend code outcome aw) a ext w w' p _ nz live unfinished
          idle for_writing,
    )
