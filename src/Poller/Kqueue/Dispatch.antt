-- ===== src/Poller/Kqueue/Dispatch.antt =====
-- Which coroutines the macOS poller resumes, and how long it waits.
use tiny_coro_build_your_own.Common.{
  ℕ, ◌+◌, ◌*◌, ◌<◌, ◌≡◌, false, refl, ap, ◌∙◌, ◌≢◌, some, List, [], ◌∷◌, ◌++◌, arith, All,
  if◌then◌else◌, ◌==◌,
}
use tiny_coro_build_your_own.Common.Int.{ℤ, pos}
use tiny_coro_build_your_own.Poller.Kqueue.{
  Kevent, KqueuePoller, Call, change, close_kq, wake, add_read, add_write, timespec, wait,
}

-- What the program asked the queue to report.
pub data Source : Type 0 where
  woken : Source
  readable writable : (fd : ℤ) (handle : ℕ) → Source

-- The calls that ask for it.
abbrev pub calls_of : KqueuePoller → Source → List Call
calls_of p woken = wake p
calls_of p (readable fd handle) = add_read p fd handle
calls_of p (writable fd handle) = add_write p fd handle

abbrev pub changes_of : List Call → List Kevent
changes_of [] = []
changes_of (change kq ev ∷ calls) = ev ∷ changes_of calls
changes_of (close_kq kq ∷ calls) = changes_of calls

-- The events for these sources: `kevent` gives each with the filter and the `udata` of its change.
abbrev pub events_of : KqueuePoller → List Source → List Kevent
events_of p [] = []
events_of p (src ∷ sources) = changes_of (calls_of p src) ++ events_of p sources

-- The coroutines that wait for a descriptor.
abbrev pub handles_of : List Source → List ℕ
handles_of [] = []
handles_of (woken ∷ sources) = handles_of sources
handles_of (readable fd handle ∷ sources) = handle ∷ handles_of sources
handles_of (writable fd handle ∷ sources) = handle ∷ handles_of sources

abbrev pub resume_all {ℓ} : {S : Type ℓ} → (ℕ → S → S) → List ℕ → S → S
resume_all callback [] s = s
resume_all callback (h ∷ hs) s = resume_all callback hs (callback h s)

-- For events whose coroutines are no null pointers, `wait` calls back once for each coroutine that waited for a
-- descriptor, in the order of the events, and not at all for a wake-up.
pub wait-resumes {ℓ} :
    {S : Type ℓ} (callback : ℕ → S → S) (p : KqueuePoller) (sources : List Source) (s : S)
    → All (λ h. h ≢ 0) (handles_of sources)
    → wait callback (events_of p sources) s ≡ resume_all callback (handles_of sources) s
unfolding wait wake add_read add_write
wait-resumes callback p [] s nz = refl
wait-resumes callback p (woken ∷ sources) s nz = wait-resumes callback p sources s nz
wait-resumes callback p (readable fd h ∷ sources) s (nz, later) =
    let not_null : (h == 0) ≡ false = ground (arith, nz) in
    ap (λ b. wait callback (events_of p sources) (if b then s else callback h s)) not_null
    ∙ wait-resumes callback p sources (callback h s) later
wait-resumes callback p (writable fd h ∷ sources) s (nz, later) =
    let not_null : (h == 0) ≡ false = ground (arith, nz) in
    ap (λ b. wait callback (events_of p sources) (if b then s else callback h s)) not_null
    ∙ wait-resumes callback p sources (callback h s) later

-- A timeout that is not negative is passed on exactly, as whole seconds and less than one second in nanoseconds.
timespec-exact :
    (timeout_ms : ℕ)
    → (sec nsec : ℕ) × (timespec (pos timeout_ms) ≡ some (sec, nsec))
      × (sec * 1000000000 + nsec ≡ timeout_ms * 1000000)
      × (nsec < 1000000000)
unfolding timespec
timespec-exact timeout_ms = (_, _, refl, omega arith, omega arith)
