-- ===== src/Poller/Tests.antt =====
-- The theorem on the macOS poller at three events.
use tiny_coro_build_your_own.Common.{ℕ, ◌≡◌, ◌≢◌, List, [], ◌∷◌, ◌++◌, arith, All}
use tiny_coro_build_your_own.Common.Int.{pos}
use tiny_coro_build_your_own.Poller.Kqueue.{KqueuePoller, wait}
use tiny_coro_build_your_own.Poller.Kqueue.Dispatch.{
  Source, woken, readable, writable, events_of, handles_of, resume_all, wait-resumes,
}

abbrev poller : KqueuePoller
poller = record { kq = pos 3; wakeup_id = pos 42 }

abbrev sources : List Source
sources = readable (pos 5) 8 ∷ woken ∷ writable (pos 6) 16 ∷ []

abbrev log : ℕ → List ℕ → List ℕ
log h hs = hs ++ h ∷ []

no_null : All (λ h. h ≢ 0) (handles_of sources)
no_null = ground arith

wait-resumes_example : wait log (events_of poller sources) [] ≡ resume_all log (8 ∷ 16 ∷ []) []
wait-resumes_example = wait-resumes log poller sources [] no_null
