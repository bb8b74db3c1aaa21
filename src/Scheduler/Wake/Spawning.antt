-- ===== src/Scheduler/Wake/Spawning.antt =====
-- A task that is spawned is found: no wake-up of a worker is lost.
use tiny_coro_build_your_own.Common.{
  ℕ, ◌<◌, ◌≡◌, refl, ◌≢◌, ◌⊎◌, inl, inr, Bool, true, false, none, [], ◌∷◌, arith,
}
use tiny_coro_build_your_own.Parker
use tiny_coro_build_your_own.Parker.{empty, parked, notified, unpark, try_park, reset, is_parked}
use tiny_coro_build_your_own.Queue.Global
use tiny_coro_build_your_own.Queue.Global.{GlobalQueue, push_ptr}
use tiny_coro_build_your_own.Scheduler.Wake.{
  Pc, deciding, blocked, exited, System, Step, pushes, stops, wakes, checks, finds, misses,
  finishes, tries, wakes_up, resets, Reach, start, next, is_notified,
}

-- The worker looks at the queue before it blocks, if it is not stopped.
abbrev pub alert : Pc → Parker.State → Bool
alert deciding p = is_notified p
alert blocked p = is_notified p
alert exited p = false
alert _ p = true

abbrev pub Ready : System → ℕ → Type 0
Ready s i = (0 < s.waking i) ⊎ (alert (s.pc i) (s.parkers i) ≡ true)

-- No worker has left, and one will look at the queue if a task is in it.
abbrev pub Live : ℕ → System → Type 0
Live n s = ((i : ℕ) → s.pc i ≢ exited) × ((s.queue ≡ []) ⊎ ((i : ℕ) × (i < n) × Ready s i))

pop-empty : (q : GlobalQueue) → (Global.pop q).1 ≡ none → (Global.pop q).0 ≡ []
unfolding Global.pop
pop-empty [] e = refl
pop-empty (t ∷ q) e = cc

pop-still_empty : (q : GlobalQueue) → q ≡ [] → (Global.pop q).0 ≡ []
unfolding Global.pop
pop-still_empty [] e = refl
pop-still_empty (t ∷ q) e = cc

-- A step that adds no task and keeps each worker as ready as it was.
Live-keeps :
    {n : ℕ} (s s' : System)
    → Live n s
    → ((j : ℕ) → s.pc j ≢ exited → s'.pc j ≢ exited)
    → (s.queue ≡ [] → s'.queue ≡ [])
    → ((j : ℕ) → s.pc j ≢ exited → Ready s j → Ready s' j)
    → Live n s'
Live-keeps s s' (inside, inl none_left) stay still keeps =
    (λ j. stay j (inside j), inl (still none_left))
Live-keeps s s' (inside, inr (i, h, ready)) stay still keeps =
    (λ j. stay j (inside j), inr (i, h, keeps i (inside i) ready))

Step-Live : {n : ℕ} {s s' : System} → Step n s s' → s'.stop ≡ false → Live n s → Live n s'
unfolding unpark try_park reset
Step-Live {s} {s'} (pushes i p h) run v = (v.0, inr (i, h, ground arith))
Step-Live stops run v = cc
Step-Live {s} {s'} (wakes i h) run v = Live-keeps s s' v (λ j x. x) (λ e. e) (λ j x r. ground arith)
Step-Live {s} {s'} (checks i at) run v =
    Live-keeps s s' v (λ j x y. ground arith) (λ e. e) (λ j x r. ground arith)
Step-Live {s} {s'} (finds i t at e) run v =
    Live-keeps s s' v (λ j x y. ground arith) (pop-still_empty s.queue) (λ j x r. ground arith)
Step-Live {s} {s'} (misses i at e) run v = (λ j y. ground (arith, v.0 j), inl (pop-empty s.queue e))
Step-Live {s} {s'} (finishes i at) run v =
    Live-keeps s s' v (λ j x y. ground arith) (λ e. e) (λ j x r. ground arith)
Step-Live {s} {s'} (tries i at) run v =
    Live-keeps s s' v (λ j x y. ground arith) (λ e. e) (λ j x r. ground arith)
Step-Live {s} {s'} (wakes_up i at e) run v =
    Live-keeps s s' v (λ j x y. ground arith) (λ e. e) (λ j x r. ground arith)
Step-Live {s} {s'} (resets i at) run v =
    Live-keeps s s' v (λ j x y. ground arith) (λ e. e) (λ j x r. ground arith)

-- Once set, the stop flag stays set.
Step-stop : {n : ℕ} {s s' : System} → Step n s s' → s'.stop ≡ false → s.stop ≡ false
Step-stop (pushes i p h) run = run
Step-stop stops run = cc
Step-stop (wakes i h) run = run
Step-stop (checks i at) run = run
Step-stop (finds i t at e) run = run
Step-stop (misses i at e) run = run
Step-stop (finishes i at) run = run
Step-stop (tries i at) run = run
Step-stop (wakes_up i at e) run = run
Step-stop (resets i at) run = run

Reach-Live : {n : ℕ} {s : System} → Reach n s → s.stop ≡ false → Live n s
Reach-Live start run = (λ i e. cc, inl refl)
Reach-Live (next r st) run = Step-Live st run (Reach-Live r (Step-stop st run))

-- No wake-up is lost: while the scheduler is not stopped, if a task is in the global queue and every
-- `spawn` has made its call of `wake`, then some worker is running, or is to look at the queue, or has
-- a notification with which it cannot block before it looks at the queue again.
pub no_lost_wakeup :
    {n : ℕ} {s : System}
    → Reach n s
    → s.stop ≡ false
    → s.queue ≢ []
    → ((i : ℕ) → s.waking i ≡ 0)
    → (i : ℕ) × (i < n) × (alert (s.pc i) (s.parkers i) ≡ true)
no_lost_wakeup {n} {s} r run some_left all_woken = ready_worker (Reach-Live r run).1
  where
    ready_worker :
        (s.queue ≡ []) ⊎ ((i : ℕ) × (i < n) × Ready s i)
        → (i : ℕ) × (i < n) × (alert (s.pc i) (s.parkers i) ≡ true)
    ready_worker (inl none_left) = absurd (some_left none_left)
    ready_worker (inr (i, h, inl w)) = absurd (omega (arith, all_woken i))
    ready_worker (inr (i, h, inr ready)) = (i, h, ready)
