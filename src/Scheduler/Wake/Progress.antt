-- ===== src/Scheduler/Wake/Progress.antt =====
-- What a worker reaches by its own steps: the next task of the global queue, and the end of `run`.
use tiny_coro_build_your_own.Common.{
  ℕ, suc, ◌≤◌, ◌<◌, ◌≡◌, refl, ap, ◌∙◌, ◌≢◌, inl, inr, true, false, [], arith, Option-cases, update,
}
use tiny_coro_build_your_own.Parker.{try_park}
use tiny_coro_build_your_own.Queue.Global
use tiny_coro_build_your_own.Queue.Global.{GlobalQueue}
use tiny_coro_build_your_own.Scheduler.Wake.{
  Pc, checking, searching, running, deciding, blocked, leaving, exited, System, Step, pushes, stops,
  wakes, checks, finds, misses, finishes, tries, wakes_up, resets, Reach, is_notified,
}
use tiny_coro_build_your_own.Scheduler.Wake.Spawning.{alert, no_lost_wakeup}
use tiny_coro_build_your_own.Scheduler.Wake.Stopping.{stopping, shutdown-no_sleeper}

-- A step that worker i makes.
abbrev pub IsTurn : {n : ℕ} {s s' : System} → ℕ → Step n s s' → Type 0
IsTurn i (pushes j p h) = ⊥
IsTurn i stops = ⊥
IsTurn i (wakes j h) = ⊥
IsTurn i (checks j at) = i ≡ j
IsTurn i (finds j t at e) = i ≡ j
IsTurn i (misses j at e) = i ≡ j
IsTurn i (finishes j at) = i ≡ j
IsTurn i (tries j at) = i ≡ j
IsTurn i (wakes_up j at e) = i ≡ j
IsTurn i (resets j at) = i ≡ j

-- A run of at most so many steps, all of worker i.
pub data Turns (n i : ℕ) : ℕ → System → System → Type 0 where
  ends : {k : ℕ} {s : System} → Turns n i k s s
  turn :
      {k : ℕ} {s s' s'' : System} (st : Step n s s')
      → IsTurn i st
      → Turns n i k s' s''
      → Turns n i (suc k) s s''

-- The worker takes the task at the front of the queue and runs it.
abbrev pub Takes : ℕ → ℕ → ℕ → System → Type 0
Takes n i k s =
    (s' : System) × Turns n i k s s' × (s'.pc i ≡ running) × (s'.queue ≡ (Global.pop s.queue).0)

-- The worker leaves `run`.
abbrev pub Exits : ℕ → ℕ → ℕ → System → Type 0
Exits n i k s = (s' : System) × Turns n i k s s' × (s'.pc i ≡ exited)

Takes-after :
    {n i k : ℕ} {s s' : System} (st : Step n s s')
    → IsTurn i st
    → s'.queue ≡ s.queue
    → Takes n i k s'
    → Takes n i (suc k) s
Takes-after st mine same (s'', turns, at, rest) =
    (s'', turn st mine turns, at, rest ∙ ap (λ q. (Global.pop q).0) same)

Exits-after :
    {n i k : ℕ} {s s' : System} (st : Step n s s')
    → IsTurn i st
    → Exits n i k s'
    → Exits n i (suc k) s
Exits-after st mine (s'', turns, at) = (s'', turn st mine turns, at)

update_self : (f : ℕ → Pc) (i : ℕ) (a : Pc) → update f i a i ≡ a
update_self f i a = ground arith

module _ (n i : ℕ) where
  Takes-searching : (s : System) → s.pc i ≡ searching → s.queue ≢ [] → Takes n i 1 s
  unfolding Global.pop
  Takes-searching s at some_left = elim (Option-cases (Global.pop s.queue).1) [
    | inl nothing ↦ absurd (some_left (ground arith))
    | inr (t, e) ↦ (_, turn (finds i t at e) refl ends, update_self s.pc i running, refl)
  ]

  Takes-checking : (s : System) → s.pc i ≡ checking → s.stop ≡ false → s.queue ≢ [] → Takes n i 2 s
  Takes-checking s at run some_left =
      Takes-after (checks i at) refl refl (Takes-searching _ (ground (arith, run)) some_left)

  Takes-leaving : (s : System) → s.pc i ≡ leaving → s.stop ≡ false → s.queue ≢ [] → Takes n i 3 s
  Takes-leaving s at run some_left =
      Takes-after (resets i at) refl refl
        (Takes-checking _ (update_self s.pc i checking) run some_left)

  Takes-alert :
      (s : System) (pc : Pc)
      → s.pc i ≡ pc
      → alert pc (s.parkers i) ≡ true
      → s.stop ≡ false
      → s.queue ≢ []
      → (k : ℕ) × (k ≤ 4) × Takes n i k s
  unfolding try_park
  Takes-alert s checking at h run some_left = (2, omega arith, Takes-checking s at run some_left)
  Takes-alert s searching at h run some_left = (1, omega arith, Takes-searching s at some_left)
  Takes-alert s running at h run some_left = (
    3,
    omega arith,
    Takes-after (finishes i at) refl refl
        (Takes-checking _ (update_self s.pc i checking) run some_left),
  )
  Takes-alert s deciding at h run some_left = (
    4,
    omega arith,
    Takes-after (tries i at) refl refl (Takes-leaving _ (ground arith) run some_left),
  )
  Takes-alert s blocked at h run some_left = (
    4,
    omega arith,
    Takes-after (wakes_up i at (ground arith)) refl refl
        (Takes-leaving _ (update_self s.pc i leaving) run some_left),
  )
  Takes-alert s leaving at h run some_left = (3, omega arith, Takes-leaving s at run some_left)
  Takes-alert s exited at h run some_left = cc

  Exits-checking : (s : System) → s.pc i ≡ checking → s.stop ≡ true → Exits n i 1 s
  Exits-checking s at stop = (_, turn (checks i at) refl ends, ground arith)

  Exits-leaving : (s : System) → s.pc i ≡ leaving → s.stop ≡ true → Exits n i 2 s
  Exits-leaving s at stop =
      Exits-after (resets i at) refl (Exits-checking _ (update_self s.pc i checking) stop)

  Exits-deciding :
      (s : System)
      → s.pc i ≡ deciding
      → is_notified (s.parkers i) ≡ true
      → s.stop ≡ true
      → Exits n i 3 s
  unfolding try_park
  Exits-deciding s at woken stop =
      Exits-after (tries i at) refl (Exits-leaving _ (ground arith) stop)

  Exits-running : (s : System) → s.pc i ≡ running → s.stop ≡ true → Exits n i 2 s
  Exits-running s at stop =
      Exits-after (finishes i at) refl (Exits-checking _ (update_self s.pc i checking) stop)

  Exits-searching :
      (s : System)
      → s.pc i ≡ searching
      → is_notified (s.parkers i) ≡ true
      → s.stop ≡ true
      → (k : ℕ) × (k ≤ 4) × Exits n i k s
  Exits-searching s at woken stop = elim (Option-cases (Global.pop s.queue).1) [
    | inl nothing ↦ (
      4,
      omega arith,
      Exits-after (misses i at nothing) refl
          (Exits-deciding _ (update_self s.pc i deciding) woken stop),
    )
    | inr (t, e) ↦ (
      3,
      omega arith,
      Exits-after (finds i t at e) refl (Exits-running _ (update_self s.pc i running) stop),
    )
  ]

  Exits-stopping :
      (s : System) (pc : Pc)
      → s.pc i ≡ pc
      → stopping pc (s.parkers i) ≡ true
      → s.stop ≡ true
      → (k : ℕ) × (k ≤ 4) × Exits n i k s
  Exits-stopping s checking at h stop = (1, omega arith, Exits-checking s at stop)
  Exits-stopping s searching at h stop = Exits-searching s at h stop
  Exits-stopping s running at h stop = (2, omega arith, Exits-running s at stop)
  Exits-stopping s deciding at h stop = (3, omega arith, Exits-deciding s at h stop)
  Exits-stopping s blocked at h stop = (
    3,
    omega arith,
    Exits-after (wakes_up i at (ground arith)) refl
        (Exits-leaving _ (update_self s.pc i leaving) stop),
  )
  Exits-stopping s leaving at h stop = (2, omega arith, Exits-leaving s at stop)
  Exits-stopping s exited at h stop = (0, omega arith, (s, ends, at))

-- While the scheduler is not stopped, if a task is in the global queue and every `spawn` has made its
-- call of `wake`, some worker takes the task at the front within four steps of its own, however the
-- threads came to this state; a task that it runs is taken to return.
pub next_task_is_taken :
    {n : ℕ} {s : System}
    → Reach n s
    → s.stop ≡ false
    → s.queue ≢ []
    → ((i : ℕ) → s.waking i ≡ 0)
    → (i : ℕ) × (i < n) × ((k : ℕ) × (k ≤ 4) × Takes n i k s)
next_task_is_taken {n} {s} r run some_left all_woken =
    let (i, here, ready) = no_lost_wakeup r run some_left all_woken in
    (i, here, Takes-alert n i s (s.pc i) refl ready run some_left)

-- Once the destructor has set `stop` and made all its calls of `wake`, each worker leaves `run` within
-- four steps of its own, so that the destructor's `join` returns; a task that it runs is taken to
-- return.
pub shutdown_ends :
    {n : ℕ} {s : System}
    → Reach n s
    → s.stop ≡ true
    → ((i : ℕ) → s.waking i ≡ 0)
    → (i : ℕ) → i < n
    → (k : ℕ) × (k ≤ 4) × Exits n i k s
shutdown_ends {n} {s} r stop all_woken i here =
    Exits-stopping n i s (s.pc i) refl (shutdown-no_sleeper r stop all_woken i here) stop
