-- ===== src/Scheduler/Turn.antt =====
-- A turn of a worker whose search finds nothing: the polling loop of `run_once` of include/scheduler.h.
use mathlib.Core.Path.{subst}
use tiny_coro_build_your_own.Common.{
  ℕ, ◌⊎◌, inl, inr, ◌∷◌, zero, suc, ◌<◌, ◌≡◌, refl, sym, ap, ap₂, ◌∙◌, Option, none, some, [],
  arith, All, length,
}
use tiny_coro_build_your_own.Task.{Task, ◌>>=◌}
use tiny_coro_build_your_own.Ebr
use tiny_coro_build_your_own.Queue.Global
use tiny_coro_build_your_own.Queue.Global.{GlobalQueue}
use tiny_coro_build_your_own.Scheduler.{
  Scheduler, World, Outcome, ran, parks, with_ebr, pop_global, find_task, run_task, poll, run_once,
}
use tiny_coro_build_your_own.Scheduler.Search.{Valid}
use tiny_coro_build_your_own.Scheduler.Search.Finding.{find_task-misses}

pop_global-empty : (s : Scheduler) → s.global_queue ≡ [] → pop_global s ≡ (s, none)
unfolding pop_global Global.pop
pop_global-empty s empty =
    ap result (ap Global.pop empty) ∙ ap (λ (g : GlobalQueue). result (g, none)) (sym empty)
  where
    result : GlobalQueue × Option Task → Scheduler × Option Task
    result (g, task) = (record s { global_queue = g }, task)

pop_global-found :
    (s : Scheduler) (t : Task) (queue : GlobalQueue)
    → s.global_queue ≡ t ∷ queue
    → pop_global s ≡ (record s { global_queue = queue }, some t)
unfolding pop_global Global.pop
pop_global-found s t queue e =
    ap (λ (g : GlobalQueue). (record s { global_queue = (Global.pop g).0 }, (Global.pop g).1)) e

module _ (body : ℕ → World → Option World) (others : ℕ → World → World) (ls : ℕ) where
  abbrev pub entered : World → World
  entered w = with_ebr (Ebr.enter ls w.shared.ebr) w

  abbrev pub left : World → World
  left w = with_ebr (Ebr.exit ls w.shared.ebr) w

  -- The state at the `pop_global` of round n, the first being round 0, of so many, where all rounds before
  -- have found nothing; and the state after so many such rounds.
  abbrev pub arrived : ℕ → ℕ → World → World
  arrived zero n w = w
  arrived (suc rounds) zero w = entered (others (suc rounds) w)
  arrived (suc rounds) (suc n) w = arrived rounds n (left (entered (others (suc rounds) w)))

  abbrev pub polled : ℕ → World → World
  polled zero w = w
  polled (suc rounds) w = polled rounds (left (entered (others (suc rounds) w)))

  -- What the rounds before round n find.
  abbrev pub NothingBefore : ℕ → ℕ → World → Type 0
  NothingBefore rounds n w = (k : ℕ) → k < n → (arrived rounds k w).scheduler.global_queue ≡ []

  abbrev pub Parks : ℕ → World → Option (World × Outcome) → Type 0
  Parks rounds w r = NothingBefore rounds rounds w × (r ≡ some (polled rounds w, parks))

  -- Round n takes the front of the global queue and runs it.
  abbrev pub RunsAt : ℕ → ℕ → World → Option (World × Outcome) → Type 0
  RunsAt rounds n w r =
      let w' = arrived rounds n w in
      NothingBefore rounds n w
      × ((t : Task) × (queue : GlobalQueue) × (w'.scheduler.global_queue ≡ t ∷ queue)
          × (r ≡ (do
            w'' ←
                run_task body t
                  (record w' { scheduler = record (w'.scheduler) { global_queue = queue } })
            some (left w'', ran))))

  abbrev pub Polls : ℕ → World → Option (World × Outcome) → Type 0
  Polls rounds w r = Parks rounds w r ⊎ ((n : ℕ) × (n < rounds) × RunsAt rounds n w r)

  -- A round of the polling loop after its `pop_global`.
  abbrev after_pop : ℕ → World → Scheduler × Option Task → Option (World × Outcome)
  after_pop rounds w (s, task) =
      let w' = record w { scheduler = s } in
      let rest = poll body others ls rounds (left w') in
      elim task [ some t ↦ (do w'' ← run_task body t w'; some (left w'', ran)) | none ↦ rest ]

  nothing_yet :
      (rounds n : ℕ) (w : World)
      → (entered (others (suc rounds) w)).scheduler.global_queue ≡ []
      → NothingBefore rounds n (left (entered (others (suc rounds) w)))
      → NothingBefore (suc rounds) (suc n) w
  nothing_yet rounds n w empty nothing zero lt = empty
  nothing_yet rounds n w empty nothing (suc k) lt = nothing k (omega arith)

  poll-Polls : (rounds : ℕ) (w : World) → Polls rounds w (poll body others ls rounds w)
  unfolding poll
  poll-Polls zero w = inl ((λ k lt. absurd (omega arith)), refl)
  poll-Polls (suc rounds) w = by_queue w'.scheduler.global_queue refl (poll-Polls rounds (left w'))
    where
      w' : World
      w' = entered (others (suc rounds) w)

      by_queue :
          (g : GlobalQueue)
          → w'.scheduler.global_queue ≡ g
          → Polls rounds (left w') (poll body others ls rounds (left w'))
          → Polls (suc rounds) w (after_pop rounds w' (pop_global w'.scheduler))
      by_queue [] e later =
          let same = ap (after_pop rounds w') (pop_global-empty w'.scheduler e) in
          elim later [
            | inl (nothing, ends) ↦ inl (nothing_yet rounds rounds w e nothing, same ∙ ends)
            | inr (n, lt, (nothing, (t, queue, found, runs))) ↦ inr (
              suc n,
              omega arith,
              (nothing_yet rounds n w e nothing, (t, queue, found, same ∙ runs)),
            )
          ]
      by_queue (t ∷ queue) e later = inr (
        0,
        omega arith,
        (
          (λ k lt. absurd (omega arith)),
          (t, queue, e, ap (after_pop rounds w') (pop_global-found w'.scheduler t queue e)),
        ),
      )

  -- A turn after its search.
  abbrev after_search : World → Scheduler × Option Task → Option (World × Outcome)
  after_search w (s, task) =
      let w' = left (record w { scheduler = s }) in
      elim task [
        | some t ↦ (do w'' ← run_task body t w'; some (w'', ran))
        | none ↦ poll body others ls 50 w'
      ]

  -- If a worker's search finds no task, on valid queues, then its turn goes on outside its critical section, and either
  -- all of 50 rounds of polling find the global queue empty, and it goes on to `park`, having changed nothing but for
  -- entering and leaving its critical section, or it takes and runs the first task of the global queue in the first round
  -- that finds one, and the turn is over.
  pub run_once-Polls :
      (i start : ℕ) (w : World)
      → All Valid w.scheduler.workers
      → i < length w.scheduler.workers
      → start < length w.scheduler.workers
      → (find_task i start w.scheduler).1 ≡ none
      → Polls 50 (left (entered w)) (run_once body others i ls start w)
  unfolding run_once
  run_once-Polls i start w v li ls' missed =
      let (same, _, _) = find_task-misses i start w.scheduler v li ls' missed in
      subst (Polls 50 (left (entered w)))
        (sym (ap (after_search (entered w)) (ap₂ (λ s t. (s, t)) same missed)))
        (poll-Polls 50 (left (entered w)))
