-- ===== src/Scheduler/Ownership/Turn.antt =====
-- include/scheduler.h, `run_once`: a worker's turn touches no frame that is gone, and accounts for
-- each reference.
use mathlib.Core.Path.{subst}
use tiny_coro_build_your_own.Common.{
  ℕ, true, zero, suc, ◌≡◌, refl, sym, ap, ◌∙◌, ◌≢◌, inl, inr, Option, none, some, List, [], ◌∷◌,
  ◌++◌, ℕ_discrete,
}
use tiny_coro_build_your_own.Task.{Frames, Task, ◌>>=◌, resume, destruct, begin_resume}
use tiny_coro_build_your_own.Task.Resuming.{Running, begin_resume-Counted, end_resume-Counted}
use tiny_coro_build_your_own.Ebr
use tiny_coro_build_your_own.Scheduler.{
  Scheduler, World, Outcome, ran, parks, with_frames, with_ebr, pop_global, find_task, run_task,
  poll, run_once,
}
use tiny_coro_build_your_own.Scheduler.Ownership.{taken}
use tiny_coro_build_your_own.Scheduler.Ownership.Handing.{pop_global-Hands, find_task-Hands}
use tiny_coro_build_your_own.Scheduler.Ownership.State.{
  timer_refs, Accounted, Sound, Safe, ebr-Accounted, hands-Accounted, null-Accounted, held, ends,
}

-- A turn that comes to its end, in a sound state.
abbrev pub Ends : Option (World × Outcome) → Type 0
Ends r = (w : World) × (outcome : Outcome) × (ext : List ℕ) × (r ≡ some (w, outcome)) × Sound ext w

-- What the code of coroutines owes: started in a sound state, in which its frame is marked as running and the
-- caller holds a reference to it, it comes to its next suspend point without touching a frame that is gone, leaves
-- the state sound, and does not give that reference away.
abbrev pub Behaves : (ℕ → World → Option World) → Type 0
Behaves body =
    (a : ℕ) (ext : List ℕ) (w : World)
    → a ≢ 0
    → Running a w.shared.frames
    → Sound (a ∷ ext) w
    → Safe (a ∷ []) (body a w)

-- What other threads owe between two rounds of the polling loop.
abbrev pub Polite : (ℕ → World → World) → Type 0
Polite others =
    (k : ℕ) (w : World) (ext : List ℕ) → Sound ext w → (ext' : List ℕ) × Sound ext' (others k w)

module _ (body : ℕ → World → Option World) where
  -- The way out of `resume`, and the end of the task's life.
  pub leaves :
      (t : Task) (ext : List ℕ) (w w' : World) (fs : Frames)
      → t.handle ≢ 0
      → begin_resume t w.shared.frames ≡ some (fs, true)
      → body t.handle (with_frames fs w) ≡ some w'
      → Sound (t.handle ∷ ext) w'
      → (fs' : Frames) × (run_task body t w ≡ some (with_frames fs' w'))
        × Sound ext (with_frames fs' w')
  unfolding run_task resume
  leaves t ext w w' fs nz begun came v =
      let a = t.handle in
      let (fs', left, inv) = end_resume-Counted v.counted t nz (held a v) in
      let v' : Sound (a ∷ ext) (with_frames fs' w') = record { counted = inv; queues = v.queues } in
      let (fs'', gone, v'') = ends a v' nz in
      (fs'', rw (begun, ◌>>=◌, came, ◌>>=◌, left, ◌>>=◌, gone, ◌>>=◌), v'')

module _ (body : ℕ → World → Option World) (behaves : Behaves body) where
  null-Safe :
      (ext : List ℕ) (w : World)
      → Sound (0 ∷ ext) w
      → Safe [] (run_task body (record { handle = 0 }) w)
  unfolding run_task resume begin_resume destruct
  null-Safe ext w v = (w, ext, refl, null-Accounted v)

  run_task-Safe :
      (t : Task) (ext : List ℕ) (w : World)
      → Sound (t.handle ∷ ext) w
      → t.handle ≢ 0
      → Safe [] (run_task body t w)
  unfolding run_task resume
  run_task-Safe t ext w v nz =
      let a = t.handle in
      let (fs, runs, begun, inv, started) = begin_resume-Counted v.counted t nz (held a v) in
      let v₁ : Sound (a ∷ ext) (with_frames fs w) = record { counted = inv; queues = v.queues } in
      elim started [
        | inl stays ↦
            let (fs', gone, v₂) = ends a v₁ nz in
            (with_frames fs' w, ext, rw (begun, stays, ◌>>=◌, gone, ◌>>=◌), v₂)
        | inr (goes, running) ↦
            let (w', ext', came, v₂) = behaves a ext (with_frames fs w) nz running v₁ in
            let (fs', ran_to_end, v₃) =
              leaves body t ext' w w' fs nz (begun ∙ ap (λ b. some (fs, b)) goes) came v₂ in
            (with_frames fs' w', ext', ran_to_end, v₃)
      ]

  any_task-Safe :
      (t : Task) (ext : List ℕ) (w : World) → Sound (t.handle ∷ ext) w → Safe [] (run_task body t w)
  any_task-Safe t ext w v = elim (ℕ_discrete t.handle 0) [
    | yes null ↦
        subst (λ a. Safe [] (run_task body (record { handle = a }) w)) (sym null)
          (null-Safe ext w (subst (λ a. Sound (a ∷ ext) w) null v))
    | no live ↦ run_task-Safe t ext w v live
  ]

  -- What `run_once` does with a task that it has taken.
  task-Ends :
      (leave : World → World) (t : Task) (ext : List ℕ) (w : World)
      → ((ext' : List ℕ) (w' : World) → Sound ext' w' → Sound ext' (leave w'))
      → Sound (t.handle ∷ ext) w
      → Ends (do w' ← run_task body t w; some (leave w', ran))
  task-Ends leave t ext w stays v =
      let (w', ext', came, v') = any_task-Safe t ext w v in
      (leave w', ran, ext', rw (came, ◌>>=◌), stays ext' w' v')

  module _ (others : ℕ → World → World) (polite : Polite others) (ls : ℕ) where
    poll-Ends :
        (rounds : ℕ) (ext : List ℕ) (w : World) → Sound ext w → Ends (poll body others ls rounds w)
    unfolding poll
    poll-Ends zero ext w v = (w, parks, ext, refl, v)
    poll-Ends (suc rounds) ext w v =
        let w₁ = others (suc rounds) w in
        let m = Ebr.enter ls w₁.shared.ebr in
        let w₂ = with_ebr m w₁ in
        let (ext', v₁) = polite (suc rounds) w ext v in
        popped ext' w₂ (pop_global w₂.scheduler)
          (hands-Accounted w₂ (pop_global w₂.scheduler) (ebr-Accounted m v₁)
            (pop_global-Hands w₂.scheduler v₁.queues))
          (poll-Ends rounds)
      where
        leave : World → World
        leave w = with_ebr (Ebr.exit ls w.shared.ebr) w

        popped :
            (ext : List ℕ) (w : World) (r : Scheduler × Option Task)
            → Accounted
                (taken r.1 ++ (ext ++ timer_refs w.reactor.timers))
                (record w { scheduler = r.0 })
            → ((ext : List ℕ) (w : World) → Sound ext w → Ends (poll body others ls rounds w))
            → (let w' = record w { scheduler = r.0 } in
                let later = poll body others ls rounds (leave w') in
                Ends (elim (r.1) [
                  | some t ↦ (do w'' ← run_task body t w'; some (leave w'', ran))
                  | none ↦ later
                ]))
        popped ext w (s, some t) v ih =
            task-Ends leave t ext (record w { scheduler = s })
              (λ ext' w' v'. ebr-Accounted (Ebr.exit ls w'.shared.ebr) v') v
        popped ext w (s, none) v ih =
            ih ext (leave (record w { scheduler = s })) (ebr-Accounted (Ebr.exit ls w.shared.ebr) v)

    turn-Ends :
        (i start : ℕ) (ext : List ℕ) (w : World)
        → Sound ext w
        → Ends (run_once body others i ls start w)
    unfolding run_once
    turn-Ends i start ext w v =
        let w₁ = with_ebr (Ebr.enter ls w.shared.ebr) w in
        searched ext w₁ (find_task i start w₁.scheduler) (
          hands-Accounted w₁ (find_task i start w₁.scheduler) (ebr-Accounted w₁.shared.ebr v)
            (find_task-Hands i start w₁.scheduler v.queues))
      where
        searched :
            (ext : List ℕ) (w : World) (r : Scheduler × Option Task)
            → Accounted
                (taken r.1 ++ (ext ++ timer_refs w.reactor.timers))
                (record w { scheduler = r.0 })
            → (let w' = with_ebr (Ebr.exit ls w.shared.ebr) (record w { scheduler = r.0 }) in
                Ends (elim (r.1) [
                  | some t ↦ (do w'' ← run_task body t w'; some (w'', ran))
                  | none ↦ poll body others ls 50 w'
                ]))
        searched ext w (s, some t) v =
            task-Ends (λ w'. w') t ext
              (with_ebr (Ebr.exit ls w.shared.ebr) (record w { scheduler = s })) (λ ext' w' v'. v')
              (ebr-Accounted (Ebr.exit ls w.shared.ebr) v)
        searched ext w (s, none) v =
            poll-Ends 50 ext (with_ebr (Ebr.exit ls w.shared.ebr) (record w { scheduler = s }))
              (ebr-Accounted (Ebr.exit ls w.shared.ebr) v)

-- Let the code of coroutines keep its part of `Behaves`, and let other threads leave the state sound between the rounds
-- of the polling loop. Then a worker's turn, started in a sound state, ends without an access to a frame that is gone, in
-- a state that is sound again: every pointer that a queue or a timer holds is a frame that is allocated, and its count
-- covers all of them.
pub run_once-Sound :
    (body : ℕ → World → Option World) (others : ℕ → World → World) (i ls start : ℕ) (ext : List ℕ)
    (w : World)
    → Behaves body
    → Polite others
    → Sound ext w
    → Ends (run_once body others i ls start w)
run_once-Sound body others i ls start ext w behaves polite v =
    turn-Ends body behaves others polite ls i start ext w v
