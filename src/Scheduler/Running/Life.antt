-- ===== src/Scheduler/Running/Life.antt =====
-- include/scheduler.h: a worker that runs turn after turn keeps the state sound, as do the calls of
-- other threads; and what is left when the scheduler is destroyed.
use mathlib.Core.Path.{subst}
use tiny_coro_build_your_own.Common.{
  ℕ, zero, suc, ◌≡◌, refl, sym, ap, ◌∙◌, inl, inr, Bool, true, false, Option, none, some, List, [],
  ◌∷◌, ◌++◌, if◌then◌else◌, Bool-cases, All,
}
use tiny_coro_build_your_own.Task.{◌>>=◌}
use tiny_coro_build_your_own.Parker
use tiny_coro_build_your_own.Parker.{try_park, reset}
use tiny_coro_build_your_own.Scheduler.{Worker, World, Outcome, ran, parks, run_once}
use tiny_coro_build_your_own.Scheduler.Ownership.{entries}
use tiny_coro_build_your_own.Scheduler.Ownership.State.{Sound}
use tiny_coro_build_your_own.Scheduler.Ownership.Spawn.{Same, same_workers-Accounted}
use tiny_coro_build_your_own.Scheduler.Ownership.Turn.{Behaves, Polite, run_once-Sound}
use tiny_coro_build_your_own.Scheduler.Running.{Turn, change_parker, with_parker, waits, park, run}

-- What other threads owe at any time.
abbrev pub Leaves : (World → World) → Type 0
Leaves f = (w : World) (ext : List ℕ) → Sound ext w → (ext' : List ℕ) × Sound ext' (f w)

abbrev pub Considerate : Turn → Type 0
Considerate t = Leaves t.before × Polite t.polling × Leaves t.parked

change_parker-Same :
    (f : Parker.State → Parker.State) (i : ℕ) (ws : List Worker) → Same ws (change_parker f i ws)
unfolding change_parker
change_parker-Same f i [] = (refl, (λ v. v), refl)
change_parker-Same f zero (w ∷ ws) = (refl, (λ v. v), refl)
change_parker-Same f (suc i) (w ∷ ws) =
    let (same, keeps, size) = change_parker-Same f i ws in
    (ap (λ rs. entries w.local_queue ++ rs) same, (λ v. (v.0, keeps v.1)), ap suc size)

with_parker-Sound :
    (f : Parker.State → Parker.State) (i : ℕ) (ext : List ℕ) (w : World)
    → Sound ext w
    → Sound ext (with_parker f i w)
with_parker-Sound f i ext w v =
    same_workers-Accounted (change_parker f i w.scheduler.workers) w.scheduler.stop w.scheduler.next
      v (change_parker-Same f i w.scheduler.workers)

park-Leaves : (i : ℕ) (others : World → World) → Leaves others → Leaves (park i others)
unfolding park
park-Leaves i others leaves w ext v =
    let w₁ = with_parker (λ p. (try_park p).0) i w in
    let v₁ = with_parker-Sound (λ p. (try_park p).0) i ext w v in
    elim (Bool-cases (waits i w)) [
      | inl waiting ↦
          let (ext', v₂) = leaves w₁ ext v₁ in
          (ext', rw waiting (with_parker-Sound reset i ext' (others w₁) v₂))
      | inr notified ↦ (ext, rw notified (with_parker-Sound reset i ext w₁ v₁))
    ]

-- A worker after some turns, in a sound state.
abbrev pub Stands : Option (World × Bool) → Type 0
Stands r = (w : World) × (left : Bool) × (ext : List ℕ) × (r ≡ some (w, left)) × Sound ext w

-- Let the code of coroutines keep its part, and let other threads leave the state sound whenever they come in between.
-- Then a worker that starts in a sound state touches no frame that is gone in any number of turns of its loop, with the
-- waits in `park` between them, and the state is sound when it stands at the test of the stop flag again, or has left.
pub run-Sound :
    (body : ℕ → World → Option World) (i ls : ℕ) (ts : List Turn) (ext : List ℕ) (w : World)
    → Behaves body
    → All Considerate ts
    → Sound ext w
    → Stands (run body i ls ts w)
unfolding run
run-Sound body i ls [] ext w behaves fair v = (w, false, ext, refl, v)
run-Sound body i ls (t ∷ ts) ext w behaves ((before, polling, parked), fair) v =
    let w₁ = t.before w in
    let (ext₁, v₁) = before w ext v in
    elim (Bool-cases w₁.scheduler.stop) [
      | inl stopped ↦ (w₁, true, ext₁, rw stopped refl, v₁)
      | inr goes_on ↦
          let (w₂, outcome, ext₂, came, v₂) =
            run_once-Sound body t.polling i ls t.start ext₁ w₁ behaves polling v₁ in
          let (ext₃, v₃) = parking outcome w₂ ext₂ v₂ in
          let (w₄, left, ext₄, came', v₄) =
            run-Sound body i ls ts ext₃ (next outcome w₂) behaves fair v₃ in
          (
            w₄,
            left,
            ext₄,
            ap
                  (λ b.
                    if b
                    then some (w₁, true)
                    else continued (run_once body t.polling i ls t.start w₁))
                  goes_on
                ∙ ap continued came
                ∙ came',
            v₄,
          )
    ]
  where
    next : Outcome → World → World
    next outcome w₂ = elim outcome [ ran ↦ w₂ | parks ↦ park i t.parked w₂ ]

    continued : Option (World × Outcome) → Option (World × Bool)
    continued r = do (w₂, outcome) ← r; run body i ls ts (next outcome w₂)

    parking :
        (outcome : Outcome) (w₂ : World) (ext₂ : List ℕ)
        → Sound ext₂ w₂
        → (ext₃ : List ℕ) × Sound ext₃ (next outcome w₂)
    parking ran w₂ ext₂ v₂ = (ext₂, v₂)
    parking parks w₂ ext₂ v₂ = park-Leaves i t.parked parked w₂ ext₂ v₂

-- The state after a run that comes to its end.
abbrev pub reached : World → Option (World × Bool) → World
reached w none = w
reached w (some (w', left)) = w'

-- Another worker on its way, seen from outside.
abbrev pub peer : (ℕ → World → Option World) → ℕ → ℕ → List Turn → World → World
peer body j ls ts w = reached w (run body j ls ts w)

-- What one worker does is what the others may rely on.
pub peer-Leaves :
    (body : ℕ → World → Option World) (j ls : ℕ) (ts : List Turn)
    → Behaves body
    → All Considerate ts
    → Leaves (peer body j ls ts)
peer-Leaves body j ls ts behaves fair w ext v =
    let (w', left, ext', came, v') = run-Sound body j ls ts ext w behaves fair v in
    (ext', subst (λ r. Sound ext' (reached w r)) (sym came) v')
