-- ===== src/Queue/Draining.antt =====
-- What the clients of a queue rely on, and the queues of include/queue.h that provide it.
use mathlib.Core.List.{reverse, reverse-append, reverse-cons, map-append}
use tiny_coro_build_your_own.Common.{
  ℕ, zero, suc, ◌<◌, ◌≡◌, refl, sym, ap, ◌∙◌, inl, inr, Option, none, some, List, [], ◌∷◌, ◌++◌,
  map, arith, length, length-append,
}
use tiny_coro_build_your_own.Task.{Task, from_address}
use tiny_coro_build_your_own.Queue.Global
use tiny_coro_build_your_own.Queue.Global.{GlobalQueue}
use tiny_coro_build_your_own.Queue.Steal
use tiny_coro_build_your_own.Queue.Steal.{StealQueue}
use tiny_coro_build_your_own.Queue.Refinement.Steps.{IsValid, contents}
use tiny_coro_build_your_own.Queue.Refinement.{pop-Takes, steal-Takes}

-- `Holds ts s`: the state is valid, and these are its tasks, in the order in which it gives them out.
pub record TaskSource (S : Type 0) : Type 1 where
  pub take_task : S → S × Option Task
  pub Holds : List Task → S → Type 0
  pub at_end : (s : S) → Holds [] s → take_task s ≡ (s, none)
  pub at_front :
      (s : S) (t : Task) (ts : List Task)
      → Holds (t ∷ ts) s
      → (s' : S) × (take_task s ≡ (s', some t)) × Holds ts s'

-- A client that takes tasks until there are none, in at most so many calls.
unfoldable pub drain : {S : Type 0} → (S → S × Option Task) → ℕ → S → List Task × S
drain take_task zero s = ([], s)
drain take_task (suc n) s =
    let (s', task) = take_task s in
    let (tasks, end) = drain take_task n s' in
    elim task [ none ↦ ([], s') | some t ↦ (t ∷ tasks, end) ]

module _ {S : Type 0} (source : TaskSource S) where
  abbrev after_take : ℕ → S × Option Task → List Task × S
  after_take n (s, task) =
      let (tasks, end) = drain source.take_task n s in
      elim task [ none ↦ ([], s) | some t ↦ (t ∷ tasks, end) ]

  drain-gives :
      (n : ℕ) (ts : List Task) (s : S)
      → source.Holds ts s
      → length ts < n
      → (s' : S) × (drain source.take_task n s ≡ (ts, s')) × source.Holds [] s'
  unfolding drain
  drain-gives zero ts s h enough = absurd (omega arith)
  drain-gives (suc n) [] s h enough = (s, ap (after_take n) (source.at_end s h), h)
  drain-gives (suc n) (t ∷ ts) s h enough =
      let (s', took, h') = source.at_front s t ts h in
      let (end, gives, empty) = drain-gives n ts s' h' (omega arith) in
      (end, ap (after_take n) took ∙ ap (λ r. (t ∷ r.0, r.1)) gives, empty)

global_source : TaskSource GlobalQueue
unfolding Global.pop
global_source = record {
  take_task = Global.pop;
  Holds = λ ts q. q ≡ ts;
  at_end = λ q e. ap Global.pop e ∙ ap (λ x. (x, none)) (sym e);
  at_front = λ q t ts e. (ts, ap Global.pop e, refl);
}

-- The tasks of a work-stealing queue, the oldest first.
abbrev pub tasks : ℕ → StealQueue → List Task
tasks b q = map from_address (contents b q)

cons-injective : {x y : Task} {xs ys : List Task} → x ∷ xs ≡ y ∷ ys → (x ≡ y) × (xs ≡ ys)
cons-injective e = (cc, cc)

-- The thieves' end.
steal_source : TaskSource StealQueue
steal_source = record {
  take_task = Steal.steal;
  Holds = λ ts q. (k b : ℕ) × IsValid k b q × (tasks b q ≡ ts);
  at_end = λ q (k, b, v, e). elim (steal-Takes v) [
    | inl (empty, missed) ↦ missed
    | inr (p, b', found, v', split) ↦ absurd (let e' = sym (ap (map from_address) split) ∙ e in cc)
  ];
  at_front = λ q t ts (k, b, v, e). elim (steal-Takes v) [
    | inl (empty, missed) ↦ absurd (let e' = sym (ap (map from_address) empty) ∙ e in cc)
    | inr (p, b', found, v', split) ↦
        let (same, rest) = cons-injective (sym (ap (map from_address) split) ∙ e) in
        (
          (Steal.steal q).0,
          ap (λ r. ((Steal.steal q).0, r)) (found ∙ ap some same),
          (k, b', v', rest),
        )
  ];
}

reverse_back :
    (xs : List ℕ) (p : ℕ) (ys : List ℕ)
    → xs ≡ ys ++ p ∷ []
    → reverse (map from_address xs) ≡ from_address p ∷ reverse (map from_address ys)
reverse_back xs p ys e =
    ap (λ zs. reverse (map from_address zs)) e
    ∙ ap reverse (map-append from_address ys (p ∷ []))
    ∙ reverse-append (map from_address ys) (from_address p ∷ [])

-- The owner's end.
pop_source : TaskSource StealQueue
pop_source = record {
  take_task = Steal.pop;
  Holds = λ ts q. (k b : ℕ) × IsValid k b q × (reverse (tasks b q) ≡ ts);
  at_end = λ q (k, b, v, e). elim (pop-Takes v) [
    | inl (empty, missed) ↦ missed
    | inr (p, b', found, v', split) ↦ absurd (let e' = sym (reverse_back _ p _ split) ∙ e in cc)
  ];
  at_front = λ q t ts (k, b, v, e). elim (pop-Takes v) [
    | inl (empty, missed) ↦
        absurd (let e' = sym (ap (λ xs. reverse (map from_address xs)) empty) ∙ e in cc)
    | inr (p, b', found, v', split) ↦
        let (same, rest) = cons-injective (sym (reverse_back _ p _ split) ∙ e) in
        ((Steal.pop q).0, ap (λ r. ((Steal.pop q).0, r)) (found ∙ ap some same), (k, b', v', rest))
  ];
}

length-reverse : (ts : List Task) → length (reverse ts) ≡ length ts
length-reverse [] = refl
length-reverse (t ∷ ts) =
    ap length (reverse-cons t ts)
    ∙ omega (arith, length-append (reverse ts) (t ∷ []), length-reverse ts)

drains_to_end :
    {S : Type 0} (source : TaskSource S) (n : ℕ) (ts : List Task) (s : S)
    → source.Holds ts s
    → length ts < n
    → (s' : S) × (drain source.take_task n s ≡ (ts, s')) × (source.take_task s' ≡ (s', none))
drains_to_end source n ts s h enough =
    let (s', gives, empty) = drain-gives source n ts s h enough in
    (s', gives, source.at_end s' empty)

-- Drained by thieves, a valid work-stealing queue gives its tasks with the oldest first, drained by its owner with the
-- newest first, and the global queue gives its tasks in their order; in each case one call more than there are tasks
-- is enough to find none.
pub queues_drain :
    {k b : ℕ} {q : StealQueue} (g : GlobalQueue)
    → IsValid k b q
    → (let n = suc (length (tasks b q)) in
        ((q' : StealQueue) × (drain Steal.steal n q ≡ (tasks b q, q'))
          × (Steal.steal q' ≡ (q', none)))
        × ((q' : StealQueue) × (drain Steal.pop n q ≡ (reverse (tasks b q), q'))
            × (Steal.pop q' ≡ (q', none)))
        × ((g' : GlobalQueue) × (drain Global.pop (suc (length g)) g ≡ (g, g'))
            × (Global.pop g' ≡ (g', none))))
unfolding steal_source pop_source global_source
queues_drain {k} {b} {q} g v = (
  drains_to_end steal_source (suc (length (tasks b q))) (tasks b q) q (k, b, v, refl) (omega arith),
  drains_to_end pop_source (suc (length (tasks b q))) (reverse (tasks b q)) q (k, b, v, refl)
      (omega (arith, length-reverse (tasks b q))),
  drains_to_end global_source (suc (length g)) g g refl (omega arith),
)
