-- ===== src/Scheduler/Ownership.antt =====
-- include/scheduler.h: the references to coroutine frames that the queues hold, and how a worker's
-- search hands one over.
pub mod Handing
pub mod State
pub mod Turn
pub mod Spawn
mod Tests
use mathlib.Core.Path.{subst}
use tiny_coro_build_your_own.Common.{
  ℕ, ◌+◌, ◌≡◌, sym, ap, ◌∙◌, inl, inr, Option, none, some, List, [], ◌∷◌, ◌++◌, arith, count,
  count-append,
}
use tiny_coro_build_your_own.Common.Int.{pos_part}
use tiny_coro_build_your_own.Task.{Task, from_address}
use tiny_coro_build_your_own.Queue.Steal.{StealQueue}
use tiny_coro_build_your_own.Queue.Steal
use tiny_coro_build_your_own.Queue.Global
use tiny_coro_build_your_own.Queue.Global.{GlobalQueue}
use tiny_coro_build_your_own.Queue.Refinement.Steps.{IsValid, contents}
use tiny_coro_build_your_own.Queue.Refinement.{Takes, pop-Takes, steal-Takes}
use tiny_coro_build_your_own.Scheduler.{Worker, Scheduler, steal}

-- The pointers in a worker's own queue, in all of them, and in the global queue.
abbrev pub entries : StealQueue → List ℕ
entries q = contents (pos_part q.bottom) q

abbrev pub worker_refs : List Worker → List ℕ
worker_refs [] = []
worker_refs (w ∷ ws) = entries w.local_queue ++ worker_refs ws

abbrev pub handles : GlobalQueue → List ℕ
handles [] = []
handles (t ∷ ts) = t.handle ∷ handles ts

abbrev pub refs : Scheduler → List ℕ
refs s = handles s.global_queue ++ worker_refs s.workers

abbrev pub taken : Option Task → List ℕ
taken none = []
taken (some t) = t.handle ∷ []

-- The references before are the one that was taken, if any, and those after.
abbrev pub Splits : List ℕ → Option Task → List ℕ → Type 0
Splits before task after = (a : ℕ) → count a before ≡ count a (taken task) + count a after

-- A queue from which something was taken.
abbrev pub Taken : StealQueue → StealQueue × Option Task → Type 0
Taken q r = ((k b : ℕ) × IsValid k b r.0) × Splits (entries q) r.1 (entries r.0)

from_address-handle : (p : ℕ) → (from_address p).handle ≡ p
unfolding from_address
from_address-handle p = ground arith

pub entries-contents : {k b : ℕ} {q : StealQueue} → IsValid k b q → entries q ≡ contents b q
entries-contents {q} v = ap (λ z. contents (pos_part z) q) v.at_bottom

Takes-Taken :
    {k b : ℕ} {q : StealQueue} (split : List ℕ → ℕ → List ℕ → Type 0) (r : StealQueue × Option Task)
    → ((xs : List ℕ) (p : ℕ) (ys : List ℕ)
        → split xs p ys
        → (a : ℕ) → count a xs ≡ count a (p ∷ []) + count a ys)
    → IsValid k b q
    → Takes split k b q r
    → Taken q r
Takes-Taken {k} {b} {q} split r counts v (inl (empty, same)) =
    subst (Taken q) (sym same) ((k, b, v), λ a. omega arith)
Takes-Taken {k} {b} {q} split r counts v (inr (p, b', found, v', parts)) = (
  (k, b', v'),
  λ a.
      ap (count a) (entries-contents v)
      ∙ counts (contents b q) p (contents b' r.0) parts a
      ∙ omega (
        arith,
        ap (λ t. count a (taken t)) found,
        ap (λ h. count a (h ∷ [])) (from_address-handle p),
        ap (count a) (entries-contents v'),
      ),
)

pub pop-Taken : {k b : ℕ} {q : StealQueue} → IsValid k b q → Taken q (Steal.pop q)
pop-Taken {q} v =
    Takes-Taken (λ xs p rest. xs ≡ rest ++ p ∷ []) (Steal.pop q)
      (λ xs p ys e a. ap (count a) e ∙ omega (arith, count-append a ys (p ∷ []))) v (pop-Takes v)

pub steal-Taken : {k b : ℕ} {q : StealQueue} → IsValid k b q → Taken q (Steal.steal q)
steal-Taken {q} v =
    Takes-Taken (λ xs p rest. xs ≡ p ∷ rest) (Steal.steal q)
      (λ xs p ys e a. ap (count a) e ∙ omega arith) v (steal-Takes v)
