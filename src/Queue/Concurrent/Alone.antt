-- ===== src/Queue/Concurrent/Alone.antt =====
-- An operation of the work-stealing queue whose accesses nothing interrupts does what the operation of
-- Queue/Steal does at once.
pub mod Push
use mathlib.Core.Path.{subst}
use tiny_coro_build_your_own.Common.{
  ℕ, suc, ◌+◌, ◌-◌, ◌%◌, ◌^◌, ◌<◌, ◌≡◌, refl, sym, ap, ap₂, ◌∙◌, Bool, true, Option, none, some,
  List, ◌∷◌, arith, dec_lt, update, if◌then◌else◌,
}
use tiny_coro_build_your_own.Common.Int.{pos, ◌-ℤ◌, ltb_ℤ}
use tiny_coro_build_your_own.Task.{Task, from_address}
use tiny_coro_build_your_own.Queue.Array.{get}
use tiny_coro_build_your_own.Queue.Steal
use tiny_coro_build_your_own.Queue.Steal.{StealQueue, compare_exchange}
use tiny_coro_build_your_own.Queue.Refinement.Steps.{
  pop_empty, pop_last, pop_more, steal_empty, steal_more,
}
use tiny_coro_build_your_own.Queue.Concurrent.{
  idle, popping, Thief, out, saw_top, saw_work, has_array, has_value, System, Step, Reach, current,
}
use tiny_coro_build_your_own.Queue.Concurrent.Invariant.{Inv, index_small}
use tiny_coro_build_your_own.Queue.Concurrent.Moves.{owner_at, exchange-won}
use tiny_coro_build_your_own.Queue.Concurrent.Conservation.{Reach-Inv}

-- An access that thief i makes; one that the owner makes in `pop`.
abbrev pub IsSteal : ℕ → (s s' : System) → Step s s' → Type 0
IsSteal i s _ (Step.steal_starts j e) = i ≡ j
IsSteal i s _ (Step.steal_loads j t e) = i ≡ j
IsSteal i s _ (Step.steal_finds j t e) = i ≡ j
IsSteal i s _ (Step.steal_reads j t a e) = i ≡ j
IsSteal i s _ (Step.steal_exchanges j t w e) = i ≡ j
IsSteal i s _ _ = ⊥

abbrev pub IsPop : (s s' : System) → Step s s' → Type 0
IsPop s _ (Step.pop_starts b e at) = Unit
IsPop s _ (Step.pop_more b e le ne) = Unit
IsPop s _ (Step.pop_last b e le eq) = Unit
IsPop s _ (Step.pop_reads t e) = Unit
IsPop s _ (Step.pop_misses b e gt) = Unit
IsPop s _ (Step.pop_takes b e) = Unit
IsPop s _ (Step.pop_exchanges t w e) = Unit
IsPop s _ (Step.pop_restores b e) = Unit
IsPop s _ _ = ⊥

-- A run of such accesses only.
pub data Steps (Mine : (s s' : System) → Step s s' → Type 0) (s : System) : System → Type 0 where
  stop : Steps Mine s s
  more :
      {s' s'' : System} → Steps Mine s s' → (st : Step s' s'') → Mine s' s'' st → Steps Mine s s''

-- The queue's own variables.
abbrev pub queue_of : System → StealQueue
queue_of s = record { top = s.top; bottom = s.bottom; array = current s; local_state = 0 }

abbrev pub add_taken : Option Task → List ℕ → List ℕ
add_taken none ps = ps
add_taken (some t) ps = t.handle ∷ ps

-- The queue, and the pointers taken, are those of the operation that runs at once.
abbrev pub Agrees : System → System → StealQueue × Option Task → Type 0
Agrees s s' (q, task) = (queue_of s' ≡ q) × (s'.taken ≡ add_taken task s.taken)

from_address-handle : (p : ℕ) → (from_address p).handle ≡ p
unfolding from_address
from_address-handle p = ground arith

thief_here : (f : ℕ → Thief) (i : ℕ) (th : Thief) → update f i th i ≡ th
thief_here f i th = ground arith

module _ (s : System) (i : ℕ) (resting : s.thief i ≡ out) where
  -- A thief that has loaded both counters.
  loaded :
      (next : Thief)
      → (if ltb_ℤ (pos s.top) s.bottom then saw_work s.top else out) ≡ next
      → (f : ℕ → Thief) × (f i ≡ next) × Steps (IsSteal i) s (record s { thief = f })
  loaded next e =
      let f : ℕ → Thief = update s.thief i (saw_top s.top) in
      let th : Thief = if ltb_ℤ (pos s.top) s.bottom then saw_work s.top else out in
      (
        update f i th,
        thief_here f i th ∙ e,
        more (more stop (Step.steal_starts i resting) refl)
            (Step.steal_loads i s.top (thief_here s.thief i (saw_top s.top))) refl,
      )

  -- A thief that has read the value.
  has_read :
      ltb_ℤ (pos s.top) s.bottom ≡ true
      → (f : ℕ → Thief) × (f i ≡ has_value s.top (get (s.top % 2 ^ 64) (current s)))
        × Steps (IsSteal i) s (record s { thief = f })
  has_read work =
      let (f, at, steps) =
        loaded (saw_work s.top) (ap (λ b. if b then saw_work s.top else out) work) in
      let f' : ℕ → Thief = update f i (has_array s.top s.array) in
      let th : Thief = has_value s.top (get (s.top % 2 ^ 64) (current s)) in
      (
        update f' i th,
        thief_here f' i th,
        more (more steps (Step.steal_finds i s.top at) refl)
            (Step.steal_reads i s.top s.array (thief_here f i (has_array s.top s.array))) refl,
      )

-- What an exchange that succeeds leaves.
abbrev won : System → (ℕ → Thief) → ℕ → Bool × ℕ → System
won s f p r = record s { top = r.1; thief = f; taken = if r.0 then p ∷ s.taken else s.taken }

-- In a reachable state in which the owner is in no call and a thief neither, the accesses of the
-- thief's `steal`, with none of another thread in between, leave the queue and return the pointer as
-- the `steal` that runs at once does.
pub steal-Agrees :
    {address : ℕ} {s : System}
    → Reach address s
    → s.owner ≡ idle
    → (i : ℕ) → s.thief i ≡ out
    → (s' : System) × Steps (IsSteal i) s s'
      × (s'.thief i ≡ out)
      × Agrees s s' (Steal.steal (queue_of s))
steal-Agrees {address} {s} r rest i resting = elim (dec_lt s.top s.back) [
  | yes lt ↦
      let (f, at, steps) = has_read s i resting (ground (arith, owner_at (Reach-Inv r) rest)) in
      let p = get (s.top % 2 ^ 64) (current s) in
      let done = sym (exchange-won s.top s.top refl) in
      let value : p ≡ get s.top (current s) =
        ap (λ j. get j (current s)) (index_small s.top (omega (arith, (Reach-Inv r).small))) in
      let result = steal_more (queue_of s) (owner_at (Reach-Inv r) rest) (Reach-Inv r).small lt in
      (
        won s (update f i out) p (compare_exchange s.top (s.top + 1) s.top),
        more steps (Step.steal_exchanges i s.top p at) refl,
        thief_here f i out,
        subst (Agrees s (won s (update f i out) p (compare_exchange s.top (s.top + 1) s.top)))
            (sym result)
            (
              ap (λ x. queue_of (won s (update f i out) p x)) done
                  ∙ ap (λ t. record (queue_of s) { top = t }) (omega arith),
              ap (λ (x : Bool × ℕ). if x.0 then p ∷ s.taken else s.taken) done
                  ∙ ap (λ x. x ∷ s.taken)
                      (value ∙ sym (from_address-handle (get s.top (current s)))),
            ),
      )
  | no few ↦
      let none_left : s.back ≡ s.top = omega (arith, (Reach-Inv r).ordered) in
      let (f, at, steps) = loaded s i resting out (ground (arith, owner_at (Reach-Inv r) rest)) in
      (
        record s { thief = f },
        steps,
        at,
        subst (Agrees s (record s { thief = f }))
            (sym (steal_empty (queue_of s) (owner_at (Reach-Inv r) rest) none_left)) (refl, refl),
      )
]

-- A run of the owner's `pop` to its end that agrees with the `pop` that runs at once.
abbrev pub Pops : System → Type 0
Pops s = (s' : System) × Steps IsPop s s' × (s'.owner ≡ idle) × Agrees s s' (Steal.pop (queue_of s))

module _ (s : System) (v : Inv s) (rest : s.owner ≡ idle) where
  at_back : s.bottom ≡ pos s.back
  at_back = owner_at v rest

  begun : Steps IsPop s (record s { bottom = pos s.back -ℤ pos 1; owner = popping s.back })
  begun = more stop (Step.pop_starts s.back rest at_back) tt

  finds_none : s.back ≡ s.top → Pops s
  unfolding ◌-ℤ◌
  finds_none e = (
    record s { bottom = pos s.back; owner = idle },
    more (more begun (Step.pop_misses s.back refl (ground arith)) tt)
        (Step.pop_restores s.back refl) tt,
    refl,
    subst (Agrees s (record s { bottom = pos s.back; owner = idle }))
        (sym (pop_empty (queue_of s) at_back e))
        (ap (λ z. record (queue_of s) { bottom = z }) (sym at_back), refl),
  )

  gives_newest : suc s.top < s.back → Pops s
  unfolding ◌-ℤ◌
  gives_newest many =
      let less : s.back - 1 < 2 ^ 63 = omega (arith, v.small) in
      let p = get ((s.back - 1) % 2 ^ 64) (current s) in
      let s' : System = record s {
        bottom = pos s.back -ℤ pos 1;
        owner = idle;
        back = s.back - 1;
        taken = p ∷ s.taken;
      } in
      (
        s',
        more (more begun (Step.pop_more s.back refl (ground arith) (ground arith)) tt)
            (Step.pop_takes (s.back - 1) refl) tt,
        refl,
        subst (Agrees s s')
            (sym
              (pop_more {b = s.back - 1} (queue_of s) (ground (arith, at_back)) less (omega arith)))
            (
              ap (λ z. record (queue_of s) { bottom = z }) (ground arith),
              ap (λ x. x ∷ s.taken)
                  (ap (λ j. get j (current s)) (index_small (s.back - 1) less)
                    ∙ sym (from_address-handle (get (s.back - 1) (current s)))),
            ),
      )

  gives_last : s.back ≡ suc s.top → Pops s
  unfolding ◌-ℤ◌
  gives_last one =
      let t = s.back - 1 in
      let last : t ≡ s.top = omega arith in
      let p = get (t % 2 ^ 64) (current s) in
      let finish : Bool × ℕ → System = λ r. record s {
        top = r.1;
        bottom = pos (suc t);
        owner = idle;
        taken = if r.0 then p ∷ s.taken else s.taken;
      } in
      let exchange = compare_exchange t (t + 1) s.top in
      let same : (true, suc s.top) ≡ exchange = exchange-won t s.top last in
      (
        finish exchange,
        more
            (more
              (more (more begun (Step.pop_last s.back refl (ground arith) (ground arith)) tt)
                (Step.pop_reads t refl) tt)
              (Step.pop_exchanges t p refl) tt)
            (Step.pop_restores (suc t) refl) tt,
        refl,
        subst (λ r. Agrees s (finish r) (Steal.pop (queue_of s))) same
            (subst (Agrees s (finish (true, suc s.top)))
              (sym (pop_last {b = s.back} (queue_of s) at_back v.small (omega arith)))
              (
                ap₂ (λ u z. record (queue_of s) { top = u; bottom = z }) (omega arith)
                    (ap pos (omega arith) ∙ sym at_back),
                ap (λ x. x ∷ s.taken)
                    (ap (λ j. get j (current s)) (index_small t (omega (arith, v.small)) ∙ last)
                      ∙ sym (from_address-handle (get s.top (current s)))),
              )),
      )

-- In a reachable state in which the owner is in no call, the accesses of its `pop`, with none of a thief
-- in between, leave the queue and return the pointer as the `pop` that runs at once does.
pub pop-Agrees : {address : ℕ} {s : System} → Reach address s → s.owner ≡ idle → Pops s
pop-Agrees {address} {s} r rest =
    let v = Reach-Inv r in
    elim (dec_lt (suc s.top) s.back) [
      | yes many ↦ gives_newest s v rest many
      | no few ↦ elim (dec_lt s.top s.back) [
        | yes one ↦ gives_last s v rest (omega arith)
        | no none_left ↦ finds_none s v rest (omega (arith, v.ordered))
      ]
    ]
