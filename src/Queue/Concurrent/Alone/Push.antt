-- ===== src/Queue/Concurrent/Alone/Push.antt =====
-- A `push` whose accesses nothing interrupts, with the array replaced if it is full.
use mathlib.Core.Path.{subst}
use tiny_coro_build_your_own.Common.{
  ℕ, suc, ◌+◌, ◌%◌, ◌^◌, ◌≤◌, ◌<◌, dec_lt, ◌≡◌, refl, sym, ap, ◌∙◌, ◌≢◌, some, List, ◌∷◌, arith,
  update, count,
}
use tiny_coro_build_your_own.Common.Int.{pos, ◌+ℤ◌, ◌-ℤ◌}
use tiny_coro_build_your_own.Task.{Task}
use tiny_coro_build_your_own.Task.Ownership.{Counted}
use tiny_coro_build_your_own.Ebr.{EbrManager}
use tiny_coro_build_your_own.Queue.Array.{Array, put, resize}
use tiny_coro_build_your_own.Queue.Steal.{
  StealQueue, Shared, to_size, make_room, write_bottom, push,
}
use tiny_coro_build_your_own.Queue.Refinement.{push-runs}
use tiny_coro_build_your_own.Queue.Refinement.Steps.{make_room_full, make_room_spare}
use tiny_coro_build_your_own.Queue.Array.Slots.{cap_pos}
use tiny_coro_build_your_own.Queue.Concurrent.Invariant.{index_small}
use tiny_coro_build_your_own.Queue.Concurrent.{
  idle, sized, roomy, System, Step, Reach, current, Unheld,
}
use tiny_coro_build_your_own.Queue.Concurrent.Moves.{owner_at}
use tiny_coro_build_your_own.Queue.Concurrent.Conservation.{Reach-Inv}
use tiny_coro_build_your_own.Queue.Concurrent.Alone.{Steps, stop, more, queue_of}

-- An access that the owner makes in `push`.
abbrev pub IsPush : (s s' : System) → Step s s' → Type 0
IsPush s _ (Step.push_starts b p e at lt) = Unit
IsPush s _ (Step.push_loads b p e) = Unit
IsPush s _ (Step.push_fits b t p e spare) = Unit
IsPush s _ (Step.push_grows b t p fresh e full free) = Unit
IsPush s _ (Step.push_writes b p e) = Unit
IsPush s _ (Step.push_ends b p e) = Unit
IsPush s _ _ = ⊥

-- A run of the owner's `push` of `p` to its end, which leaves the queue `q`.
abbrev pub Pushes : System → ℕ → StealQueue → Type 0
Pushes s p q =
    (s' : System) × Steps IsPush s s'
    × (s'.owner ≡ idle)
    × (queue_of s' ≡ q)
    × (s'.pushed ≡ p ∷ s.pushed)
    × (s'.taken ≡ s.taken)

update_self : (f : ℕ → Array) (i : ℕ) (a : Array) → update f i a i ≡ a
update_self f i a = ground arith

module _ (s : System) (p : ℕ) (rest : s.owner ≡ idle) (at : s.bottom ≡ pos s.back)
    (small : suc s.back < 2 ^ 63) where
  measured : Steps IsPush s (record s { owner = sized s.back s.top p })
  measured =
      more (more stop (Step.push_starts s.back p rest at small) tt) (Step.push_loads s.back p refl)
        tt

  -- The last two accesses, with the arrays as they are then.
  finishes :
      (array' : ℕ) (arrays' : ℕ → Array)
      → Steps IsPush s (record s { array = array'; arrays = arrays'; owner = roomy s.back p })
      → Pushes s p (write_bottom p (record (queue_of s) { array = arrays' array' }))
  finishes array' arrays' steps =
      let filled : Array = put (s.back % 2 ^ 64) p (arrays' array') in
      (
        record s {
          array = array';
          arrays = update arrays' array' filled;
          bottom = pos s.back +ℤ pos 1;
          owner = idle;
          pushed = p ∷ s.pushed;
          back = suc s.back;
        },
        more (more steps (Step.push_writes s.back p refl) tt) (Step.push_ends s.back p refl) tt,
        refl,
        ap (λ a. record (queue_of s) { bottom = pos s.back +ℤ pos 1; array = a })
              (update_self arrays' array' filled)
            ∙ ap
                (λ z. record (queue_of s) {
                  bottom = z +ℤ pos 1;
                  array = put (to_size z) p (arrays' array');
                })
                (sym at),
        refl,
        refl,
      )

  makes_room :
      (fresh : ℕ) (ebr : EbrManager)
      → Unheld fresh s
      → s.top ≤ s.back
      → 0 < (current s).cap
      → Pushes s p (write_bottom p (make_room fresh ebr (queue_of s)).0)
  unfolding ◌-ℤ◌
  makes_room fresh ebr free le some_cap = elim (dec_lt (suc s.back) (s.top + (current s).cap)) [
    | yes spare ↦
        subst (λ r. Pushes s p (write_bottom p r.0))
          (sym (make_room_spare fresh ebr (queue_of s) at le spare))
          (finishes s.array s.arrays
            (more measured (Step.push_fits s.back s.top p refl (ground arith)) tt))
    | no full ↦
        let bigger : Array = resize fresh s.back s.top (current s) in
        subst (λ r. Pushes s p (write_bottom p r.0))
          (sym (make_room_full fresh ebr (queue_of s) at le (omega arith) some_cap))
          (subst (λ a. Pushes s p (write_bottom p (record (queue_of s) { array = a })))
            (update_self s.arrays fresh bigger
              ∙ ap (λ i. resize fresh i s.top (current s))
                  (sym (ap to_size at ∙ index_small s.back (omega arith))))
            (finishes fresh (update s.arrays fresh bigger)
              (more measured (Step.push_grows s.back s.top p fresh refl (ground arith) free) tt)))
  ]

-- In a reachable state in which the owner is in no call and the counters are below their limit, a task that is not null and
-- to which the owner holds a reference is pushed, with an address for a new array that no thief uses: the `push` that
-- runs at once succeeds, the accesses of the owner's `push`, with none of a thief in between, leave the queue as it
-- does, with the array replaced if it is full, the pointer counts as pushed, and no pointer is taken.
pub push-Agrees :
    {address : ℕ} {s : System} {owners : List ℕ}
    → Reach address s
    → s.owner ≡ idle
    → suc s.back < 2 ^ 63
    → (fresh : ℕ) (item : Task) (sh : Shared) → Unheld fresh s
    → Counted sh.frames owners
    → item.handle ≢ 0
    → 0 < count item.handle owners
    → suc (count item.handle owners) < 2 ^ 31
    → (sh' : Shared) × (q : StealQueue) × (push fresh item sh (queue_of s) ≡ some (sh', q))
      × Pushes s item.handle q
push-Agrees {address} {s} r rest small fresh item sh free counted nz held room =
    let v = Reach-Inv r in
    let (k, shape) = v.shape in
    let (sh', pushed, _) = push-runs fresh item sh (queue_of s) counted nz held room in
    (
      sh',
      write_bottom item.handle (make_room fresh sh.ebr (queue_of s)).0,
      pushed,
      makes_room s item.handle rest (owner_at v rest) small fresh sh.ebr free v.ordered
          (cap_pos shape),
    )
