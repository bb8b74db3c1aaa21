-- ===== src/Queue/Concurrent/Stealing.antt =====
-- The steps of `steal` keep the invariant of the work-stealing queue.
use mathlib.Core.Path.{subst}
use tiny_coro_build_your_own.Common.{
  ℕ, suc, ◌+◌, ◌%◌, ◌^◌, ◌<◌, ◌≡◌, refl, ap, ◌∙◌, inl, inr, arith, if◌then◌else◌, update,
  ℕ_discrete, Bool-cases,
}
use tiny_coro_build_your_own.Common.Int.{ℤ, pos, ltb_ℤ, ◌-ℤ◌}
use tiny_coro_build_your_own.Queue.Array.{get}
use tiny_coro_build_your_own.Queue.Steal.{compare_exchange}
use tiny_coro_build_your_own.Queue.Concurrent.{
  Owner, idle, pushing, sized, roomy, written, popping, takes, takes_last, casing, restoring, out,
  saw_top, saw_work, has_array, has_value, System,
}
use tiny_coro_build_your_own.Queue.Concurrent.Invariant.{
  View, view, ThiefInv, OwnerInv, Inv, index_small, bottom-le-back,
}
use tiny_coro_build_your_own.Queue.Concurrent.Moves.{
  thief_moves, update-ThiefInv, front_taken, exchanged, exchange-won, exchange-lost,
}

pub steal_starts-Inv :
    {s : System} (i : ℕ) → Inv s → Inv (record s { thief = update s.thief i (saw_top s.top) })
steal_starts-Inv {s} i v = thief_moves i (saw_top s.top) v (omega arith)

pub steal_loads-Inv :
    {s : System} (i t : ℕ)
    → Inv s
    → s.thief i ≡ saw_top t
    → Inv
        (record s { thief = update s.thief i (if ltb_ℤ (pos t) s.bottom then saw_work t else out) })
steal_loads-Inv {s} i t v e =
    thief_moves i (if ltb_ℤ (pos t) s.bottom then saw_work t else out) v
      (elim (Bool-cases (ltb_ℤ (pos t) s.bottom)) [
        | inl work ↦ rw work (
          subst (λ th. ThiefInv th (view s)) e (v.thieves i),
          λ here. bottom-le-back s.owner s.bottom (view s) t v.owner work,
        )
        | inr no_work ↦ rw no_work tt
      ])

pub steal_finds-Inv :
    {s : System} (i t : ℕ)
    → Inv s
    → s.thief i ≡ saw_work t
    → Inv (record s { thief = update s.thief i (has_array t s.array) })
steal_finds-Inv {s} i t v e =
    let (le, work) = subst (λ th. ThiefInv th (view s)) e (v.thieves i) in
    thief_moves i (has_array t s.array) v (le, λ here. (work here, refl))

pub steal_reads-Inv :
    {s : System} (i t a : ℕ)
    → Inv s
    → s.thief i ≡ has_array t a
    → Inv (record s { thief = update s.thief i (has_value t (get (t % 2 ^ 64) (s.arrays a))) })
steal_reads-Inv {s} i t a v e =
    let (le, good) = subst (λ th. ThiefInv th (view s)) e (v.thieves i) in
    thief_moves i (has_value t (get (t % 2 ^ 64) (s.arrays a))) v (
      le,
      λ here.
          let (lt, right) = good here in
          (
            lt,
            ap (λ j. get j (s.arrays a)) (index_small t (omega (arith, v.small)) ∙ here) ∙ right,
          ),
    )

-- The owner does not notice that a thief takes the front entry.
OwnerInv-passes :
    (o : Owner) (z : ℤ) (v : View)
    → v.top < v.back
    → OwnerInv o z v
    → OwnerInv o z (record v { top = suc v.top })
unfolding ◌-ℤ◌
OwnerInv-passes idle z v lt h = h
OwnerInv-passes (pushing b p) z v lt h = h
OwnerInv-passes (sized b u p) z v lt h = ground arith
OwnerInv-passes (roomy b p) z v lt h = ground arith
OwnerInv-passes (written b p) z v lt h = ground arith
OwnerInv-passes (popping b) z v lt h = h
OwnerInv-passes (takes b) z v lt h = h
OwnerInv-passes (takes_last u) z v lt h = ground arith
OwnerInv-passes (casing u x) z v lt (at, last, le, right) =
    (at, last, omega arith, λ e. absurd (omega arith))
OwnerInv-passes (restoring b) z v lt h = ground arith

pub steal_exchanges-Inv :
    {s : System} (i t w : ℕ)
    → Inv s
    → s.thief i ≡ has_value t w
    → Inv (exchanged s s.owner (update s.thief i out) w (compare_exchange t (t + 1) s.top))
steal_exchanges-Inv {s} i t w v e = elim (ℕ_discrete t s.top) [
  | yes here ↦
      let (le, good) = subst (λ th. ThiefInv th (view s)) e (v.thieves i) in
      let (lt, right) = good here in
      let taken =
        front_taken s.owner (update s.thief i out) w v (omega arith) right
          (OwnerInv-passes s.owner s.bottom (view s) (omega arith) v.owner) refl
          (update-ThiefInv s.thief i out (view s) tt v.thieves) in
      subst (λ r. Inv (exchanged s s.owner (update s.thief i out) w r)) (exchange-won t s.top here)
        taken
  | no gone ↦
      subst (λ r. Inv (exchanged s s.owner (update s.thief i out) w r)) (exchange-lost t s.top gone)
        (thief_moves i out v tt)
]
