-- ===== src/Ebr/Pointers.antt =====
-- The allocator and the reads of clients keep the invariant.
use mathlib.Core.Path.{subst}
use tiny_coro_build_your_own.Common.{
  ℕ, ◌+◌, ◌%◌, ◌≡◌, inl, inr, true, ◌&&◌, arith, ◌==◌, count, update, Bool-cases, ==_iff,
  count-without,
}
use tiny_coro_build_your_own.Ebr.{delete_nodes}
use tiny_coro_build_your_own.Ebr.World.{World, bin_of, Available, reuse, Protected, Inv}

module _ {w : World} (inv : Inv w) where
  -- What a thread holds is not available.
  pub held-unavailable : (i p : ℕ) → w.held i p ≡ true → ¬ Available w p
  held-unavailable i p h (inl new, _) = cc (inv.held-allocated i p h)
  held-unavailable i p h (inr gone, _) = omega (arith, (inv.protected i p h).undeleted)

  links-Protected :
      (p : ℕ) → Available w p → (i q : ℕ) → w.held i q ≡ true → Protected (reuse p w.ebr) i q
  links-Protected p free i q h =
      let before = inv.protected i q h in
      record {
        is_active = before.is_active;
        undeleted = elim (Bool-cases (p == q)) [
          | inl same ↦
              absurd (held-unavailable i q h (subst (Available w) ((==_iff p q).0 same) free))
          | inr other ↦ ground (arith, count-without p q w.ebr.freed, before.undeleted)
        ];
        elsewhere = before.elsewhere;
      }

  pub links-Inv :
      (p : ℕ)
      → Available w p
      → Inv (record w {
        ebr = reuse p w.ebr;
        linked = update w.linked p true;
        allocated = update w.allocated p true;
      })
  links-Inv p free = record {
    registered = inv.registered;
    near = inv.near;
    unretired = λ q l. elim (Bool-cases (p == q)) [
      | inl same ↦
          let e = (==_iff p q).0 same in
          (
            ground (arith, count-without p q w.ebr.freed),
            λ j k. subst (λ r. count r (delete_nodes (bin_of w.ebr j k)) ≡ 0) e (free.1 j k),
          )
      | inr other ↦ (
        ground (arith, count-without p q w.ebr.freed, (inv.unretired q (ground arith)).0),
        (inv.unretired q (ground arith)).1,
      )
    ];
    linked-allocated = λ q l. ground (arith, inv.linked-allocated q);
    held-allocated = λ i q h. ground (arith, inv.held-allocated i q);
    protected = links-Protected p free;
  }

  pub reads-Inv :
      (i p : ℕ)
      → (w.ebr.threads i).active ≡ true
      → w.linked p ≡ true
      → Inv (record w { held = update w.held i (update (w.held i) p true) })
  reads-Inv i p act l = record {
    registered = inv.registered;
    near = inv.near;
    unretired = inv.unretired;
    linked-allocated = inv.linked-allocated;
    held-allocated = λ j q h. elim (Bool-cases (i == j && p == q)) [
      | inl same ↦ rw (← (==_iff p q).0 (ground arith)) (inv.linked-allocated p l)
      | inr other ↦ inv.held-allocated j q (ground arith)
    ];
    protected = λ j q h. elim (Bool-cases (i == j && p == q)) [
      | inl same ↦
          rw (← (==_iff i j).0 (ground arith), ← (==_iff p q).0 (ground arith))
            (record {
              is_active = act;
              undeleted = (inv.unretired p l).0;
              elsewhere = λ b. (inv.unretired p l).1 b (((w.ebr.threads i).epoch + 2) % 3);
            })
      | inr other ↦ inv.protected j q (ground arith)
    ];
  }
