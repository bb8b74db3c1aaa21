-- ===== src/Ebr/Operations.antt =====
-- Each operation of a thread keeps the invariant.
use tiny_coro_build_your_own.Common.{
  ℕ, ◌+◌, ◌%◌, ◌<◌, ◌≡◌, refl, ◌≢◌, ◌⊎◌, inl, inr, true, false, List, [], ◌∷◌, arith, count,
  count-append, update,
}
use tiny_coro_build_your_own.Ebr.{
  Node, EbrManager, register_thread, enter, exit, delete_nodes, push_retired, reset_count,
}
use tiny_coro_build_your_own.Ebr.World.{World, bin_of, Protected, Inv}
use tiny_coro_build_your_own.Ebr.Advance.{delete_nodes-append}

-- The push touches one bin, and puts nothing but its pointer there.
push_retired-nodes :
    (i p q : ℕ) (m : EbrManager) (j k : ℕ)
    → (q ≢ p) ⊎ (m.global_epoch % 3 ≢ k)
    → count q (delete_nodes (bin_of m j k)) ≡ 0
    → count q (delete_nodes (bin_of (push_retired i p m) j k)) ≡ 0
unfolding push_retired delete_nodes
push_retired-nodes i p q m j k other h =
    let bin = bin_of m i k in
    let pushed : List Node = record { ptr = p } ∷ [] in
    ground (
      arith,
      delete_nodes-append bin pushed,
      count-append q (delete_nodes bin) (delete_nodes pushed),
    )

push_retired-states :
    (i p : ℕ) (m : EbrManager) (j : ℕ)
    → (((push_retired i p m).threads j).active ≡ (m.threads j).active)
      × (((push_retired i p m).threads j).epoch ≡ (m.threads j).epoch)
unfolding push_retired
push_retired-states i p m j = ground arith

push_retired-freed : (i p : ℕ) (m : EbrManager) → (push_retired i p m).freed ≡ m.freed
unfolding push_retired
push_retired-freed i p m = refl

-- One lemma for each operation of a thread.
module _ {w : World} (inv : Inv w) where
  -- A protected thread is registered, and its epoch is the current one or the one before.
  known :
      (i p : ℕ)
      → w.held i p ≡ true
      → (i < w.ebr.thread_count)
        × (((w.ebr.threads i).epoch ≡ w.ebr.global_epoch)
            ⊎ ((w.ebr.threads i).epoch + 1 ≡ w.ebr.global_epoch))
  known i p h = let act = (inv.protected i p h).is_active in (inv.registered i act, inv.near i act)

  pub registers-Inv : Inv (record w { ebr = (register_thread w.ebr).0 })
  unfolding register_thread delete_nodes
  registers-Inv = record {
    registered = λ i act. ground (arith, inv.registered i);
    near = λ i act. ground (arith, inv.near i);
    unretired = λ p l. ((inv.unretired p l).0, λ j k. ground (arith, (inv.unretired p l).1 j k));
    linked-allocated = inv.linked-allocated;
    held-allocated = inv.held-allocated;
    protected = λ i p h. record {
      is_active = ground (arith, (inv.protected i p h).is_active, known i p h);
      undeleted = (inv.protected i p h).undeleted;
      elsewhere = λ j. ground (arith, (inv.protected i p h).elsewhere j, known i p h);
    };
  }

  pub enters-Inv :
      (i : ℕ)
      → i < w.ebr.thread_count
      → Inv (record w { ebr = enter i w.ebr; held = update w.held i (λ _. false) })
  unfolding enter
  enters-Inv i lt = record {
    registered = λ j act. ground (arith, inv.registered j);
    near = λ j act. ground (arith, inv.near j);
    unretired = λ p l. (
      (inv.unretired p l).0,
      λ j k. ground (arith, (inv.unretired p l).1 j k, (inv.unretired p l).1 i k),
    );
    linked-allocated = inv.linked-allocated;
    held-allocated = λ j p h. inv.held-allocated j p (still j p h);
    protected = λ j p h. record {
      is_active = ground (arith, (inv.protected j p (still j p h)).is_active);
      undeleted = (inv.protected j p (still j p h)).undeleted;
      elsewhere = λ b. ground (
        arith,
        (inv.protected j p (still j p h)).elsewhere b,
        (inv.protected j p (still j p h)).elsewhere i,
      );
    };
  }
    where
      still : (j p : ℕ) → update w.held i (λ _. false) j p ≡ true → w.held j p ≡ true
      still j p h = ground arith

  pub exits-Inv :
      (i : ℕ)
      → i < w.ebr.thread_count
      → Inv (record w { ebr = exit i w.ebr; held = update w.held i (λ _. false) })
  unfolding exit
  exits-Inv i lt = record {
    registered = λ j act. ground (arith, inv.registered j);
    near = λ j act. ground (arith, inv.near j);
    unretired = λ p l. (
      (inv.unretired p l).0,
      λ j k. ground (arith, (inv.unretired p l).1 j k, (inv.unretired p l).1 i k),
    );
    linked-allocated = inv.linked-allocated;
    held-allocated = λ j p h. inv.held-allocated j p (still j p h);
    protected = λ j p h. record {
      is_active = ground (arith, (inv.protected j p (still j p h)).is_active);
      undeleted = (inv.protected j p (still j p h)).undeleted;
      elsewhere = λ b. ground (
        arith,
        (inv.protected j p (still j p h)).elsewhere b,
        (inv.protected j p (still j p h)).elsewhere i,
      );
    };
  }
    where
      still : (j p : ℕ) → update w.held i (λ _. false) j p ≡ true → w.held j p ≡ true
      still j p h = ground arith

  push-Protected : (i p j q : ℕ) → w.held j q ≡ true → Protected (push_retired i p w.ebr) j q
  push-Protected i p j q h = record {
    is_active = rw (push_retired-states i p w.ebr j).0 before.is_active;
    undeleted = rw (push_retired-freed i p w.ebr) before.undeleted;
    elsewhere = λ b. rw (push_retired-states i p w.ebr j).1 (
        push_retired-nodes i p q w.ebr b (((w.ebr.threads j).epoch + 2) % 3)
          (inr (λ e. absurd (omega (arith, (known j q h).1)))) (before.elsewhere b));
  }
    where
      before : Protected w.ebr j q
      before = inv.protected j q h

  pub push-Inv :
      (i p : ℕ)
      → w.linked p ≡ true
      → Inv (record w { ebr = push_retired i p w.ebr; linked = update w.linked p false })
  unfolding push_retired
  push-Inv i p l = record {
    registered = λ j act. ground (arith, inv.registered j, inv.registered i);
    near = λ j act. ground (arith, inv.near j, inv.near i);
    unretired = λ q ql. (
      (inv.unretired q (ground arith)).0,
      λ j k.
          push_retired-nodes i p q w.ebr j k (inl (λ e. ground arith))
            ((inv.unretired q (ground arith)).1 j k),
    );
    linked-allocated = λ q ql. inv.linked-allocated q (ground arith);
    held-allocated = inv.held-allocated;
    protected = push-Protected i p;
  }

  pub reset-Inv : (i : ℕ) → Inv (record w { ebr = reset_count i w.ebr })
  reset-Inv i = record {
    registered = λ j act. ground (arith, inv.registered j);
    near = λ j act. ground (arith, inv.near j);
    unretired = λ p l. (
      (inv.unretired p l).0,
      λ j k. ground (arith, (inv.unretired p l).1 j k, (inv.unretired p l).1 i k),
    );
    linked-allocated = inv.linked-allocated;
    held-allocated = inv.held-allocated;
    protected = λ j p h.
        let before = inv.protected j p h in
        record {
          is_active = ground (arith, before.is_active);
          undeleted = before.undeleted;
          elsewhere = λ b. ground (arith, before.elsewhere b, before.elsewhere i);
        };
  }
