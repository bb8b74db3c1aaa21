-- ===== src/Ebr/Advance.antt =====
-- `try_advance` against the invariant.
use tiny_coro_build_your_own.Common.{
  ℕ, zero, suc, ◌+◌, ◌%◌, ◌<◌, ◌≡◌, refl, inr, true, false, List, [], ◌∷◌, ◌++◌, arith,
  if◌then◌else◌, ltb, count, count-append, update,
}
use tiny_coro_build_your_own.Ebr.{
  Node, LocalState, EbrManager, size_mod, lagging, delete_nodes, delete_bins, clear_bins,
  safe_bin_idx, advance,
}
use tiny_coro_build_your_own.Ebr.World.{World, bin_of, Unretired, Protected, Inv}

pub delete_nodes-append :
    (xs ys : List Node) → delete_nodes (xs ++ ys) ≡ delete_nodes xs ++ delete_nodes ys
unfolding delete_nodes
delete_nodes-append [] ys = refl
delete_nodes-append (x ∷ xs) ys = rw (delete_nodes-append xs ys)

-- No thread lags: every active one is in the current epoch.
lagging-false :
    (g : ℕ) (threads : ℕ → LocalState) (n : ℕ)
    → lagging g threads n ≡ false
    → (i : ℕ) → i < n
    → (threads i).active ≡ true
    → (threads i).epoch ≡ g
unfolding lagging
lagging-false g threads zero h i lt act = elim lt [ ]
lagging-false g threads (suc n) h i lt act =
    ground (arith, lagging-false g threads n (ground arith) i)

-- A pointer in no bin of that number is not deleted with them.
delete_bins-count :
    (k p : ℕ) (threads : ℕ → LocalState) (n : ℕ)
    → ((j : ℕ) → count p (delete_nodes ((threads j).retire_bins k)) ≡ 0)
    → count p (delete_bins k threads n) ≡ 0
unfolding delete_bins
delete_bins-count k p threads zero h = refl
delete_bins-count k p threads (suc n) h =
    rw (count-append p (delete_bins k threads n) (delete_nodes ((threads n).retire_bins k)))
      (omega (arith, h n, delete_bins-count k p threads n h))

pub clear_bins_lem :
    (k : ℕ) (threads : ℕ → LocalState) (n j : ℕ)
    → clear_bins k threads n j ≡ (
        if ltb j n
        then record (threads j) { retire_bins = update (threads j).retire_bins k [] }
        else threads j)
unfolding clear_bins
clear_bins_lem k threads zero j = ground arith
clear_bins_lem k threads (suc n) j =
    ground (arith, clear_bins_lem k threads n j, clear_bins_lem k threads n n)

-- Emptying a bin takes no pointer into any bin.
clear_bins-nodes :
    (k p : ℕ) (threads : ℕ → LocalState) (n j b : ℕ)
    → count p (delete_nodes ((threads j).retire_bins b)) ≡ 0
    → count p (delete_nodes ((clear_bins k threads n j).retire_bins b)) ≡ 0
unfolding delete_nodes
clear_bins-nodes k p threads n j b h = rw (clear_bins_lem k threads n j) (ground arith)

clear_bins-epoch :
    (k : ℕ) (threads : ℕ → LocalState) (n j : ℕ)
    → ((clear_bins k threads n j).active ≡ (threads j).active)
      × ((clear_bins k threads n j).epoch ≡ (threads j).epoch)
clear_bins-epoch k threads n j = rw (clear_bins_lem k threads n j) (ground arith)

advance-undeleted :
    (m : EbrManager) (p : ℕ)
    → count p m.freed ≡ 0
    → ((j : ℕ) → count p (delete_nodes (bin_of m j (safe_bin_idx m))) ≡ 0)
    → count p (advance m).freed ≡ 0
unfolding advance
advance-undeleted m p kept out =
    rw (count-append p m.freed (delete_bins (safe_bin_idx m) m.threads m.thread_count))
      (omega (arith, kept, delete_bins-count (safe_bin_idx m) p m.threads m.thread_count out))

advance-nodes :
    (m : EbrManager) (p j k : ℕ)
    → count p (delete_nodes (bin_of m j k)) ≡ 0
    → count p (delete_nodes (bin_of (advance m) j k)) ≡ 0
unfolding advance
advance-nodes m p j k h = clear_bins-nodes (safe_bin_idx m) p m.threads m.thread_count j k h

-- After an advance the bins of the epoch before last are gone.
module _ {w : World} (inv : Inv w) (room : w.ebr.global_epoch + 2 < size_mod)
    (caught_up : lagging w.ebr.global_epoch w.ebr.threads w.ebr.thread_count ≡ false) where
  current : (i : ℕ) → (w.ebr.threads i).active ≡ true → (w.ebr.threads i).epoch ≡ w.ebr.global_epoch
  current i act =
      lagging-false w.ebr.global_epoch w.ebr.threads w.ebr.thread_count caught_up i
        (inv.registered i act) act

  advance-states :
      (i : ℕ)
      → (((advance w.ebr).threads i).active ≡ (w.ebr.threads i).active)
        × (((advance w.ebr).threads i).epoch ≡ (w.ebr.threads i).epoch)
  unfolding advance
  advance-states i = clear_bins-epoch (safe_bin_idx w.ebr) w.ebr.threads w.ebr.thread_count i

  advance-Protected : (i p : ℕ) → w.held i p ≡ true → Protected (advance w.ebr) i p
  advance-Protected i p h = record {
    is_active = rw (advance-states i).0 is_active;
    undeleted = advance-undeleted w.ebr p undeleted (λ j. rw oldest (elsewhere j));
    elsewhere = λ j.
        rw (advance-states i).1
          (advance-nodes w.ebr p j (((w.ebr.threads i).epoch + 2) % 3) (elsewhere j));
  }
    where
      open (inv.protected i p h) use {is_active, undeleted, elsewhere}

      oldest : safe_bin_idx w.ebr ≡ ((w.ebr.threads i).epoch + 2) % 3
      oldest = omega (arith, current i is_active)

  advance-Unretired : (p : ℕ) → Unretired w.ebr p → Unretired (advance w.ebr) p
  advance-Unretired p u = (
    advance-undeleted w.ebr p u.0 (λ j. u.1 j (safe_bin_idx w.ebr)),
    λ j k. advance-nodes w.ebr p j k (u.1 j k),
  )

  pub advance-Inv : Inv (record w { ebr = advance w.ebr })
  unfolding advance
  advance-Inv = record {
    registered = λ i act. inv.registered i (rw (advance-states i).0 at act);
    near = λ i act.
        let e = current i (rw (advance-states i).0 at act) in
        inr (omega (arith, (advance-states i).1, e));
    unretired = λ p l. advance-Unretired p (inv.unretired p l);
    protected = advance-Protected;
    linked-allocated = inv.linked-allocated;
    held-allocated = inv.held-allocated;
  }
