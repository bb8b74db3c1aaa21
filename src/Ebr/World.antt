-- ===== src/Ebr/World.antt =====
-- What the clients of the manager share and read, and the invariant that protects what they read.
use tiny_coro_build_your_own.Common.{
  ℕ, ◌+◌, ◌%◌, ◌<◌, ◌≡◌, ◌⊎◌, Bool, true, false, List, count, without,
}
use tiny_coro_build_your_own.Ebr.{Node, EbrManager, delete_nodes}

-- The manager with what the program does under its protection: the pointers that are linked into
-- shared structures, those that a thread has read in its current critical section, and those that
-- the allocator has ever given out. Of the pointers in `freed`, the ones that the allocator gives out
-- again are left out.
pub record World : Type 0 where
  pub ebr : EbrManager
  pub linked : ℕ → Bool
  pub held : ℕ → ℕ → Bool
  pub allocated : ℕ → Bool

abbrev pub bin_of : EbrManager → ℕ → ℕ → List Node
bin_of m j k = (m.threads j).retire_bins k

abbrev pub InNoBin : EbrManager → ℕ → Type 0
InNoBin m p = (j k : ℕ) → count p (delete_nodes (bin_of m j k)) ≡ 0

-- `p` is in no retire bin and was not deleted.
abbrev pub Unretired : EbrManager → ℕ → Type 0
Unretired m p = (count p m.freed ≡ 0) × InNoBin m p

-- What the allocator can give out: a new pointer, or one that was deleted.
abbrev pub Available : World → ℕ → Type 0
Available w p = ((w.allocated p ≡ false) ⊎ (0 < count p w.ebr.freed)) × InNoBin w.ebr p

abbrev pub reuse : ℕ → EbrManager → EbrManager
reuse p m = record m { freed = without p m.freed }

-- Bins keep only pointers retired in the last two epochs.
pub record Protected (m : EbrManager) (i p : ℕ) : Type 0 where
  pub is_active : (m.threads i).active ≡ true
  pub undeleted : count p m.freed ≡ 0
  pub elsewhere : (j : ℕ) → count p (delete_nodes (bin_of m j (((m.threads i).epoch + 2) % 3))) ≡ 0

pub record Inv (w : World) : Type 0 where
  pub registered : (i : ℕ) → (w.ebr.threads i).active ≡ true → i < w.ebr.thread_count
  pub near :
      (i : ℕ)
      → (w.ebr.threads i).active ≡ true
      → ((w.ebr.threads i).epoch ≡ w.ebr.global_epoch)
        ⊎ ((w.ebr.threads i).epoch + 1 ≡ w.ebr.global_epoch)
  pub unretired : (p : ℕ) → w.linked p ≡ true → Unretired w.ebr p
  pub protected : (i p : ℕ) → w.held i p ≡ true → Protected w.ebr i p
  pub linked-allocated : (p : ℕ) → w.linked p ≡ true → w.allocated p ≡ true
  pub held-allocated : (i p : ℕ) → w.held i p ≡ true → w.allocated p ≡ true
