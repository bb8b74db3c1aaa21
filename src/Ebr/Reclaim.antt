-- ===== src/Ebr/Reclaim.antt =====
-- Retired pointers are deleted in the end, and how often the collection runs.
use tiny_coro_build_your_own.Common.{
  ℕ, zero, suc, ◌+◌, ◌%◌, ◌≤◌, ◌<◌, ◌≡◌, refl, ◌≢◌, inl, inr, ◌∙◌, ap, true, false, List, [], ◌∷◌,
  arith, ltb, ◌==◌, count, count-append, Bool-cases, ==_iff, length,
}
use tiny_coro_build_your_own.Ebr.{
  LocalState, EbrManager, size_mod, lagging, delete_nodes, delete_bins, safe_bin_idx, advance,
  try_advance, push_retired, reset_count, retire,
}
use tiny_coro_build_your_own.Ebr.World.{bin_of}
use tiny_coro_build_your_own.Ebr.Advance.{clear_bins_lem}

delete_bins-finds :
    (k p j : ℕ) (threads : ℕ → LocalState) (n : ℕ)
    → j < n
    → 0 < count p (delete_nodes ((threads j).retire_bins k))
    → 0 < count p (delete_bins k threads n)
unfolding delete_bins
delete_bins-finds k p j threads zero lt h = elim lt [ ]
delete_bins-finds k p j threads (suc n) lt h =
    rw (count-append p (delete_bins k threads n) (delete_nodes ((threads n).retire_bins k)))
      (elim (Bool-cases (j == n)) [
        | inl last ↦ omega (
          arith,
          ap (λ (t : ℕ). count p (delete_nodes ((threads t).retire_bins k))) ((==_iff j n).0 last),
        )
        | inr below ↦ omega (arith, delete_bins-finds k p j threads n (ground arith) h)
      ])

advance-keeps_bin :
    (m : EbrManager) (j k : ℕ) → safe_bin_idx m ≢ k → bin_of (advance m) j k ≡ bin_of m j k
unfolding advance
advance-keeps_bin m j k other =
    ap (λ (ls : LocalState). ls.retire_bins k)
      (clear_bins_lem (safe_bin_idx m) m.threads m.thread_count j)
    ∙ ground arith

advance-epoch :
    (m : EbrManager) → m.global_epoch + 2 < size_mod → (advance m).global_epoch ≡ m.global_epoch + 1
unfolding advance
advance-epoch m room = omega arith

pub advance-deletes :
    (m : EbrManager) (p j : ℕ)
    → j < m.thread_count
    → 0 < count p (delete_nodes (bin_of m j (safe_bin_idx m)))
    → 0 < count p (advance m).freed
unfolding advance
advance-deletes m p j lt h =
    rw (count-append p m.freed (delete_bins (safe_bin_idx m) m.threads m.thread_count))
      (omega (arith, delete_bins-finds (safe_bin_idx m) p j m.threads m.thread_count lt h))

advance-thread_count : (m : EbrManager) → (advance m).thread_count ≡ m.thread_count
unfolding advance
advance-thread_count m = refl

try_advance-moves :
    (m : EbrManager)
    → lagging m.global_epoch m.threads m.thread_count ≡ false
    → try_advance m ≡ advance m
unfolding try_advance
try_advance-moves m e = rw e

-- A pointer in a registered thread's bin of the current epoch is deleted after two calls of
-- `try_advance` that find no thread lagging, while the counter of epochs is below its limit.
pub retired_deleted :
    (m : EbrManager) (p j : ℕ)
    → j < m.thread_count
    → m.global_epoch + 3 < size_mod
    → 0 < count p (delete_nodes (bin_of m j (m.global_epoch % 3)))
    → lagging m.global_epoch m.threads m.thread_count ≡ false
    → (let n = try_advance m in lagging n.global_epoch n.threads n.thread_count) ≡ false
    → 0 < count p (try_advance (try_advance m)).freed
retired_deleted m p j lt room h first second =
    let caught_up = rw (try_advance-moves m first) at second in
    rw (try_advance-moves m first, try_advance-moves (advance m) caught_up)
      (advance-deletes (advance m) p j (rw (advance-thread_count m) lt)
        (rw (same_bin, advance-keeps_bin m j (m.global_epoch % 3) (λ e. omega arith)) h))
  where
    same_bin : safe_bin_idx (advance m) ≡ m.global_epoch % 3
    same_bin = omega (arith, advance-epoch m (omega arith))

-- `count` calls of `retire` by one thread.
pub retires : ℕ → List ℕ → EbrManager → EbrManager
retires i [] m = m
retires i (p ∷ ps) m = retires i ps (retire i p m)

retire-few :
    (i p : ℕ) (m : EbrManager)
    → (m.threads i).op_count < 64
    → (((retire i p m).threads i).op_count ≡ (m.threads i).op_count + 1)
      × ((retire i p m).global_epoch ≡ m.global_epoch)
      × ((retire i p m).freed ≡ m.freed)
unfolding retire push_retired
retire-few i p m few = ground arith

-- Calls of `retire` that bring a thread's counter to 64 at most leave the epoch alone, delete nothing,
-- and are all counted.
pub retires_without_gc :
    (i : ℕ) (ps : List ℕ) (m : EbrManager)
    → (m.threads i).op_count + length ps ≤ 64
    → ((retires i ps m).global_epoch ≡ m.global_epoch)
      × ((retires i ps m).freed ≡ m.freed)
      × (((retires i ps m).threads i).op_count ≡ (m.threads i).op_count + length ps)
unfolding retires
retires_without_gc i [] m few = (refl, refl, omega arith)
retires_without_gc i (p ∷ ps) m few =
    let (count', epoch', freed') = retire-few i p m (omega arith) in
    let (epoch'', freed'', count'') = retires_without_gc i ps (retire i p m) (omega arith) in
    (epoch'' ∙ epoch', freed'' ∙ freed', omega arith)

push_retired-full :
    (i p : ℕ) (m : EbrManager)
    → (m.threads i).op_count ≡ 64
    → ltb 64 ((push_retired i p m).threads i).op_count ≡ true
unfolding push_retired
push_retired-full i p m full = ground arith

-- The next call, the sixty-fifth, resets the counter and tries to advance the epoch.
pub retire_full :
    (i p : ℕ) (m : EbrManager)
    → (m.threads i).op_count ≡ 64
    → retire i p m ≡ try_advance (reset_count i (push_retired i p m))
unfolding retire
retire_full i p m full = rw (push_retired-full i p m full)
