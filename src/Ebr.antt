-- ===== src/Ebr.antt =====
-- include/ebr.h: epoch-based reclamation. A `LocalState*` is a thread's number in the order of
-- registration. Each operation is a function on the whole manager; `freed` logs the calls of the deleters.
pub mod World
pub mod Advance
pub mod Operations
pub mod Pointers
pub mod Interleaved
pub mod Timely
pub mod Busy
pub mod Filled
pub mod Stale
pub mod Reclaim
mod Tests
use tiny_coro_build_your_own.Common.{
  ℕ, zero, suc, ◌+◌, ◌%◌, ◌^◌, Bool, true, false, not, ◌&&◌, ◌||◌, List, [], ◌∷◌, ◌++◌,
  if◌then◌else◌, ltb, ◌==◌, update,
}

-- A retired pointer; the deleter is always `delete` on it.
pub record Node : Type 0 where
  pub ptr : ℕ

pub record LocalState : Type 0 where
  pub active : Bool
  pub epoch : ℕ
  pub retire_bins : ℕ → List Node  -- at 0, 1 and 2
  pub op_count : ℕ

pub record EbrManager : Type 0 where
  pub global_epoch : ℕ
  pub thread_count : ℕ
  pub threads : ℕ → LocalState
  pub freed : List ℕ

abbrev pub size_mod : ℕ
size_mod = 2 ^ 64

abbrev pub new_state : LocalState
new_state = record { active = false; epoch = 0; retire_bins = λ _. []; op_count = 0 }

abbrev pub init : EbrManager
init = record { global_epoch = 0; thread_count = 0; threads = λ _. new_state; freed = [] }

-- The manager, and the number of the new thread.
unfoldable pub register_thread : EbrManager → EbrManager × ℕ
register_thread m = (
  record m {
    thread_count = suc m.thread_count;
    threads = update m.threads m.thread_count new_state;
  },
  m.thread_count,
)

unfoldable pub enter : ℕ → EbrManager → EbrManager
enter i m =
    let ls = m.threads i in
    record m { threads = update m.threads i (record ls { active = true; epoch = m.global_epoch }) }

unfoldable pub exit : ℕ → EbrManager → EbrManager
exit i m =
    let ls = m.threads i in record m { threads = update m.threads i (record ls { active = false }) }

-- The loop over the first `n` threads that looks for one that lags behind.
unfoldable pub lagging : ℕ → (ℕ → LocalState) → ℕ → Bool
lagging global threads zero = false
lagging global threads (suc n) =
    lagging global threads n || ((threads n).active && not ((threads n).epoch == global))

-- `node.deleter(node.ptr)` for each node of a bin.
unfoldable pub delete_nodes : List Node → List ℕ
delete_nodes [] = []
delete_nodes (node ∷ bin) = node.ptr ∷ delete_nodes bin

-- The loop over the first `n` threads that empties one bin of each: the calls of the deleters, and
-- the threads afterwards.
unfoldable pub delete_bins : ℕ → (ℕ → LocalState) → ℕ → List ℕ
unfolding delete_nodes
delete_bins bin threads zero = []
delete_bins bin threads (suc n) =
    delete_bins bin threads n ++ delete_nodes ((threads n).retire_bins bin)

abbrev cleared : ℕ → LocalState → LocalState
cleared bin ls = record ls { retire_bins = update ls.retire_bins bin [] }

unfoldable pub clear_bins : ℕ → (ℕ → LocalState) → ℕ → ℕ → LocalState
clear_bins bin threads zero = threads
clear_bins bin threads (suc n) =
    let rest = clear_bins bin threads n in update rest n (cleared bin (rest n))

-- `safe_bin_idx`
abbrev pub safe_bin_idx : EbrManager → ℕ
safe_bin_idx m = ((m.global_epoch + 1) % size_mod + 1) % size_mod % 3

-- The second half of `try_advance`: the epoch moves on, and the oldest bins are emptied.
unfoldable pub advance : EbrManager → EbrManager
advance m = record m {
  global_epoch = (m.global_epoch + 1) % size_mod;
  threads = clear_bins (safe_bin_idx m) m.threads m.thread_count;
  freed = m.freed ++ delete_bins (safe_bin_idx m) m.threads m.thread_count;
}

unfoldable pub try_advance : EbrManager → EbrManager
unfolding advance
try_advance m = if lagging m.global_epoch m.threads m.thread_count then m else advance m

-- The push into the bin of the epoch, and `op_count++`.
unfoldable pub push_retired : ℕ → ℕ → EbrManager → EbrManager
push_retired i ptr m =
    let ls = m.threads i in
    let bin = m.global_epoch % 3 in
    record m {
      threads = update m.threads i (record ls {
        retire_bins = update ls.retire_bins bin (ls.retire_bins bin ++ record { ptr = ptr } ∷ []);
        op_count = (ls.op_count + 1) % size_mod;
      });
    }

abbrev pub reset_count : ℕ → EbrManager → EbrManager
reset_count i m =
    let ls = m.threads i in record m { threads = update m.threads i (record ls { op_count = 0 }) }

unfoldable pub retire : ℕ → ℕ → EbrManager → EbrManager
retire i ptr m =
    let m' = push_retired i ptr m in
    if ltb 64 (m'.threads i).op_count then try_advance (reset_count i m') else m'
