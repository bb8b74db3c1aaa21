-- ===== src/SpinLock.antt =====
-- include/spinlock.h, with any number of threads. The exchange, the load of the inner loop and the
-- store are one step each.
pub mod Exclusion
mod Tests
use tiny_coro_build_your_own.Common.{ℕ, ◌≡◌, Bool, true, false, if◌then◌else◌, update}

-- The value of `lock_`.
pub record SpinLock : Type 0 where
  pub lock_ : Bool

-- `lock_.exchange(true)`: the lock afterwards, and the old value.
unfoldable pub exchange : SpinLock → SpinLock × Bool
exchange l = (record { lock_ = true }, l.lock_)

unfoldable pub unlock : SpinLock → SpinLock
unlock l = record { lock_ = false }

-- Where a thread stands: outside, before the exchange, in the inner loop, or with the lock.
pub data Pc : Type 0 where
  outside trying spinning holding : Pc

pub record System : Type 0 where
  pub lock : SpinLock
  pub pc : ℕ → Pc

pub data Step (s : System) : System → Type 0 where
  calls : (i : ℕ) → s.pc i ≡ outside → Step s (record s { pc = update s.pc i trying })
  exchanges :
      (i : ℕ)
      → s.pc i ≡ trying
      → Step s (record {
        lock = (exchange s.lock).0;
        pc = update s.pc i (if (exchange s.lock).1 then spinning else holding);
      })
  loads :
      (i : ℕ)
      → s.pc i ≡ spinning
      → Step s (record s { pc = update s.pc i (if s.lock.lock_ then spinning else trying) })
  unlocks :
      (i : ℕ)
      → s.pc i ≡ holding
      → Step s (record { lock = unlock s.lock; pc = update s.pc i outside })

pub data Reach : System → Type 0 where
  start : Reach (record { lock = record { lock_ = false }; pc = λ i. outside })
  next : {s s' : System} → Reach s → Step s s' → Reach s'
