-- ===== src/AsyncMutex.antt =====
-- include/async_mutex.h. `wait_mtx_` makes each function one indivisible step. A
-- `coroutine_handle<>` is its address.
pub mod System
pub mod Exclusion
pub mod Fairness
pub mod Dangling
mod Tests
use tiny_coro_build_your_own.Common.{ℕ, Bool, true, false, List, [], ◌∷◌, ◌++◌, if◌then◌else◌}
use tiny_coro_build_your_own.Task.{from_address}
use tiny_coro_build_your_own.Scheduler.{Scheduler, spawn}

pub record AsyncMutex : Type 0 where
  pub locked : Bool
  pub waiters : List ℕ

abbrev pub new_mutex : AsyncMutex
new_mutex = record { locked = false; waiters = [] }

-- `LockAwaiter::await_ready`
unfoldable pub await_ready : AsyncMutex → AsyncMutex × Bool
await_ready m = if m.locked then (m, false) else (record m { locked = true }, true)

-- `LockAwaiter::await_suspend`: `true` where the coroutine stays suspended.
unfoldable pub await_suspend : ℕ → AsyncMutex → AsyncMutex × Bool
await_suspend h m =
    if m.locked
    then (record m { waiters = m.waiters ++ h ∷ [] }, true)
    else (record m { locked = true }, false)

unfoldable pub unlock_with : List ℕ → AsyncMutex → Scheduler → AsyncMutex × Scheduler
unlock_with [] m s = (record m { locked = false }, s)
unlock_with (h ∷ rest) m s = (record m { waiters = rest }, spawn (from_address h) s)

unfoldable pub unlock : AsyncMutex → Scheduler → AsyncMutex × Scheduler
unfolding unlock_with
unlock m s = unlock_with m.waiters m s

pub record ScopedLock : Type 0 where
  pub owns_lock : Bool

-- `LockAwaiter::await_resume`
abbrev pub await_resume : ScopedLock
await_resume = record { owns_lock = true }

-- The new guard, and what is left of the old one.
unfoldable pub move : ScopedLock → ScopedLock × ScopedLock
move o = (record { owns_lock = o.owns_lock }, record { owns_lock = false })

-- `~ScopedLock`
unfoldable pub destruct : ScopedLock → AsyncMutex → Scheduler → AsyncMutex × Scheduler
destruct l m s = if l.owns_lock then unlock m s else (m, s)
