-- ===== src/AsyncMutex/System.antt =====
-- Any number of coroutines that lock and unlock one mutex, interleaved in any way.
use tiny_coro_build_your_own.Common.{ℕ, ◌≡◌, List, [], ◌∷◌, if◌then◌else◌, update}
use tiny_coro_build_your_own.Scheduler.{Scheduler}
use tiny_coro_build_your_own.AsyncMutex.{AsyncMutex, new_mutex, await_ready, await_suspend, unlock}

-- Where a coroutine stands: outside, between `await_ready` and `await_suspend`, suspended in the wait
-- queue, or with the lock. One whose handle `unlock` has spawned has the lock already.
pub data Pc : Type 0 where
  outside trying waiting holding : Pc

pub record System : Type 0 where
  pub mutex : AsyncMutex
  pub scheduler : Scheduler
  pub pc : ℕ → Pc

abbrev pub handed : List ℕ → (ℕ → Pc) → ℕ → Pc
handed [] pc = pc
handed (h ∷ rest) pc = update pc h holding

pub data Step (s : System) : System → Type 0 where
  readies :
      (i : ℕ)
      → s.pc i ≡ outside
      → Step s (record s {
        mutex = (await_ready s.mutex).0;
        pc = update s.pc i (if (await_ready s.mutex).1 then holding else trying);
      })
  suspends :
      (i : ℕ)
      → s.pc i ≡ trying
      → Step s (record s {
        mutex = (await_suspend i s.mutex).0;
        pc = update s.pc i (if (await_suspend i s.mutex).1 then waiting else holding);
      })
  unlocks :
      (i : ℕ)
      → s.pc i ≡ holding
      → Step s (record {
        mutex = (unlock s.mutex s.scheduler).0;
        scheduler = (unlock s.mutex s.scheduler).1;
        pc = handed s.mutex.waiters (update s.pc i outside);
      })

pub data Reach (sched : Scheduler) : System → Type 0 where
  start : Reach sched (record { mutex = new_mutex; scheduler = sched; pc = λ _. outside })
  next : {s s' : System} → Reach sched s → Step s s' → Reach sched s'
