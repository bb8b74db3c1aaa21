-- ===== src/MiniRedis/Interleaved.antt =====
-- src/mini_redis.cpp: any number of connections whose SET, GET and DEL take the mutex of
-- include/async_mutex.h and then use the map with two accesses, a search for the key and what follows.
pub mod Alone
pub mod Serial
mod Tests
use tiny_coro_build_your_own.Common.{ℕ, ◌≡◌, Option, none, some, List, [], ◌∷◌, update}
use tiny_coro_build_your_own.Common.Text.{Bytes}
use tiny_coro_build_your_own.Scheduler.{Scheduler}
use tiny_coro_build_your_own.AsyncMutex.{new_mutex, unlock}
use tiny_coro_build_your_own.AsyncMutex.System
use tiny_coro_build_your_own.AsyncMutex.System.{outside, holding, handed}
use tiny_coro_build_your_own.MiniRedis.{
  Store, insert, ok_reply, nil_reply, value_reply, count_reply,
}

-- A request that takes the mutex, with its arguments.
pub data Request : Type 0 where
  sets : (key val : Bytes) → Request
  gets dels : (key : Bytes) → Request

-- `kv_store[key]` makes an empty entry where there is none.
abbrev pub make_entry : Bytes → Option Bytes → Store → Store
make_entry key none db = insert key (some []) db
make_entry key (some old) db = db

-- The search: `operator[]`, `find`, and the search in `erase`. The map, and the entry that was there.
unfoldable pub search : Request → Store → Store × Option Bytes
search (sets key val) db = (make_entry key (db key) db, db key)
search (gets key) db = (db, db key)
search (dels key) db = (db, db key)

-- What `find` gave is compared with `end`, and the entry is read only then.
abbrev pub read_entry : Bytes → Option Bytes → Store → Bytes
read_entry key none db = nil_reply
read_entry key (some old) db = value_reply (db key)

-- The second access: the assignment, the response to GET, the removal. The map and the response.
unfoldable pub complete : Request → Option Bytes → Store → Store × Bytes
complete (sets key val) found db = (insert key (some val) db, ok_reply)
complete (gets key) found db = (db, read_entry key found db)
complete (dels key) found db = (insert key none db, count_reply found)

-- Where a connection stands in the scope of its guard: before the search, after it, at the end.
pub data Phase : Type 0 where
  fresh finished : Phase
  found : Request → Option Bytes → Phase

-- `history` is no variable of the program: the requests with their responses, the last first.
pub record Clients : Type 0 where
  pub lock : System.System
  pub store : Store
  pub phase : ℕ → Phase
  pub history : List (Request × Bytes)

-- A step towards the lock.
abbrev pub Competes : {l l' : System.System} → System.Step l l' → Type 0
Competes (System.Step.unlocks i at) = ⊥
Competes _ = Unit

pub data Step (s : Clients) : Clients → Type 0 where
  competes :
      {l' : System.System} (st : System.Step s.lock l')
      → Competes st
      → Step s (record s { lock = l' })
  searches :
      (i : ℕ) (r : Request)
      → s.lock.pc i ≡ holding
      → s.phase i ≡ fresh
      → Step s (record s {
        store = (search r s.store).0;
        phase = update s.phase i (found r (search r s.store).1);
      })
  completes :
      (i : ℕ) (r : Request) (entry : Option Bytes)
      → s.phase i ≡ found r entry
      → Step s (record s {
        store = (complete r entry s.store).0;
        phase = update s.phase i finished;
        history = (r, (complete r entry s.store).1) ∷ s.history;
      })
  leaves :
      (i : ℕ)
      → s.lock.pc i ≡ holding
      → s.phase i ≡ finished
      → Step s (record s {
        lock = record {
          mutex = (unlock s.lock.mutex s.lock.scheduler).0;
          scheduler = (unlock s.lock.mutex s.lock.scheduler).1;
          pc = handed s.lock.mutex.waiters (update s.lock.pc i outside);
        };
        phase = update s.phase i fresh;
      })

abbrev pub no_requests : Scheduler → Store → Clients
no_requests sched db = record {
  lock = record { mutex = new_mutex; scheduler = sched; pc = λ _. outside };
  store = db;
  phase = λ i. fresh;
  history = [];
}

pub data Reach (sched : Scheduler) (db : Store) : Clients → Type 0 where
  start : Reach sched db (no_requests sched db)
  next : {s s' : Clients} → Reach sched db s → Step s s' → Reach sched db s'
