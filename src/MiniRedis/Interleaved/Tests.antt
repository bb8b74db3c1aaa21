-- ===== src/MiniRedis/Interleaved/Tests.antt =====
-- The theorem on interleaved requests at a GET that waits for a SET and then stands between its accesses.
use tiny_coro_build_your_own.Common.{◌≡◌, refl, ◌⊎◌, true, false, none, some, [], ◌∷◌, update}
use tiny_coro_build_your_own.Scheduler.{Scheduler, spawn}
use tiny_coro_build_your_own.Task.{from_address}
use tiny_coro_build_your_own.AsyncMutex.{await_ready, await_suspend, unlock, unlock_with}
use tiny_coro_build_your_own.AsyncMutex.System
use tiny_coro_build_your_own.AsyncMutex.System.{outside, trying, waiting, holding}
use tiny_coro_build_your_own.MiniRedis.{Store, ok_reply}
use tiny_coro_build_your_own.MiniRedis.Interleaved.{
  Request, sets, gets, search, complete, found, fresh, finished, Clients, competes, searches,
  completes, leaves, Reach, start, next,
}
use tiny_coro_build_your_own.MiniRedis.Interleaved.Alone.{Answered, replay}
use tiny_coro_build_your_own.MiniRedis.Interleaved.Serial.{Between, serializable}

abbrev idle : Scheduler
idle = record { global_queue = []; workers = []; stop = false; next = 0 }

abbrev no_keys : Store
no_keys key = none

abbrev set_request : Request
set_request = sets (97 ∷ []) (98 ∷ [])

abbrev get_request : Request
get_request = gets (97 ∷ [])

-- Connection 8 has made an empty entry, and 16 waits.
abbrev setting : Clients
setting = record {
  lock = record {
    mutex = record { locked = true; waiters = 16 ∷ [] };
    scheduler = idle;
    pc = update (update (update (λ i. outside) 8 holding) 16 trying) 16 waiting;
  };
  store = (search set_request no_keys).0;
  phase = update (λ i. fresh) 8 (found set_request none);
  history = [];
}

setting-Reach : Reach idle no_keys setting
unfolding await_ready await_suspend search
setting-Reach =
    next
      (next
        (next (next start (competes (System.Step.readies 8 refl) tt))
          (competes (System.Step.readies 16 refl) tt))
        (competes (System.Step.suspends 16 refl) tt))
      (searches 8 set_request refl refl)

-- Connection 8 is done, and 16 has searched.
abbrev getting : Clients
getting = record {
  lock = record {
    mutex = record { locked = true; waiters = [] };
    scheduler = spawn (from_address 16) idle;
    pc = update (update setting.lock.pc 8 outside) 16 holding;
  };
  store = (complete set_request none setting.store).0;
  phase =
      update (update (update setting.phase 8 finished) 8 fresh) 16
        (found get_request (some (98 ∷ [])));
  history = (set_request, ok_reply) ∷ [];
}

getting-Reach : Reach idle no_keys getting
unfolding search complete unlock unlock_with
getting-Reach =
    next (next (next setting-Reach (completes 8 set_request none refl)) (leaves 8 refl refl))
      (searches 16 get_request refl refl)

serializable_example :
    Answered getting.history no_keys
    × (Between (replay getting.history no_keys) getting
        ⊎ (getting.store ≡ replay getting.history no_keys))
serializable_example = serializable getting-Reach
