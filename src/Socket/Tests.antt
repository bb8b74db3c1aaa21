-- ===== src/Socket/Tests.antt =====
-- The theorems on sockets at a socket that has to wait, and on descriptors 5 and 6.
use mathlib.Core.Path.{subst}
use tiny_coro_build_your_own.Common.{
  ℕ, update, ◌+◌, ◌<◌, ◌^◌, ◌∷◌, ◌≡◌, refl, ◌≢◌, true, false, Option, none, some, [], arith,
  if◌then◌else◌, ◌==◌,
}
use tiny_coro_build_your_own.Common.Int.{pos, negsuc}
use tiny_coro_build_your_own.Task.{Frames, Promise}
use tiny_coro_build_your_own.Ebr
use tiny_coro_build_your_own.Poller
use tiny_coro_build_your_own.Poller.{added}
use tiny_coro_build_your_own.Scheduler.{World, with_frames, run_task}
use tiny_coro_build_your_own.Socket.{read_suspend, write_suspend, Awaiter, AsyncSocket, TcpListener}
use tiny_coro_build_your_own.Socket.Registered.{Outlives, then_awaits, await-Outlives}
use tiny_coro_build_your_own.Scheduler.Ownership.State.{Sound}

abbrev promise : Promise
promise = record { ref_count = 1; is_running = false; continuation = 0; at_end = false }

abbrev one_frame : Frames
one_frame a = if 8 == a then some promise else none

abbrev world : World
world = record {
  shared = record { frames = one_frame; ebr = Ebr.init };
  scheduler = record { global_queue = []; workers = []; stop = false; next = 0 };
  reactor = record { running = true; timers = []; poller = record { epoll_fd = 3; wake_fd = 4 } };
  calls = [];
}

abbrev does_nothing : ℕ → World → Option World
does_nothing h w = some w

abbrev address : ℕ
address = 8

nonzero : address ≢ 0
nonzero e = omega arith

abbrev reader : Awaiter
reader = record { fd = pos 5; result = negsuc 0 }

-- The coroutine at 8 runs, and the worker has the only reference to it.
abbrev during : World
during = with_frames (update one_frame 8 (some (record promise { is_running = true }))) world

during-Sound : Sound (8 ∷ []) during
during-Sound = record { counted = record { counts = λ a nz. ground arith }; queues = tt }

room : (q : Promise) → during.shared.frames 8 ≡ some q → q.ref_count + 1 < 2 ^ 31
room q live =
    let same : record promise { is_running = true } ≡ q = cc in
    subst (λ (r : Promise). r.ref_count + 1 < 2 ^ 31) same (omega arith)

await-Outlives_example :
    Outlives [] 8 during
      (Poller.add_read during.reactor.poller (pos 5) 8 added)
      (run_task (then_awaits read_suspend does_nothing added reader) (record { handle = 8 }) world)
    × Outlives [] 8 during (Poller.add_write during.reactor.poller (pos 5) 8 added) (
        run_task
          (then_awaits write_suspend does_nothing added reader)
          (record { handle = 8 })
          world)
await-Outlives_example =
    await-Outlives does_nothing added reader 8 [] world during promise nonzero refl refl refl refl
      during-Sound room

abbrev socket_of : ℕ → AsyncSocket
socket_of n = record { fd = pos n }

abbrev old_listener : TcpListener
old_listener = record { fd = pos 5 }

-- Another client is there when the coroutine resumes.
