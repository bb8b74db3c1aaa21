-- ===== src/Queue/Reclaimed/Tests.antt =====
-- The theorem on the arrays at a queue whose thief has found the array of a pushed pointer.
use tiny_coro_build_your_own.Common.{ℕ, ◌≡◌, refl, true, false, none, [], ◌∷◌, arith, count, update}
use tiny_coro_build_your_own.Common.Int.{pos, ◌+ℤ◌, ◌-ℤ◌}
use tiny_coro_build_your_own.Ebr.{EbrManager, register_thread, enter, init}
use tiny_coro_build_your_own.Ebr.World.{World}
use tiny_coro_build_your_own.Ebr.Interleaved
use tiny_coro_build_your_own.Queue.Array.{put, new_array}
use tiny_coro_build_your_own.Queue.Concurrent
use tiny_coro_build_your_own.Queue.Concurrent.{new_system, saw_top, saw_work, has_array}
use tiny_coro_build_your_own.Queue.Reclaimed.{
  System, moves, others, steal_starts, steal_finds, push_writes, Reach, start, next, initial,
  AllTimely,
}
use tiny_coro_build_your_own.Queue.Reclaimed.Safety.{Intact, reclaimed-Reach}

-- Two workers, the second of which looks for work.
abbrev manager : EbrManager
manager = enter 1 (register_thread (register_thread init).0).0

abbrev world : World
world = record (initial 4096).memory.world {
  ebr = manager;
  held = update (λ _ _. false) 1 (λ _. false);
}

abbrev entered : System
entered = record (initial 4096) {
  memory = record {
    world = world;
    pc = update (update (λ _. Interleaved.out) 1 (Interleaved.entering 0)) 1 Interleaved.out;
  };
}

abbrev pushed : Concurrent.System
pushed = record (new_system 4096) {
  arrays = update (new_system 4096).arrays 4096 (put 0 8 (new_array 4096 1024));
  bottom = pos 0 +ℤ pos 1;
  pushed = 8 ∷ [];
  back = 1;
}

abbrev stealing : System
stealing = record {
  queue = record pushed {
    thief = update (update (update pushed.thief 1 (saw_top 0)) 1 (saw_work 0)) 1 (has_array 0 4096);
  };
  memory = record entered.memory {
    world = record world { held = update world.held 1 (update (world.held 1) 4096 true) };
  };
  pending = none;
}

entered-Reach : Reach 0 4096 entered
unfolding register_thread enter
entered-Reach =
    next
      (next
        (next (next start (others Interleaved.Step.registers tt))
          (others Interleaved.Step.registers tt))
        (others (Interleaved.Step.loads 1 (omega arith) refl) refl))
      (others (Interleaved.Step.activates 1 0 (omega arith) refl) refl)

pushed-Reach : Reach 0 4096 (record entered { queue = pushed })
unfolding ◌-ℤ◌ new_array
pushed-Reach =
    next
      (next
        (next
          (next
            (next entered-Reach
              (moves (Concurrent.Step.push_starts 0 8 refl refl (omega arith)) tt))
            (moves (Concurrent.Step.push_loads 0 8 refl) tt))
          (moves (Concurrent.Step.push_fits 0 0 8 refl refl) tt))
        (push_writes 0 8 refl refl refl))
      (moves (Concurrent.Step.push_ends 0 8 refl) tt)

stealing-Reach : Reach 0 4096 stealing
unfolding ◌+ℤ◌ register_thread enter
stealing-Reach =
    next
      (next (next pushed-Reach (steal_starts 1 refl refl))
        (moves (Concurrent.Step.steal_loads 1 0 refl) tt))
      (steal_finds 1 0 refl)

timely : AllTimely stealing-Reach
unfolding stealing-Reach pushed-Reach entered-Reach ◌+ℤ◌ ◌-ℤ◌ new_array register_thread enter
timely = ((((((((((((tt, tt), tt), tt), refl), tt), tt), tt), tt), tt), tt), tt), tt)

reclaimed-Reach_example :
    Concurrent.Reach 4096 stealing.queue
    × (count 4096 stealing.memory.world.ebr.freed ≡ 0)
    × ((i : ℕ) → Intact (stealing.queue.thief i) stealing.memory.world.ebr)
reclaimed-Reach_example = reclaimed-Reach stealing-Reach timely
