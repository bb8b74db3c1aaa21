-- ===== src/Queue/Concurrent/Tests.antt =====
-- The theorems on the concurrent work-stealing queue at a run in which a thief and the owner race for
-- the only task.
use tiny_coro_build_your_own.Common.{◌+◌, ◌≡◌, refl, [], ◌∷◌, arith, count, update}
use tiny_coro_build_your_own.Common.Int.{pos, ◌+ℤ◌, ◌-ℤ◌}
use tiny_coro_build_your_own.Queue.Array.{new_array, put, get}
use tiny_coro_build_your_own.Queue.Concurrent.{
  System, push_starts, push_loads, push_fits, push_writes, push_ends, pop_starts, steal_starts,
  steal_loads, steal_finds, steal_reads, Reach, start, next, new_system, current, has_value,
  has_array, saw_work, saw_top, out, popping,
}
use tiny_coro_build_your_own.Queue.Concurrent.Invariant.{view, entries, in_hand}
use tiny_coro_build_your_own.Queue.Steal
use tiny_coro_build_your_own.Queue.Concurrent.Alone.{
  Steps, IsSteal, Agrees, Pops, queue_of, steal-Agrees, pop-Agrees,
}
use tiny_coro_build_your_own.Queue.Concurrent.Conservation.{conserved}

-- A push has ended.
abbrev pushed_8 : System
pushed_8 = record (new_system 4096) {
  arrays = update (new_system 4096).arrays 4096 (put 0 8 (new_array 4096 1024));
  bottom = pos 0 +ℤ pos 1;
  pushed = 8 ∷ [];
  back = 1;
}

pushed_8-Reach : Reach 4096 pushed_8
unfolding ◌-ℤ◌ new_array
pushed_8-Reach =
    next
      (next
        (next (next (next start (push_starts 0 8 refl refl (omega arith))) (push_loads 0 8 refl))
          (push_fits 0 0 8 refl refl))
        (push_writes 0 8 refl))
      (push_ends 0 8 refl)

-- The thief has read the pointer, and the owner has stored `bottom`.
abbrev racing : System
racing = record pushed_8 {
  bottom = pos 1 -ℤ pos 1;
  owner = popping 1;
  thief =
      update (update (update (update (λ i. out) 0 (saw_top 0)) 0 (saw_work 0)) 0 (has_array 0 4096))
        0 (has_value 0 (get 0 (current pushed_8)));
}

racing-Reach : Reach 4096 racing
unfolding ◌+ℤ◌
racing-Reach =
    next
      (next
        (next (next (next pushed_8-Reach (steal_starts 0 refl)) (steal_loads 0 0 refl))
          (steal_finds 0 0 refl))
        (steal_reads 0 0 4096 refl))
      (pop_starts 1 refl refl)

conserved_example :
    count 8 racing.pushed
    ≡ count 8 racing.taken
      + count 8 (entries (view racing))
      + count 8 (in_hand racing.owner (current racing))
conserved_example = conserved racing-Reach 8

steal-Agrees_example :
    (s' : System) × Steps (IsSteal 0) pushed_8 s'
    × (s'.thief 0 ≡ out)
    × Agrees pushed_8 s' (Steal.steal (queue_of pushed_8))
steal-Agrees_example = steal-Agrees pushed_8-Reach refl 0 refl

pop-Agrees_example : Pops pushed_8
pop-Agrees_example = pop-Agrees pushed_8-Reach refl
