-- ===== src/Ebr/Tests.antt =====
-- The theorems on reclamation at two threads, one of which reads a pointer that the other retires.
use tiny_coro_build_your_own.Common.{◌≡◌, refl, inl, ◌<◌, arith, count}
use tiny_coro_build_your_own.Ebr.{
  EbrManager, init, register_thread, lagging, delete_nodes, try_advance, advance, push_retired,
  clear_bins,
}
use tiny_coro_build_your_own.Ebr.World.{InNoBin}
use tiny_coro_build_your_own.Ebr.Interleaved.{
  System, registers, loads, activates, links, reads, retires, pushes, Run, start, next, initial,
}
use tiny_coro_build_your_own.Ebr.Timely.{AllTimely, held-undeleted}
use tiny_coro_build_your_own.Ebr.Reclaim.{retired_deleted}

abbrev one_thread : EbrManager
one_thread = (register_thread init).0

abbrev two_threads : EbrManager
two_threads = (register_thread one_thread).0

in_no_bin : InNoBin two_threads 7
unfolding register_thread delete_nodes
in_no_bin j k = ground arith

-- Thread 0 enters and reads the pointer 7, and thread 1 retires it.
abbrev history : (s : System) × Run initial s
unfolding register_thread push_retired delete_nodes
history = (
  _,
  next
      (next
        (next
          (next
            (next (next (next (next start registers) registers) (loads 0 (omega arith) refl))
              (activates 0 0 (omega arith) refl))
            (links 7 (inl refl, λ j k. ground arith)))
          (reads 0 7 refl refl refl))
        (retires 1 7 (omega arith) refl refl))
      (pushes 1 0 7 refl refl refl),
)

timely : AllTimely history.1
unfolding register_thread push_retired delete_nodes
timely = ((((((((tt, tt), tt), tt), refl), tt), tt), tt), refl)

-- Thread 0 may use the pointer 7 after thread 1 has retired it.
held-undeleted_example : count 7 history.0.world.ebr.freed ≡ 0
unfolding register_thread push_retired delete_nodes
held-undeleted_example = held-undeleted history.1 timely 0 7 refl

abbrev one_retired : EbrManager
one_retired = push_retired 0 7 one_thread

retired_deleted_example : 0 < count 7 (try_advance (try_advance one_retired)).freed
unfolding register_thread push_retired delete_nodes lagging try_advance advance clear_bins
retired_deleted_example =
    retired_deleted one_retired 7 0 (omega arith) (omega arith) (omega arith) refl refl
