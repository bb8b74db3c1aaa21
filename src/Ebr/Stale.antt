-- ===== src/Ebr/Stale.antt =====
-- include/ebr.h: a run in which loads of the epoch go out of date, from the program's start to a use after free.
use tiny_coro_build_your_own.Common.{ℕ, ◌+◌, ◌<◌, ◌≡◌, Bool, true, false, update, count}
use tiny_coro_build_your_own.Ebr.Interleaved.{out, entering, collecting, System}
use tiny_coro_build_your_own.Ebr.Filled.{among, others, no_counts}

-- A thread in its critical section holds a pointer that is deleted.
abbrev pub Dangles : System → ℕ → ℕ → Type 0
Dangles s i p =
    ((s.world.ebr.threads i).active ≡ true)
    × (s.world.held i p ≡ true)
    × (0 < count p s.world.ebr.freed)

-- Thread 1 is in `enter` and thread 0 in `try_advance`, both with the epoch 0 loaded; the epoch is 2.
record Stalled (p : ℕ) (s : System) : Type 0 where
  at_enter : s.pc 1 ≡ entering 0
  at_advance : s.pc 0 ≡ collecting 0
  idle : s.pc 2 ≡ out
  at_epoch : s.world.ebr.global_epoch ≡ 2
  four : s.world.ebr.thread_count ≡ 4
  inactive : (i : ℕ) → (s.world.ebr.threads i).active ≡ false
  fresh : (s.world.ebr.threads 2).op_count ≡ 0
  there : s.world.linked p ≡ true

abbrev filled : ℕ → ℕ
filled = update (update (update no_counts 0 64) 2 64) 3 64

-- The linked pointers that they have not retired.
abbrev remaining : ℕ → ℕ → Bool
remaining p = others (others (others (among p 196) (p + 4) 64) (p + 68) 64) (p + 132) 64
