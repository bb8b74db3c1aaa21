-- ===== src/Ebr/Filled.antt =====
-- include/ebr.h: four threads fill their bins, from the program's start up to the calls of `retire` that collect.
use tiny_coro_build_your_own.Common.{
  ℕ, zero, suc, ◌+◌, ◌<◌, ◌≤◌, ◌≡◌, refl, inl, Bool, true, arith, update, ltb, leb, not, ◌&&◌,
}
use tiny_coro_build_your_own.Ebr.{init, register_thread, delete_nodes}
use tiny_coro_build_your_own.Ebr.World.{InNoBin}
use tiny_coro_build_your_own.Ebr.Interleaved.{
  Pc, out, System, registers, links, Run, start, next, Run-append, initial,
}
use tiny_coro_build_your_own.Ebr.Busy.{Facts, Goes, one_push}

-- The `k` pointers from `p` on.
abbrev pub among : (p k q : ℕ) → Bool
among p k q = leb p q && ltb q (p + k)

abbrev pub others : (ℕ → Bool) → (p k q : ℕ) → Bool
others l p k q = l q && not (among p k q)

abbrev pub no_counts : ℕ → ℕ
no_counts i = 0

abbrev pub all_out : ℕ → Pc
all_out i = out

abbrev registered : System
registered = record initial {
  world = record (initial.world) {
    ebr = (register_thread (register_thread (register_thread (register_thread init).0).0).0).0;
  };
}

pub linked_run :
    (p k : ℕ)
    → (s : System) × Run initial s
      × Facts s 0 all_out no_counts (among p k)
      × ((q : ℕ) → s.world.allocated q ≡ among p k q)
      × ((q : ℕ) → InNoBin s.world.ebr q)
unfolding register_thread delete_nodes
linked_run p zero = (
  registered,
  next (next (next (next start registers) registers) registers) registers,
  record {
    stands = λ i. refl;
    at_epoch = refl;
    four = refl;
    inactive = λ i. ground arith;
    counts = λ i. ground arith;
    there = λ q. ground arith;
  },
  λ q. ground arith,
  λ q j k. ground arith,
)
linked_run p (suc k) =
    let (s, r, f, given, empty) = linked_run p k in
    (
      _,
      next r (links (p + k) (inl (ground (arith, given (p + k))), empty (p + k))),
      record {
        stands = f.stands;
        at_epoch = f.at_epoch;
        four = f.four;
        inactive = f.inactive;
        counts = f.counts;
        there = λ q. ground (arith, f.there q);
      },
      λ q. ground (arith, given q),
      empty,
    )

pub pushed_run :
    {s : System} {e : ℕ} {pcs : ℕ → Pc} {n : ℕ → ℕ} {l : ℕ → Bool}
    → Facts s e pcs n l
    → (i : ℕ) → i < 4
    → pcs i ≡ out
    → n i ≡ 0
    → (p k : ℕ) → k ≤ 64
    → ((q : ℕ) → q < 64 → l (p + q) ≡ true)
    → Goes s e pcs (update n i k) (others l p k)
pushed_run {s} f i lt o none p zero few have = (
  s,
  start,
  record {
    stands = f.stands;
    at_epoch = f.at_epoch;
    four = f.four;
    inactive = f.inactive;
    counts = λ j. ground (arith, f.counts j, none);
    there = λ q. ground (arith, f.there q);
  },
)
pushed_run f i lt o none p (suc k) few have =
    let (s, r, g) = pushed_run f i lt o none p k (omega (arith, few)) have in
    let (s', r', g') = one_push g i lt (p + k) o (ground arith) (ground (arith, have k)) in
    (
      s',
      Run-append r r',
      record {
        stands = g'.stands;
        at_epoch = g'.at_epoch;
        four = g'.four;
        inactive = g'.inactive;
        counts = λ j. ground (arith, g'.counts j);
        there = λ q. ground (arith, g'.there q);
      },
    )
