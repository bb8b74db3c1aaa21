-- ===== src/Queue/Reclaimed/Growing.antt =====
-- A new array in the place of the old one, which is retired.
use mathlib.Core.Path.{subst}
use tiny_coro_build_your_own.Common.{
  ℕ, ◌≡◌, ◌∙◌, ◌≢◌, true, false, none, some, arith, update, ltb, inl, inr,
}
use tiny_coro_build_your_own.Ebr.{reset_count}
use tiny_coro_build_your_own.Ebr.World
use tiny_coro_build_your_own.Ebr.World.{Available, reuse}
use tiny_coro_build_your_own.Ebr.Pointers.{held-unavailable, links-Inv}
use tiny_coro_build_your_own.Ebr.Interleaved
use tiny_coro_build_your_own.Ebr.Interleaved.{Pc, retiring, push_at}
use tiny_coro_build_your_own.Ebr.Timely
use tiny_coro_build_your_own.Queue.Concurrent
use tiny_coro_build_your_own.Queue.Concurrent.{out, out, sized, roomy, is_full, current, Unheld}
use tiny_coro_build_your_own.Queue.Array.{resize}
use tiny_coro_build_your_own.Queue.Reclaimed.{System}
use tiny_coro_build_your_own.Queue.Reclaimed.Keeping.{push_at-active, reset_count-active}
use tiny_coro_build_your_own.Queue.Reclaimed.Invariant.{Inv}

-- An address that the allocator gives out is that of no array which a thief has.
unheld :
    {address : ℕ} {s : System} {fresh : ℕ}
    → Inv address s
    → Available s.memory.world fresh
    → Unheld fresh s.queue
unheld {s} {fresh} v free i t a e same =
    held-unavailable v.memory i fresh
      (subst (λ p. s.memory.world.held i p ≡ true) same (v.holds i t a e)) free

unlinked : {w : World.World} {p : ℕ} → World.Inv w → Available w p → w.linked p ≢ true
unlinked {p} v (inl new, _) l = cc (v.linked-allocated p l)
unlinked {p} v (inr gone, _) l = omega (arith, (v.unretired p l).0)

pub push_grows-Inv :
    {address : ℕ} {s : System} (b t p fresh : ℕ)
    → Inv address s
    → s.queue.owner ≡ sized b t p
    → is_full s.queue b t ≡ true
    → Available s.memory.world fresh
    → Inv address (record {
      queue = record (s.queue) {
        arrays = update s.queue.arrays fresh (resize fresh b t (current s.queue));
        array = fresh;
        owner = roomy b p;
      };
      memory = record (s.memory) {
        world = record (s.memory.world) {
          ebr = reuse fresh s.memory.world.ebr;
          linked = update s.memory.world.linked fresh true;
          allocated = update s.memory.world.allocated fresh true;
        };
      };
      pending = some s.queue.array;
    })
push_grows-Inv {s} b t p fresh v e full free =
    let apart = unlinked v.memory free in
    record {
      memory = links-Inv v.memory fresh free;
      queued =
          Concurrent.Reach.next v.queued
            (Concurrent.Step.push_grows b t p fresh e full (unheld v free));
      array-linked = ground arith;
      pending-linked = λ old f. (
        ground (arith, v.array-linked),
        λ same.
            apart (subst (λ q. s.memory.world.linked q ≡ true) (some-inj f ∙ same) v.array-linked),
      );
      inside = v.inside;
      holds = v.holds;
    }
  where
    some-inj : {x y : ℕ} → some x ≡ some y → x ≡ y
    some-inj f = cc

-- The push of the old array into a bin.
pub push_retires-Inv :
    {address : ℕ} {s : System} (me g old : ℕ)
    → Inv address s
    → s.pending ≡ some old
    → s.memory.pc me ≡ retiring g old
    → ltb 64 ((push_at me g old s.memory.world.ebr).threads me).op_count ≡ false
    → g ≡ s.memory.world.ebr.global_epoch
    → Inv address (record s {
      memory = record {
        world = record (s.memory.world) {
          ebr = push_at me g old s.memory.world.ebr;
          linked = update s.memory.world.linked old false;
        };
        pc = update s.memory.pc me Pc.out;
      };
      pending = none;
    })
push_retires-Inv {s} me g old v e at few timely =
    let (l, ne) = v.pending-linked old e in
    record {
      memory =
          Timely.Step-Inv {s = s.memory} (Interleaved.Step.pushes me g old at l few) timely
            v.memory;
      queued = v.queued;
      array-linked = ground (arith, v.array-linked, ne);
      pending-linked = λ p f. absurd (cc);
      inside = λ i n. push_at-active me g old s.memory.world.ebr i ∙ v.inside i n;
      holds = v.holds;
    }

pub push_collects-Inv :
    {address : ℕ} {s : System} (me g old : ℕ)
    → Inv address s
    → s.pending ≡ some old
    → s.memory.pc me ≡ retiring g old
    → ltb 64 ((push_at me g old s.memory.world.ebr).threads me).op_count ≡ true
    → g ≡ s.memory.world.ebr.global_epoch
    → Inv address (record s {
      memory = record {
        world = record (s.memory.world) {
          ebr = reset_count me (push_at me g old s.memory.world.ebr);
          linked = update s.memory.world.linked old false;
        };
        pc = update s.memory.pc me Pc.triggered;
      };
      pending = none;
    })
push_collects-Inv {s} me g old v e at full timely =
    let (l, ne) = v.pending-linked old e in
    record {
      memory =
          Timely.Step-Inv {s = s.memory} (Interleaved.Step.triggers me g old at l full) timely
            v.memory;
      queued = v.queued;
      array-linked = ground (arith, v.array-linked, ne);
      pending-linked = λ p f. absurd (cc);
      inside = λ i n.
          reset_count-active me (push_at me g old s.memory.world.ebr) i
          ∙ push_at-active me g old s.memory.world.ebr i
          ∙ v.inside i n;
      holds = v.holds;
    }
