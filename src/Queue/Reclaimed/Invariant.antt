-- ===== src/Queue/Reclaimed/Invariant.antt =====
-- What holds between any two steps of the work-stealing queue and its memory.
use tiny_coro_build_your_own.Common.{
  ℕ, ◌≡◌, refl, ap, ◌∙◌, ◌≢◌, true, some, arith, update, inl, inr,
}
use tiny_coro_build_your_own.Ebr.World
use tiny_coro_build_your_own.Ebr.Pointers.{reads-Inv}
use tiny_coro_build_your_own.Ebr.Interleaved
use tiny_coro_build_your_own.Ebr.Timely
use tiny_coro_build_your_own.Queue.Concurrent
use tiny_coro_build_your_own.Queue.Concurrent.{out, out, saw_top, saw_work, has_array}
use tiny_coro_build_your_own.Queue.Reclaimed.{System, Plain, Elsewhere}
use tiny_coro_build_your_own.Queue.Reclaimed.Keeping.{Spares, Keeps, Plain-Keeps, Elsewhere-Spares}

pub record Inv (address : ℕ) (s : System) : Type 0 where
  pub memory : World.Inv s.memory.world
  pub queued : Concurrent.Reach address s.queue
  pub array-linked : s.memory.world.linked s.queue.array ≡ true
  pub pending-linked :
      (old : ℕ) → s.pending ≡ some old → (s.memory.world.linked old ≡ true) × (old ≢ s.queue.array)
  pub inside : (i : ℕ) → s.queue.thief i ≢ out → (s.memory.world.ebr.threads i).active ≡ true
  pub holds : (i t a : ℕ) → s.queue.thief i ≡ has_array t a → s.memory.world.held i a ≡ true

pub moves-Inv :
    {address : ℕ} {s : System} {q' : Concurrent.System} (st : Concurrent.Step s.queue q')
    → Plain st
    → Inv address s
    → Inv address (record s { queue = q' })
moves-Inv {s} {q'} st plain v =
    let k : Keeps s.queue q' = Plain-Keeps st plain in
    record {
      memory = v.memory;
      queued = Concurrent.Reach.next v.queued st;
      array-linked = ap s.memory.world.linked k.same_array ∙ v.array-linked;
      pending-linked = λ old e.
          ((v.pending-linked old e).0, λ same. (v.pending-linked old e).1 (same ∙ k.same_array));
      inside = λ i n. v.inside i (k.outside i n);
      holds = λ i t a e. v.holds i t a (k.holding i t a e);
    }

pub others-Inv :
    {address : ℕ} {s : System} {m' : Interleaved.System} (st : Interleaved.Step s.memory m')
    → Elsewhere s st
    → Timely.Timely st
    → Inv address s
    → Inv address (record s { memory = m' })
others-Inv {s} {m'} st apart timely v =
    let k : Spares s m' = Elsewhere-Spares st v.memory apart in
    record {
      memory = Timely.Step-Inv st timely v.memory;
      queued = v.queued;
      array-linked = k.still_linked s.queue.array v.array-linked (inl refl);
      pending-linked =
          λ old e. let (l, ne) = v.pending-linked old e in (k.still_linked old l (inr e), ne);
      inside = λ i n. k.still_active i n (v.inside i n);
      holds = λ i t a e. k.still_held i a (λ o. cc (e, o)) (v.holds i t a e);
    }

pub steal_starts-Inv :
    {address : ℕ} {s : System} (i : ℕ)
    → Inv address s
    → (s.memory.world.ebr.threads i).active ≡ true
    → s.queue.thief i ≡ out
    → Inv address (record s {
      queue = record (s.queue) { thief = update s.queue.thief i (saw_top s.queue.top) };
    })
steal_starts-Inv i v act e = record {
  memory = v.memory;
  queued = Concurrent.Reach.next v.queued (Concurrent.Step.steal_starts i e);
  array-linked = v.array-linked;
  pending-linked = v.pending-linked;
  inside = λ j n. ground (arith, v.inside j, act);
  holds = λ j t a f. ground (arith, v.holds j t a);
}

pub steal_finds-Inv :
    {address : ℕ} {s : System} (i t : ℕ)
    → Inv address s
    → s.queue.thief i ≡ saw_work t
    → Inv address (record s {
      queue = record (s.queue) { thief = update s.queue.thief i (has_array t s.queue.array) };
      memory = record (s.memory) {
        world = record (s.memory.world) {
          held = update s.memory.world.held i (update (s.memory.world.held i) s.queue.array true);
        };
      };
    })
steal_finds-Inv {s} i t v e =
    let act = v.inside i (λ o. cc (e, o)) in
    record {
      memory = reads-Inv v.memory i s.queue.array act v.array-linked;
      queued = Concurrent.Reach.next v.queued (Concurrent.Step.steal_finds i t e);
      array-linked = v.array-linked;
      pending-linked = v.pending-linked;
      inside = λ j n. ground (arith, v.inside j, act);
      holds = λ j u a f. ground (arith, v.holds j u a);
    }
