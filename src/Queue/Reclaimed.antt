-- ===== src/Queue/Reclaimed.antt =====
-- include/queue.h with include/ebr.h: the work-stealing queue of Queue/Concurrent, whose arrays are
-- allocated, retired and deleted, with the loads of the epoch in `enter`, `retire` and `try_advance` as steps of their
-- own. Thread i of the manager is thief i of the queue, and the queue's `local_state` is that of thread `me`.
pub mod Keeping
pub mod Invariant
pub mod Growing
pub mod Safety
mod Tests
use tiny_coro_build_your_own.Common.{
  ℕ, ◌%◌, ◌^◌, ◌<◌, ◌≡◌, ◌≢◌, true, false, Option, none, some, update, ltb,
}
use tiny_coro_build_your_own.Ebr.{reset_count}
use tiny_coro_build_your_own.Ebr.Interleaved
use tiny_coro_build_your_own.Ebr.Interleaved.{Pc, retiring, push_at}
use tiny_coro_build_your_own.Ebr.Timely
use tiny_coro_build_your_own.Ebr.World
use tiny_coro_build_your_own.Ebr.World.{Available, reuse}
use tiny_coro_build_your_own.Queue.Array.{put, resize}
use tiny_coro_build_your_own.Queue.Concurrent
use tiny_coro_build_your_own.Queue.Concurrent.{
  out, saw_top, saw_work, has_array, sized, roomy, written, current, is_full, new_system,
}

-- `pending` is the array that `push` has replaced and not yet retired.
pub record System : Type 0 where
  pub queue : Concurrent.System
  pub memory : Interleaved.System
  pub pending : Option ℕ

-- The accesses of the queue that have nothing to do with where its arrays stand.
abbrev pub Plain : {q q' : Concurrent.System} → Concurrent.Step q q' → Type 0
Plain (Concurrent.Step.push_grows b t p fresh e full free) = ⊥
Plain (Concurrent.Step.push_writes b p e) = ⊥
Plain (Concurrent.Step.steal_starts i e) = ⊥
Plain (Concurrent.Step.steal_finds i t e) = ⊥
Plain _ = Unit

-- What other code does with the manager: a thread enters and leaves its critical section outside
-- `steal`, and nobody else retires the queue's arrays.
abbrev pub Elsewhere :
    (s : System) {m' : Interleaved.System} → Interleaved.Step s.memory m' → Type 0
Elsewhere s (Interleaved.Step.loads i lt e) = s.queue.thief i ≡ out
Elsewhere s (Interleaved.Step.activates i g lt e) = s.queue.thief i ≡ out
Elsewhere s (Interleaved.Step.exits i lt e) = s.queue.thief i ≡ out
Elsewhere s (Interleaved.Step.retires i p lt e l) = (p ≢ s.queue.array) × (s.pending ≢ some p)
Elsewhere s (Interleaved.Step.pushes i g p e l few) = (p ≢ s.queue.array) × (s.pending ≢ some p)
Elsewhere s (Interleaved.Step.triggers i g p e l full) = (p ≢ s.queue.array) × (s.pending ≢ some p)
Elsewhere _ _ = Unit

pub data Step (me : ℕ) (s : System) : System → Type 0 where
  moves :
      {q' : Concurrent.System} (st : Concurrent.Step s.queue q')
      → Plain st
      → Step me s (record s { queue = q' })
  others :
      {m' : Interleaved.System} (st : Interleaved.Step s.memory m')
      → Elsewhere s st
      → Step me s (record s { memory = m' })
  steal_starts :
      (i : ℕ)
      → (s.memory.world.ebr.threads i).active ≡ true
      → s.queue.thief i ≡ out
      → Step me s (record s {
        queue = record (s.queue) { thief = update s.queue.thief i (saw_top s.queue.top) };
      })
  steal_finds :
      (i t : ℕ)
      → s.queue.thief i ≡ saw_work t
      → Step me s (record s {
        queue = record (s.queue) { thief = update s.queue.thief i (has_array t s.queue.array) };
        memory = record (s.memory) {
          world = record (s.memory.world) {
            held = update s.memory.world.held i (update (s.memory.world.held i) s.queue.array true);
          };
        };
      })
  push_grows :
      (b t p fresh : ℕ)
      → s.queue.owner ≡ sized b t p
      → is_full s.queue b t ≡ true
      → Available s.memory.world fresh
      → Step me s (record {
        queue = record (s.queue) {
          arrays = update s.queue.arrays fresh (resize fresh b t (current s.queue));
          array = fresh;
          owner = roomy b p;
        };
        memory = record (s.memory) {
          world = record (s.memory.world) {
            ebr = reuse fresh s.memory.world.ebr;
            linked = update s.memory.world.linked fresh true;
            allocated = update s.memory.world.allocated fresh true;
          };
        };
        pending = some s.queue.array;
      })
  push_loads_epoch :
      (old : ℕ)
      → s.pending ≡ some old
      → me < s.memory.world.ebr.thread_count
      → s.memory.pc me ≡ Pc.out
      → Step me s (record s {
        memory = record (s.memory) {
          pc = update s.memory.pc me (retiring s.memory.world.ebr.global_epoch old);
        };
      })
  push_retires :
      (g old : ℕ)
      → s.pending ≡ some old
      → s.memory.pc me ≡ retiring g old
      → ltb 64 ((push_at me g old s.memory.world.ebr).threads me).op_count ≡ false
      → Step me s (record s {
        memory = record {
          world = record (s.memory.world) {
            ebr = push_at me g old s.memory.world.ebr;
            linked = update s.memory.world.linked old false;
          };
          pc = update s.memory.pc me Pc.out;
        };
        pending = none;
      })
  push_collects :
      (g old : ℕ)
      → s.pending ≡ some old
      → s.memory.pc me ≡ retiring g old
      → ltb 64 ((push_at me g old s.memory.world.ebr).threads me).op_count ≡ true
      → Step me s (record s {
        memory = record {
          world = record (s.memory.world) {
            ebr = reset_count me (push_at me g old s.memory.world.ebr);
            linked = update s.memory.world.linked old false;
          };
          pc = update s.memory.pc me Pc.triggered;
        };
        pending = none;
      })
  push_writes :
      (b p : ℕ)
      → s.queue.owner ≡ roomy b p
      → s.pending ≡ none
      → s.memory.pc me ≡ Pc.out
      → Step me s (record s {
        queue = record (s.queue) {
          arrays = update s.queue.arrays s.queue.array (put (b % 2 ^ 64) p (current s.queue));
          owner = written b p;
        };
      })

-- A new queue, whose array the allocator gives out at `address`.
abbrev pub initial : ℕ → System
initial address = record {
  queue = new_system address;
  memory = record Interleaved.initial {
    world = record (Interleaved.initial.world) {
      ebr = reuse address Interleaved.initial.world.ebr;
      linked = update (λ _. false) address true;
      allocated = update (λ _. false) address true;
    };
  };
  pending = none;
}

pub data Reach (me address : ℕ) : System → Type 0 where
  start : Reach me address (initial address)
  next : {s s' : System} → Reach me address s → Step me s s' → Reach me address s'

-- What a thread has loaded of the epoch is still the epoch when it is used.
abbrev pub TimelyStep : {me : ℕ} {s s' : System} → Step me s s' → Type 0
TimelyStep (others st apart) = Timely.Timely st
TimelyStep {me} {s} (push_retires g old e at few) = g ≡ s.memory.world.ebr.global_epoch
TimelyStep {me} {s} (push_collects g old e at full) = g ≡ s.memory.world.ebr.global_epoch
TimelyStep _ = Unit

abbrev pub AllTimely : {me address : ℕ} {s : System} → Reach me address s → Type 0
AllTimely start = Unit
AllTimely (next r st) = AllTimely r × TimelyStep st
