-- ===== src/Queue/Reclaimed/Safety.antt =====
-- The arrays of the work-stealing queue outlive the thieves that read them.
use tiny_coro_build_your_own.Common.{ℕ, ◌≡◌, refl, [], arith, count, inl}
use tiny_coro_build_your_own.Ebr.{EbrManager, delete_nodes}
use tiny_coro_build_your_own.Ebr.Timely.{start-Inv}
use tiny_coro_build_your_own.Ebr.Pointers.{links-Inv}
use tiny_coro_build_your_own.Queue.Concurrent
use tiny_coro_build_your_own.Queue.Concurrent.{Thief, out, has_value, saw_top, saw_work, has_array}
use tiny_coro_build_your_own.Queue.Reclaimed.{
  System, Step, moves, others, steal_starts, steal_finds, push_grows, push_loads_epoch,
  push_retires, push_collects, push_writes, TimelyStep, AllTimely, Reach, start, next, initial,
}
use tiny_coro_build_your_own.Queue.Reclaimed.Invariant.{
  Inv, moves-Inv, others-Inv, steal_starts-Inv, steal_finds-Inv,
}
use tiny_coro_build_your_own.Queue.Reclaimed.Growing.{
  push_grows-Inv, push_retires-Inv, push_collects-Inv,
}

Step-Inv :
    {me address : ℕ} {s s' : System} (st : Step me s s')
    → TimelyStep st
    → Inv address s
    → Inv address s'
Step-Inv (moves st plain) t v = moves-Inv st plain v
Step-Inv (others st apart) t v = others-Inv st apart t v
Step-Inv (steal_starts i act e) t v = steal_starts-Inv i v act e
Step-Inv (steal_finds i t e) _ v = steal_finds-Inv i t v e
Step-Inv (push_grows b t p fresh e full free) _ v = push_grows-Inv b t p fresh v e full free
Step-Inv (push_loads_epoch old e lt at) t v = record {
  memory = v.memory;
  queued = v.queued;
  array-linked = v.array-linked;
  pending-linked = v.pending-linked;
  inside = v.inside;
  holds = v.holds;
}
Step-Inv {me} (push_retires g old e at few) t v = push_retires-Inv me g old v e at few t
Step-Inv {me} (push_collects g old e at full) t v = push_collects-Inv me g old v e at full t
Step-Inv (push_writes b p e retired at) t v = record {
  memory = v.memory;
  queued = Concurrent.Reach.next v.queued (Concurrent.Step.push_writes b p e);
  array-linked = v.array-linked;
  pending-linked = v.pending-linked;
  inside = v.inside;
  holds = v.holds;
}

initial-Inv : (address : ℕ) → Inv address (initial address)
unfolding delete_nodes
initial-Inv address = record {
  memory = links-Inv start-Inv address (inl refl, λ j k. nothing j k);
  queued = Concurrent.Reach.start;
  array-linked = ground arith;
  pending-linked = λ old e. absurd (cc);
  inside = λ i n. absurd (n refl);
  holds = λ i t a e. absurd (cc);
}
  where
    nothing : (j k : ℕ) → count address (delete_nodes []) ≡ 0
    nothing j k = refl

Reach-Inv : {me address : ℕ} {s : System} (r : Reach me address s) → AllTimely r → Inv address s
Reach-Inv {address} start t = initial-Inv address
Reach-Inv (next r st) (earlier, now) = Step-Inv st now (Reach-Inv r earlier)

-- The array that a thief has loaded, from which it is about to read, has not been deleted.
abbrev pub Intact : Thief → EbrManager → Type 0
Intact (has_array t a) m = count a m.freed ≡ 0
Intact _ m = Unit

Inv-Intact :
    {address : ℕ} {s : System}
    → Inv address s
    → (i : ℕ) → Intact (s.queue.thief i) s.memory.world.ebr
Inv-Intact {s} v i = by_thief (s.queue.thief i) refl
  where
    by_thief : (th : Thief) → s.queue.thief i ≡ th → Intact th s.memory.world.ebr
    by_thief out e = tt
    by_thief (saw_top t) e = tt
    by_thief (saw_work t) e = tt
    by_thief (has_array t a) e = (v.memory.protected i a (v.holds i t a e)).undeleted
    by_thief (has_value t w) e = tt

-- A work-stealing queue, its thieves and the manager of epochs, which deletes the queue's arrays, run with
-- each access to an atomic variable as a step of its own, the loads of the epoch among them; the two stores of
-- `enter` are one step, and so is what `try_advance` does under its mutex. If whenever a thread uses the epoch
-- that it has loaded, to enter, to choose a bin or to advance, it is still the epoch, and the epoch is below
-- its limit, then in every state that they reach the queue's steps so far are a run of the queue whose arrays
-- are never deleted: the allocator, which may give out an address again once it was deleted, has given out
-- none that a thief still uses. Neither the present array nor one from which a thief is about to read has been
-- deleted, also if the owner has replaced and retired it.
pub reclaimed-Reach :
    {me address : ℕ} {s : System} (r : Reach me address s)
    → AllTimely r
    → Concurrent.Reach address s.queue
      × (count s.queue.array s.memory.world.ebr.freed ≡ 0)
      × ((i : ℕ) → Intact (s.queue.thief i) s.memory.world.ebr)
reclaimed-Reach {s} r timely =
    let v = Reach-Inv r timely in
    (v.queued, (v.memory.unretired s.queue.array v.array-linked).0, Inv-Intact v)
