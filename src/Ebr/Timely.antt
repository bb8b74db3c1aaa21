-- ===== src/Ebr/Timely.antt =====
-- include/ebr.h: as long as no load of the epoch goes out of date, a pointer in use is not deleted.
use mathlib.Core.Path.{subst}
use tiny_coro_build_your_own.Common.{ℕ, ◌+◌, ◌<◌, ◌≡◌, sym, true, false, count, update}
use tiny_coro_build_your_own.Ebr.{init, size_mod, enter, push_retired, lagging, delete_nodes}
use tiny_coro_build_your_own.Ebr.World.{World, Inv}
use tiny_coro_build_your_own.Ebr.Advance.{advance-Inv}
use tiny_coro_build_your_own.Ebr.Pointers.{links-Inv, reads-Inv}
use tiny_coro_build_your_own.Ebr.Operations.{
  registers-Inv, enters-Inv, exits-Inv, push-Inv, reset-Inv,
}
use tiny_coro_build_your_own.Ebr.Interleaved.{
  System, Step, registers, links, loads, activates, exits, reads, retires, pushes, triggers, begins,
  gives_up, advances, Run, start, next, initial, enter_at, push_at, advance_at, with_ebr,
}

-- What a thread has loaded is still the epoch when it is used, and the epoch is below its limit.
abbrev pub Timely : {s s' : System} → Step s s' → Type 0
Timely {s} (activates i g lt e) = g ≡ s.world.ebr.global_epoch
Timely {s} (pushes i g p e l few) = g ≡ s.world.ebr.global_epoch
Timely {s} (triggers i g p e l full) = g ≡ s.world.ebr.global_epoch
Timely {s} (advances i g e moves) = (g ≡ s.world.ebr.global_epoch) × (g + 2 < size_mod)
Timely _ = Unit

abbrev pub AllTimely : {s s' : System} → Run s s' → Type 0
AllTimely start = Unit
AllTimely (next r st) = AllTimely r × Timely st

abbrev pushed : ℕ → ℕ → ℕ → World → World
pushed i g p w = record w { ebr = push_at i g p w.ebr; linked = update w.linked p false }

pushed-Inv :
    (i g p : ℕ) (w : World)
    → Inv w
    → w.linked p ≡ true
    → g ≡ w.ebr.global_epoch
    → Inv (pushed i g p w)
unfolding push_retired
pushed-Inv i g p w inv l e = subst (λ h. Inv (pushed i h p w)) (sym e) (push-Inv inv i p l)

pub Step-Inv : {s s' : System} (st : Step s s') → Timely st → Inv s.world → Inv s'.world
unfolding enter
Step-Inv registers t inv = registers-Inv inv
Step-Inv (links p free) t inv = links-Inv inv p free
Step-Inv (loads i lt e) t inv = inv
Step-Inv {s} (activates i g lt e) t inv =
    subst
      (λ h. Inv (record (s.world) {
        ebr = enter_at i h s.world.ebr;
        held = update s.world.held i (λ _. false);
      }))
      (sym t) (enters-Inv inv i lt)
Step-Inv (exits i lt e) t inv = exits-Inv inv i lt
Step-Inv (reads i p e act l) t inv = reads-Inv inv i p act l
Step-Inv (retires i p lt e l) t inv = inv
Step-Inv {s} (pushes i g p e l few) t inv = pushed-Inv i g p s.world inv l t
Step-Inv {s} (triggers i g p e l full) t inv = reset-Inv (pushed-Inv i g p s.world inv l t) i
Step-Inv (begins i e) t inv = inv
Step-Inv (gives_up i g e lags) t inv = inv
Step-Inv {s} (advances i g e moves) (t, room) inv =
    subst (λ h. Inv (with_ebr (advance_at h s.world.ebr) s.world)) (sym t)
      (advance-Inv inv (subst (λ h. h + 2 < size_mod) t room)
        (subst (λ h. lagging h s.world.ebr.threads s.world.ebr.thread_count ≡ false) t moves))

pub start-Inv :
    Inv (record { ebr = init; linked = λ _. false; held = λ _ _. false; allocated = λ _. false })
unfolding delete_nodes
start-Inv = record {
  registered = λ i act. cc;
  near = λ i act. cc;
  unretired = λ p l. cc;
  protected = λ i p h. cc;
  linked-allocated = λ p l. cc;
  held-allocated = λ i p h. cc;
}

Run-Inv : {s : System} (r : Run initial s) → AllTimely r → Inv s.world
Run-Inv start t = start-Inv
Run-Inv (next r st) (earlier, now) = Step-Inv st now (Run-Inv r earlier)

-- Any number of threads run from the program's start, with the loads of the epoch in `enter`, `retire` and
-- `try_advance` as steps of their own; the two stores of `enter` are one step, and so is what `try_advance`
-- does under its mutex. Clients read pointers only while they are linked and in critical sections, and retire
-- each once; the allocator may give deleted pointers out again. If whenever a thread uses the epoch that it
-- has loaded, to enter, to choose a bin or to advance, it is still the epoch, and the epoch is below its
-- limit, then a pointer that a thread has read in its current critical section is not deleted.
pub held-undeleted :
    {s : System} (r : Run initial s)
    → AllTimely r
    → (i p : ℕ) → s.world.held i p ≡ true
    → count p s.world.ebr.freed ≡ 0
held-undeleted r timely i p h = ((Run-Inv r timely).protected i p h).undeleted
