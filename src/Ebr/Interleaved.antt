-- ===== src/Ebr/Interleaved.antt =====
-- include/ebr.h: `EbrManager` with the loads of the epoch in `enter`, `retire` and `try_advance` as steps of
-- their own, so that what a thread has loaded can be out of date when it is used.
use tiny_coro_build_your_own.Common.{ℕ, ◌<◌, ◌≡◌, true, false, ltb, update}
use tiny_coro_build_your_own.Ebr.{
  EbrManager, init, register_thread, exit, lagging, advance, push_retired, reset_count,
}
use tiny_coro_build_your_own.Ebr.World.{World, Available, reuse}

-- Where a thread stands: between two calls, in `enter` with the epoch loaded, in `retire` of a pointer with the
-- epoch loaded, before `try_advance`, in it with the epoch loaded, in front of the mutex.
pub data Pc : Type 0 where
  out : Pc
  entering : (g : ℕ) → Pc
  retiring : (g p : ℕ) → Pc
  triggered : Pc
  collecting : (g : ℕ) → Pc

pub record System : Type 0 where
  pub world : World
  pub pc : ℕ → Pc

abbrev pub enter_at : ℕ → ℕ → EbrManager → EbrManager
enter_at i g m =
    let ls = m.threads i in
    record m { threads = update m.threads i (record ls { active = true; epoch = g }) }

-- The push into the bin of the epoch that was loaded.
abbrev pub push_at : ℕ → ℕ → ℕ → EbrManager → EbrManager
push_at i g p m = record (push_retired i p (record m { global_epoch = g })) {
  global_epoch = m.global_epoch;
}

abbrev pub advance_at : ℕ → EbrManager → EbrManager
advance_at g m = advance (record m { global_epoch = g })

abbrev pub with_ebr : EbrManager → World → World
with_ebr m w = record w { ebr = m }

-- The allocator and the clients are those of Ebr/World. A pointer is unlinked when `retire` pushes it, at
-- the latest. The two stores of `enter` are one step, and so is what `try_advance` does under the mutex.
pub data Step (s : System) : System → Type 0 where
  registers : Step s (record s { world = with_ebr (register_thread s.world.ebr).0 s.world })
  links :
      (p : ℕ)
      → Available s.world p
      → Step s (record s {
        world = record (s.world) {
          ebr = reuse p s.world.ebr;
          linked = update s.world.linked p true;
          allocated = update s.world.allocated p true;
        };
      })
  loads :
      (i : ℕ)
      → i < s.world.ebr.thread_count
      → s.pc i ≡ out
      → Step s (record s { pc = update s.pc i (entering s.world.ebr.global_epoch) })
  activates :
      (i g : ℕ)
      → i < s.world.ebr.thread_count
      → s.pc i ≡ entering g
      → Step s (record s {
        world = record (s.world) {
          ebr = enter_at i g s.world.ebr;
          held = update s.world.held i (λ _. false);
        };
        pc = update s.pc i out;
      })
  exits :
      (i : ℕ)
      → i < s.world.ebr.thread_count
      → s.pc i ≡ out
      → Step s (record s {
        world = record (s.world) {
          ebr = exit i s.world.ebr;
          held = update s.world.held i (λ _. false);
        };
      })
  reads :
      (i p : ℕ)
      → s.pc i ≡ out
      → (s.world.ebr.threads i).active ≡ true
      → s.world.linked p ≡ true
      → Step s (record s {
        world = record (s.world) { held = update s.world.held i (update (s.world.held i) p true) };
      })
  retires :
      (i p : ℕ)
      → i < s.world.ebr.thread_count
      → s.pc i ≡ out
      → s.world.linked p ≡ true
      → Step s (record s { pc = update s.pc i (retiring s.world.ebr.global_epoch p) })
  pushes :
      (i g p : ℕ)
      → s.pc i ≡ retiring g p
      → s.world.linked p ≡ true
      → ltb 64 ((push_at i g p s.world.ebr).threads i).op_count ≡ false
      → Step s (record s {
        world = record (s.world) {
          ebr = push_at i g p s.world.ebr;
          linked = update s.world.linked p false;
        };
        pc = update s.pc i out;
      })
  triggers :
      (i g p : ℕ)
      → s.pc i ≡ retiring g p
      → s.world.linked p ≡ true
      → ltb 64 ((push_at i g p s.world.ebr).threads i).op_count ≡ true
      → Step s (record s {
        world = record (s.world) {
          ebr = reset_count i (push_at i g p s.world.ebr);
          linked = update s.world.linked p false;
        };
        pc = update s.pc i triggered;
      })
  begins :
      (i : ℕ)
      → s.pc i ≡ triggered
      → Step s (record s { pc = update s.pc i (collecting s.world.ebr.global_epoch) })
  gives_up :
      (i g : ℕ)
      → s.pc i ≡ collecting g
      → lagging g s.world.ebr.threads s.world.ebr.thread_count ≡ true
      → Step s (record s { pc = update s.pc i out })
  advances :
      (i g : ℕ)
      → s.pc i ≡ collecting g
      → lagging g s.world.ebr.threads s.world.ebr.thread_count ≡ false
      → Step s
          (record s { world = with_ebr (advance_at g s.world.ebr) s.world; pc = update s.pc i out })

pub data Run (s : System) : System → Type 0 where
  start : Run s s
  next : {s' s'' : System} → Run s s' → Step s' s'' → Run s s''

pub Run-append : {s s' s'' : System} → Run s s' → Run s' s'' → Run s s''
Run-append r start = r
Run-append r (next r' st) = next (Run-append r r') st

-- The program's start: no thread is registered, and nothing is allocated.
abbrev pub initial : System
initial = record {
  world = record { ebr = init; linked = λ p. false; held = λ i p. false; allocated = λ p. false };
  pc = λ i. out;
}
