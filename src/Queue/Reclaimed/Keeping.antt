-- ===== src/Queue/Reclaimed/Keeping.antt =====
-- What the steps of the queue and of other code leave alone.
use tiny_coro_build_your_own.Common.{ℕ, ◌≡◌, refl, sym, ◌∙◌, ◌≢◌, ◌⊎◌, true, some, arith, inl, inr}
use tiny_coro_build_your_own.Ebr.{
  EbrManager, LocalState, advance, push_retired, reset_count, register_thread, exit, clear_bins,
  safe_bin_idx,
}
use tiny_coro_build_your_own.Ebr.World
use tiny_coro_build_your_own.Ebr.Interleaved
use tiny_coro_build_your_own.Ebr.Interleaved.{Pc, push_at, advance_at}
use tiny_coro_build_your_own.Ebr.Advance.{clear_bins_lem}
use tiny_coro_build_your_own.Queue.Concurrent
use tiny_coro_build_your_own.Queue.Concurrent.{out, has_array}
use tiny_coro_build_your_own.Queue.Reclaimed.{System, Plain, Elsewhere}

-- What a step of the queue leaves alone.
pub record Keeps (q q' : Concurrent.System) : Type 0 where
  pub same_array : q'.array ≡ q.array
  pub outside : (i : ℕ) → q'.thief i ≢ out → q.thief i ≢ out
  pub holding : (i t a : ℕ) → q'.thief i ≡ has_array t a → q.thief i ≡ has_array t a

same_thieves-Keeps :
    {q q' : Concurrent.System}
    → q'.array ≡ q.array
    → ((i : ℕ) → q'.thief i ≡ q.thief i)
    → Keeps q q'
same_thieves-Keeps same_array same = record {
  same_array = same_array;
  outside = λ i n e. n (same i ∙ e);
  holding = λ i t a e. sym (same i) ∙ e;
}

pub Plain-Keeps : {q q' : Concurrent.System} (st : Concurrent.Step q q') → Plain st → Keeps q q'
Plain-Keeps (Concurrent.Step.push_starts b p e at small) h = same_thieves-Keeps refl (λ i. refl)
Plain-Keeps (Concurrent.Step.push_loads b p e) h = same_thieves-Keeps refl (λ i. refl)
Plain-Keeps (Concurrent.Step.push_fits b t p e spare) h = same_thieves-Keeps refl (λ i. refl)
Plain-Keeps (Concurrent.Step.push_grows b t p fresh e full free) h = absurd h
Plain-Keeps (Concurrent.Step.push_writes b p e) h = absurd h
Plain-Keeps (Concurrent.Step.push_ends b p e) h = same_thieves-Keeps refl (λ i. refl)
Plain-Keeps (Concurrent.Step.pop_starts b e at) h = same_thieves-Keeps refl (λ i. refl)
Plain-Keeps (Concurrent.Step.pop_more b e le ne) h = same_thieves-Keeps refl (λ i. refl)
Plain-Keeps (Concurrent.Step.pop_last b e le eq) h = same_thieves-Keeps refl (λ i. refl)
Plain-Keeps (Concurrent.Step.pop_reads t e) h = same_thieves-Keeps refl (λ i. refl)
Plain-Keeps (Concurrent.Step.pop_misses b e gt) h = same_thieves-Keeps refl (λ i. refl)
Plain-Keeps (Concurrent.Step.pop_takes b e) h = same_thieves-Keeps refl (λ i. refl)
Plain-Keeps (Concurrent.Step.pop_exchanges t v e) h = same_thieves-Keeps refl (λ i. refl)
Plain-Keeps (Concurrent.Step.pop_restores b e) h = same_thieves-Keeps refl (λ i. refl)
Plain-Keeps (Concurrent.Step.steal_starts i e) h = absurd h
Plain-Keeps (Concurrent.Step.steal_finds i t e) h = absurd h
Plain-Keeps {q} (Concurrent.Step.steal_loads i t e) h = record {
  same_array = refl;
  outside = λ j n f. ground (arith, e, f);
  holding = λ j u a f. ground (arith, e, f);
}
Plain-Keeps {q} (Concurrent.Step.steal_reads i t a e) h = record {
  same_array = refl;
  outside = λ j n f. ground (arith, e, f);
  holding = λ j u b f. ground (arith, e, f);
}
Plain-Keeps {q} (Concurrent.Step.steal_exchanges i t v e) h = record {
  same_array = refl;
  outside = λ j n f. ground (arith, e, f);
  holding = λ j u a f. ground (arith, e, f);
}

clear_bins-active :
    (k : ℕ) (threads : ℕ → LocalState) (n j : ℕ)
    → (clear_bins k threads n j).active ≡ (threads j).active
clear_bins-active k threads n j = rw (clear_bins_lem k threads n j) (ground arith)

advance_at-active :
    (g : ℕ) (m : EbrManager) (j : ℕ) → ((advance_at g m).threads j).active ≡ (m.threads j).active
unfolding advance
advance_at-active g m j =
    clear_bins-active (safe_bin_idx (record m { global_epoch = g })) m.threads m.thread_count j

pub push_at-active :
    (i g p : ℕ) (m : EbrManager) (j : ℕ)
    → ((push_at i g p m).threads j).active ≡ (m.threads j).active
unfolding push_retired
push_at-active i g p m j = ground arith

pub reset_count-active :
    (i : ℕ) (m : EbrManager) (j : ℕ) → ((reset_count i m).threads j).active ≡ (m.threads j).active
reset_count-active i m j = ground arith

-- What a step of other code leaves alone.
pub record Spares (s : System) (m' : Interleaved.System) : Type 0 where
  pub still_linked :
      (p : ℕ)
      → s.memory.world.linked p ≡ true
      → (p ≡ s.queue.array) ⊎ (s.pending ≡ some p)
      → m'.world.linked p ≡ true
  pub still_active :
      (i : ℕ)
      → s.queue.thief i ≢ out
      → (s.memory.world.ebr.threads i).active ≡ true
      → (m'.world.ebr.threads i).active ≡ true
  pub still_held :
      (i p : ℕ) → s.queue.thief i ≢ out → s.memory.world.held i p ≡ true → m'.world.held i p ≡ true

same_world-Spares :
    {s : System} {pc : ℕ → Pc} → Spares s (record { world = s.memory.world; pc = pc })
same_world-Spares = record {
  still_linked = λ p l _. l;
  still_active = λ i n act. act;
  still_held = λ i p n h. h;
}

pub Elsewhere-Spares :
    {s : System} {m' : Interleaved.System} (st : Interleaved.Step s.memory m')
    → World.Inv s.memory.world
    → Elsewhere s st
    → Spares s m'
unfolding register_thread exit
Elsewhere-Spares Interleaved.Step.registers v h = record {
  still_linked = λ p l _. l;
  still_active = λ i n act. ground (arith, v.registered i act);
  still_held = λ i p n h. h;
}
Elsewhere-Spares (Interleaved.Step.links p free) v h = record {
  still_linked = λ q l _. ground arith;
  still_active = λ i n act. act;
  still_held = λ i q n h. h;
}
Elsewhere-Spares (Interleaved.Step.loads j lt e) v h = same_world-Spares
Elsewhere-Spares (Interleaved.Step.activates j g lt e) v at_rest = record {
  still_linked = λ p l _. l;
  still_active = λ i n act. ground arith;
  still_held = λ i p n h. ground (arith, n, at_rest);
}
Elsewhere-Spares (Interleaved.Step.exits j lt e) v at_rest = record {
  still_linked = λ p l _. l;
  still_active = λ i n act. ground (arith, n, at_rest);
  still_held = λ i p n h. ground (arith, n, at_rest);
}
Elsewhere-Spares (Interleaved.Step.reads j p e act l) v h = record {
  still_linked = λ q l _. l;
  still_active = λ i n act. act;
  still_held = λ i q n h. ground arith;
}
Elsewhere-Spares (Interleaved.Step.retires j p lt e l) v h = same_world-Spares
Elsewhere-Spares {s} (Interleaved.Step.pushes j g p e l few) v (ne, ne') = record {
  still_linked =
      λ q l own. elim own [ inl e ↦ ground (arith, ne, e) | inr e ↦ ground (arith, ne', e) ];
  still_active = λ i n act. push_at-active j g p s.memory.world.ebr i ∙ act;
  still_held = λ i q n h. h;
}
Elsewhere-Spares {s} (Interleaved.Step.triggers j g p e l full) v (ne, ne') = record {
  still_linked =
      λ q l own. elim own [ inl e ↦ ground (arith, ne, e) | inr e ↦ ground (arith, ne', e) ];
  still_active = λ i n act.
      reset_count-active j (push_at j g p s.memory.world.ebr) i
      ∙ push_at-active j g p s.memory.world.ebr i
      ∙ act;
  still_held = λ i q n h. h;
}
Elsewhere-Spares (Interleaved.Step.begins j e) v h = same_world-Spares
Elsewhere-Spares (Interleaved.Step.gives_up j g e lags) v h = same_world-Spares
Elsewhere-Spares {s} (Interleaved.Step.advances j g e moves) v h = record {
  still_linked = λ q l _. l;
  still_active = λ i n act. advance_at-active g s.memory.world.ebr i ∙ act;
  still_held = λ i q n h. h;
}
