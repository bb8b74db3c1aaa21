-- ===== src/Scheduler/Search/Stealing.antt =====
-- The loop of `Scheduler::steal` asks every worker.
use mathlib.Core.Path.{subst}
use native.Mathlib.Nat.{mod-eq_of_lt, add-mod_right}
use tiny_coro_build_your_own.Common.{
  ℕ, zero, suc, ◌+◌, ◌-◌, ◌%◌, ◌<◌, ◌≡◌, refl, sym, ap, ap₂, ◌∙◌, inl, inr, Bool, true, false,
  Option, none, some, List, arith, All, length, leb, Option-cases, dec_lt, if◌then◌else◌,
}
use tiny_coro_build_your_own.Task.{Task}
use tiny_coro_build_your_own.Scheduler.{Worker, Scheduler, steal_at, steal_loop, steal}
use tiny_coro_build_your_own.Scheduler.Search.{Valid, IdleAt, steal_at-misses}

-- What a round of the loop makes of a worker's answer.
abbrev after_round : ℕ → ℕ → ℕ → List Worker × Option Task → List Worker × Option Task
after_round start i rounds (workers, task) = elim task [
  | none ↦ steal_loop start (suc i) rounds workers
  | some t ↦ (workers, some t)
]

steal_loop-round :
    (start i rounds : ℕ) (ws : List Worker) {r : List Worker × Option Task}
    → steal_at ((start + i) % length ws) ws ≡ r
    → steal_loop start i (suc rounds) ws ≡ after_round start i rounds r
unfolding steal_loop
steal_loop-round start i rounds ws e = ap (after_round start i rounds) e

rounds_idle :
    (start i rounds : ℕ) (ws : List Worker)
    → IdleAt ((start + i) % length ws) ws
    → ((j : ℕ) → j < rounds → IdleAt ((start + (suc i + j)) % length ws) ws)
    → (j : ℕ) → j < suc rounds
    → IdleAt ((start + (i + j)) % length ws) ws
rounds_idle start i rounds ws now later zero l =
    subst (λ m. IdleAt (m % length ws) ws) (omega arith) now
rounds_idle start i rounds ws now later (suc j) l =
    subst (λ m. IdleAt (m % length ws) ws) (omega arith) (later j (omega arith))

steal_loop-misses :
    (start i rounds : ℕ) (ws : List Worker)
    → All Valid ws
    → (steal_loop start i rounds ws).1 ≡ none
    → ((steal_loop start i rounds ws).0 ≡ ws)
      × ((j : ℕ) → j < rounds → IdleAt ((start + (i + j)) % length ws) ws)
unfolding steal_loop
steal_loop-misses start i zero ws v e = (refl, λ j l. absurd (omega arith))
steal_loop-misses start i (suc rounds) ws v e =
    elim (Option-cases (steal_at ((start + i) % length ws) ws).1) [
      | inl missed ↦
          let (same, idle) = steal_at-misses ((start + i) % length ws) ws v missed in
          let next = steal_loop-round start i rounds ws (ap₂ (λ us t. (us, t)) same missed) in
          let (same', idle') =
            steal_loop-misses start (suc i) rounds ws v
              (sym (ap (λ (r : List Worker × Option Task). r.1) next) ∙ e) in
          (
            ap (λ (r : List Worker × Option Task). r.0) next ∙ same',
            rounds_idle start i rounds ws idle idle',
          )
      | inr (t, found) ↦
          let next =
            steal_loop-round start i rounds ws
              (ap (λ u. ((steal_at ((start + i) % length ws) ws).0, u)) found) in
          absurd (let e' = sym (ap (λ (r : List Worker × Option Task). r.1) next) ∙ e in cc)
    ]

-- Starting anywhere, n rounds come by every index below n.
every_index : (n start x : ℕ) → start < n → x < n → (j : ℕ) × (j < n) × ((start + (0 + j)) % n ≡ x)
every_index n start x s l = elim (dec_lt x start) [
  | yes before ↦
      let e : start + (0 + (x + n - start)) ≡ x + n = omega arith in
      (x + n - start, omega arith, ap (λ m. m % n) e ∙ add-mod_right x n ∙ mod-eq_of_lt l)
  | no after ↦
      let e : start + (0 + (x - start)) ≡ x = omega arith in
      (x - start, omega arith, ap (λ m. m % n) e ∙ mod-eq_of_lt l)
]

steal-loops :
    (start : ℕ) (s : Scheduler)
    → leb (length s.workers) 1 ≡ false
    → (let r = steal_loop start 0 (length s.workers) s.workers in
        steal start s ≡ (record s { workers = r.0 }, r.1))
unfolding steal
steal-loops start s several =
    let r = steal_loop start 0 (length s.workers) s.workers in
    ap (λ (b : Bool). if b then (s, none) else (record s { workers = r.0 }, r.1)) several

pub steal-alone :
    (start : ℕ) (s : Scheduler) → leb (length s.workers) 1 ≡ true → steal start s ≡ (s, none)
unfolding steal
steal-alone start s alone =
    let r = steal_loop start 0 (length s.workers) s.workers in
    ap (λ (b : Bool). if b then (s, none) else (record s { workers = r.0 }, r.1)) alone

-- With several workers, `steal` asks all of them.
pub steal-none_left :
    (start : ℕ) (s : Scheduler)
    → All Valid s.workers
    → start < length s.workers
    → leb (length s.workers) 1 ≡ false
    → (steal start s).1 ≡ none
    → ((steal start s).0 ≡ s) × ((x : ℕ) → x < length s.workers → IdleAt x s.workers)
steal-none_left start s v l several e =
    let looped = steal-loops start s several in
    let (same, idle) =
      steal_loop-misses start 0 (length s.workers) s.workers v
        (sym (ap (λ (r : Scheduler × Option Task). r.1) looped) ∙ e) in
    (
      ap (λ (r : Scheduler × Option Task). r.0) looped ∙ ap (λ us. record s { workers = us }) same,
      λ x lx.
          let (j, lj, at) = every_index (length s.workers) start x l lx in
          subst (λ m. IdleAt m s.workers) at (idle j lj),
    )
