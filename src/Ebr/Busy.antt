-- ===== src/Ebr/Busy.antt =====
-- include/ebr.h: what threads can do from the program's start on, to fill their bins.
use tiny_coro_build_your_own.Common.{
  ℕ, zero, suc, ◌+◌, ◌%◌, ◌<◌, ◌≡◌, refl, sym, ◌∙◌, Bool, true, false, arith, update,
}
use tiny_coro_build_your_own.Ebr.{LocalState, size_mod, lagging, clear_bins, advance, push_retired}
use tiny_coro_build_your_own.Ebr.Interleaved.{
  Pc, out, entering, collecting, System, loads, retires, pushes, triggers, begins, advances, Run,
  start, next,
}

-- Four threads, of which none is in a critical section: the epoch, where the threads stand, their counts of
-- calls of `retire`, and the linked pointers.
pub record Facts (s : System) (e : ℕ) (pcs : ℕ → Pc) (n : ℕ → ℕ) (l : ℕ → Bool) : Type 0 where
  pub stands : (i : ℕ) → s.pc i ≡ pcs i
  pub at_epoch : s.world.ebr.global_epoch ≡ e
  pub four : s.world.ebr.thread_count ≡ 4
  pub inactive : (i : ℕ) → (s.world.ebr.threads i).active ≡ false
  pub counts : (i : ℕ) → (s.world.ebr.threads i).op_count ≡ n i
  pub there : (q : ℕ) → s.world.linked q ≡ l q

pub lagging-none :
    (g : ℕ) (threads : ℕ → LocalState) (n : ℕ)
    → ((i : ℕ) → (threads i).active ≡ true → (threads i).epoch ≡ g)
    → lagging g threads n ≡ false
unfolding lagging
lagging-none g threads zero near = refl
lagging-none g threads (suc n) near = ground (arith, lagging-none g threads n near, near n)

pub clear_bins-state :
    (bin : ℕ) (threads : ℕ → LocalState) (n i : ℕ)
    → ((clear_bins bin threads n i).active ≡ (threads i).active)
      × ((clear_bins bin threads n i).op_count ≡ (threads i).op_count)
unfolding clear_bins
clear_bins-state bin threads zero i = (refl, refl)
clear_bins-state bin threads (suc n) i =
    ground (arith, clear_bins-state bin threads n i, clear_bins-state bin threads n n)

abbrev pub Goes : System → ℕ → (ℕ → Pc) → (ℕ → ℕ) → (ℕ → Bool) → Type 0
Goes s e pcs n l = (s' : System) × Run s s' × Facts s' e pcs n l

module _ {s : System} {e : ℕ} {pcs : ℕ → Pc} {n : ℕ → ℕ} {l : ℕ → Bool} (f : Facts s e pcs n l)
    (i : ℕ) (lt : i < 4) where
  -- A call of `retire` that does not collect.
  pub one_push :
      (q : ℕ)
      → pcs i ≡ out
      → n i < 64
      → l q ≡ true
      → Goes s e pcs (update n i (n i + 1)) (update l q false)
  unfolding push_retired
  one_push q o few h = (
    _,
    next (next start (retires i q (omega (arith, f.four)) (f.stands i ∙ o) (f.there q ∙ h))) (
        pushes i s.world.ebr.global_epoch q (ground arith) (f.there q ∙ h)
          (ground (arith, f.counts i))),
    record {
      stands = λ j. ground (arith, f.stands j);
      at_epoch = f.at_epoch;
      four = f.four;
      inactive = λ j. ground (arith, f.inactive j, f.inactive i);
      counts = λ j. ground (arith, f.counts j, f.counts i);
      there = λ r. ground (arith, f.there r);
    },
  )

  -- The 65th, up to the load of the epoch in `try_advance`.
  pub collects :
      (q : ℕ)
      → pcs i ≡ out
      → n i ≡ 64
      → l q ≡ true
      → Goes s e (update pcs i (collecting e)) (update n i 0) (update l q false)
  unfolding push_retired
  collects q o full h = (
    _,
    next
        (next (next start (retires i q (omega (arith, f.four)) (f.stands i ∙ o) (f.there q ∙ h))) (
          triggers i s.world.ebr.global_epoch q (ground arith) (f.there q ∙ h)
            (ground (arith, f.counts i))))
        (begins i (ground arith)),
    record {
      stands = λ j. ground (arith, f.stands j, f.at_epoch);
      at_epoch = f.at_epoch;
      four = f.four;
      inactive = λ j. ground (arith, f.inactive j, f.inactive i);
      counts = λ j. ground (arith, f.counts j, f.counts i);
      there = λ r. ground (arith, f.there r);
    },
  )

  -- The rest of `try_advance`.
  pub collected : pcs i ≡ collecting e → Goes s ((e + 1) % size_mod) (update pcs i out) n l
  unfolding advance
  collected c = (
    _,
    next start (
        advances i e (f.stands i ∙ c) (
          lagging-none e s.world.ebr.threads s.world.ebr.thread_count
            (λ j act. absurd (let g = sym (f.inactive j) ∙ act in cc)))),
    record {
      stands = λ j. ground (arith, f.stands j);
      at_epoch = refl;
      four = f.four;
      inactive =
          λ j. (clear_bins-state _ s.world.ebr.threads s.world.ebr.thread_count j).0 ∙ f.inactive j;
      counts =
          λ j. (clear_bins-state _ s.world.ebr.threads s.world.ebr.thread_count j).1 ∙ f.counts j;
      there = f.there;
    },
  )

  -- The load of the epoch in `enter`.
  pub loaded : pcs i ≡ out → Goes s e (update pcs i (entering e)) n l
  loaded o = (
    _,
    next start (loads i (omega (arith, f.four)) (f.stands i ∙ o)),
    record {
      stands = λ j. ground (arith, f.stands j, f.at_epoch);
      at_epoch = f.at_epoch;
      four = f.four;
      inactive = f.inactive;
      counts = f.counts;
      there = f.there;
    },
  )
