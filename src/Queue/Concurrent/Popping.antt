-- ===== src/Queue/Concurrent/Popping.antt =====
-- The steps of `pop` keep the invariant of the work-stealing queue.
use mathlib.Core.Path.{subst}
use tiny_coro_build_your_own.Common.{
  ℕ, suc, ◌+◌, ◌-◌, ◌%◌, ◌^◌, ◌<◌, ◌≡◌, refl, sym, ap, ◌∙◌, [], ◌∷◌, true, false, arith,
  if◌then◌else◌, ◌==◌, count, count-append, ℕ_discrete,
}
use tiny_coro_build_your_own.Common.Int.{pos, leb_ℤ, eqb_ℤ, ◌-ℤ◌}
use tiny_coro_build_your_own.Queue.Array.{get}
use tiny_coro_build_your_own.Queue.Steal.{compare_exchange}
use tiny_coro_build_your_own.Queue.Concurrent.{
  idle, popping, takes, takes_last, casing, restoring, System, current,
}
use tiny_coro_build_your_own.Queue.Concurrent.Invariant.{
  view, entry, entries, Inv, index_small, Unnoticed, ThiefInv-keeps,
}
use tiny_coro_build_your_own.Queue.Concurrent.Moves.{
  owner_moves, owner_at, in_hand_at, entries_back, front_taken, exchanged, exchange-won,
  exchange-lost,
}

pub pop_starts-Inv :
    {s : System} (b : ℕ)
    → Inv s
    → s.owner ≡ idle
    → s.bottom ≡ pos b
    → Inv (record s { bottom = pos b -ℤ pos 1; owner = popping b })
pop_starts-Inv {s} b v e at =
    let same : b ≡ s.back = ground (arith, owner_at v e) in
    owner_moves (popping b) (pos b -ℤ pos 1) v (refl, same) (sym (in_hand_at s e))

last_balance :
    (taken now' one : ℕ) {all now hand : ℕ}
    → all ≡ taken + now + hand
    → now ≡ now' + one
    → hand ≡ 0
    → all ≡ taken + now' + one
last_balance taken now' one a b c = omega arith

hand_balance :
    (taken now : ℕ) {all hand one one' : ℕ}
    → all ≡ taken + now + hand
    → hand ≡ one + 0
    → one' ≡ one
    → all ≡ one' + taken + now + 0
hand_balance taken now a b c = omega arith

pub pop_more-Inv :
    {s : System} (b : ℕ)
    → Inv s
    → s.owner ≡ popping b
    → leb_ℤ (pos s.top) (pos b -ℤ pos 1) ≡ true
    → eqb_ℤ (pos s.top) (pos b -ℤ pos 1) ≡ false
    → Inv (record s { owner = takes (b - 1); back = b - 1 })
unfolding ◌-ℤ◌
pop_more-Inv {s} b v e le ne =
    let (at, here) = owner_at v e in
    let more : suc s.top < b = ground arith in
    let unnoticed : Unnoticed (view s) (record (view s) { back = b - 1 }) = record {
      forward = omega arith;
      still_there = λ _ _. omega arith;
      same_entry = λ _ _. refl;
    } in
    record {
      shape = v.shape;
      ordered = omega arith;
      fits = omega (arith, v.fits);
      small = omega (arith, v.small);
      owner = (ground arith, refl);
      thieves = λ j.
          ThiefInv-keeps (view s) (record (view s) { back = b - 1 }) (s.thief j) unnoticed
            (λ t a _ _ _. refl) (v.thieves j);
      balanced = λ p.
          last_balance (count p s.taken) (count p (entries (record (view s) { back = b - 1 })))
            (count p (entry (view s) (b - 1) ∷ [])) (v.balanced p)
            (ap (λ i. count p (entries (record (view s) { back = i }))) (whole b here more)
              ∙ ap (count p) (entries_back (view s) (b - 1) (omega arith))
              ∙ count-append p (entries (record (view s) { back = b - 1 }))
                  (entry (view s) (b - 1) ∷ []))
            (ap (count p) (in_hand_at s e));
    }
  where
    whole : (b : ℕ) → b ≡ s.back → suc s.top < b → s.back ≡ suc (b - 1)
    whole b here more = omega arith

pub pop_last-Inv :
    {s : System} (b : ℕ)
    → Inv s
    → s.owner ≡ popping b
    → eqb_ℤ (pos s.top) (pos b -ℤ pos 1) ≡ true
    → Inv (record s { owner = takes_last (b - 1) })
unfolding ◌-ℤ◌
pop_last-Inv {s} b v e eq =
    let (at, here) = owner_at v e in
    owner_moves (takes_last (b - 1)) s.bottom v (ground arith, ground arith, ground arith)
      (sym (in_hand_at s e))

pub pop_reads-Inv :
    {s : System} (t : ℕ)
    → Inv s
    → s.owner ≡ takes_last t
    → Inv (record s { owner = casing t (get (t % 2 ^ 64) (current s)) })
pop_reads-Inv {s} t v e =
    let (at, last, le) = owner_at v e in
    owner_moves (casing t (get (t % 2 ^ 64) (current s))) s.bottom v
      (at, last, le, λ here. ap (entry (view s)) (index_small t (omega (arith, v.small)) ∙ here))
      (sym (in_hand_at s e))

pub pop_misses-Inv :
    {s : System} (b : ℕ)
    → Inv s
    → s.owner ≡ popping b
    → leb_ℤ (pos s.top) (pos b -ℤ pos 1) ≡ false
    → Inv (record s { owner = restoring b })
unfolding ◌-ℤ◌
pop_misses-Inv {s} b v e gt =
    let (at, here) = owner_at v e in
    owner_moves (restoring b) s.bottom v (at, here, ground (arith, v.ordered))
      (sym (in_hand_at s e))

pub pop_takes-Inv :
    {s : System} (b : ℕ)
    → Inv s
    → s.owner ≡ takes b
    → Inv (record s { owner = idle; taken = get (b % 2 ^ 64) (current s) ∷ s.taken })
pop_takes-Inv {s} b v e =
    let (at, here) = owner_at v e in
    record {
      shape = v.shape;
      ordered = v.ordered;
      fits = v.fits;
      small = v.small;
      owner = at;
      thieves = v.thieves;
      balanced = λ p.
          hand_balance (count p s.taken) (count p (entries (view s))) (v.balanced p)
            (ap (count p) (in_hand_at s e))
            (ap {B = ℕ} (λ i. if p == entry (view s) i then 1 else 0)
              (index_small b (omega (arith, v.small))));
    }

pub pop_exchanges-Inv :
    {s : System} (t w : ℕ)
    → Inv s
    → s.owner ≡ casing t w
    → Inv (exchanged s (restoring (suc t)) s.thief w (compare_exchange t (t + 1) s.top))
unfolding ◌-ℤ◌
pop_exchanges-Inv {s} t w v e =
    let (at, last, le, right) = owner_at v e in
    elim (ℕ_discrete t s.top) [
      | yes here ↦
          subst (λ r. Inv (exchanged s (restoring (suc t)) s.thief w r)) (exchange-won t s.top here)
            (front_taken (restoring (suc t)) s.thief w v (omega arith) (right here)
              (ground arith, last, omega arith) (sym (in_hand_at s e)) v.thieves)
      | no gone ↦
          subst (λ r. Inv (exchanged s (restoring (suc t)) s.thief w r))
            (exchange-lost t s.top gone)
            (owner_moves (restoring (suc t)) s.bottom v
              (ground arith, last, omega (arith, v.ordered)) (sym (in_hand_at s e)))
    ]

pub pop_restores-Inv :
    {s : System} (b : ℕ)
    → Inv s
    → s.owner ≡ restoring b
    → Inv (record s { bottom = pos b; owner = idle })
pop_restores-Inv {s} b v e =
    let (at, here, gone) = owner_at v e in
    owner_moves idle (pos b) v (ap pos here) (sym (in_hand_at s e))
