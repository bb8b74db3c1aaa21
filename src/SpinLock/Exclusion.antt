-- ===== src/SpinLock/Exclusion.antt =====
-- The spin lock excludes, and is free while no thread holds it.
use tiny_coro_build_your_own.Common.{ℕ, ◌≡◌, refl, ◌≢◌, ◌⊎◌, inl, inr, true, false, arith}
use tiny_coro_build_your_own.SpinLock.{
  exchange, unlock, holding, System, Step, calls, exchanges, loads, unlocks, Reach, start, next,
}

abbrev pub Free : System → Type 0
Free s = (s.lock.lock_ ≡ false) × ((i : ℕ) → s.pc i ≢ holding)

abbrev pub Taken : System → Type 0
Taken s =
    (s.lock.lock_ ≡ true) × ((o : ℕ) × (s.pc o ≡ holding) × ((i : ℕ) → s.pc i ≡ holding → i ≡ o))

Step-Inv : {s s' : System} → Step s s' → Free s ⊎ Taken s → Free s' ⊎ Taken s'
unfolding exchange unlock
Step-Inv (calls i at) (inl (free, nobody)) = inl (free, λ j h. ground (arith, nobody j))
Step-Inv (calls i at) (inr (taken, (o, holds, only))) =
    inr (taken, (o, ground arith, λ j h. ground (arith, only j)))
Step-Inv (exchanges i at) (inl (free, nobody)) =
    inr (refl, (i, ground arith, λ j h. ground (arith, nobody j)))
Step-Inv (exchanges i at) (inr (taken, (o, holds, only))) =
    inr (refl, (o, ground arith, λ j h. ground (arith, only j)))
Step-Inv (loads i at) (inl (free, nobody)) = inl (free, λ j h. ground (arith, nobody j))
Step-Inv (loads i at) (inr (taken, (o, holds, only))) =
    inr (taken, (o, ground arith, λ j h. ground (arith, only j)))
Step-Inv (unlocks i at) (inl (free, nobody)) = absurd (nobody i at)
Step-Inv (unlocks i at) (inr (taken, (o, holds, only))) =
    inl (refl, λ j h. ground (arith, only j, only i))

-- In every reachable state the lock is free and no thread holds it, or it is taken and exactly one
-- thread holds it.
pub Reach-one_holder : {s : System} → Reach s → Free s ⊎ Taken s
Reach-one_holder start = inl (refl, λ i h. cc)
Reach-one_holder (next r st) = Step-Inv st (Reach-one_holder r)
