-- ===== src/AsyncMutex/Exclusion.antt =====
-- The lock of include/async_mutex.h excludes, and goes to those that wait in turn.
use tiny_coro_build_your_own.Common.{
  ℕ, ◌<◌, ◌≡◌, refl, sym, ap, ◌∙◌, ◌≢◌, ◌⊎◌, inl, inr, true, false, List, [], ◌∷◌, ◌++◌, arith,
  if◌then◌else◌, count, count-append, update,
}
use tiny_coro_build_your_own.Scheduler.{Scheduler}
use tiny_coro_build_your_own.Scheduler.Spawn.{queued, spawn_address-queue}
use tiny_coro_build_your_own.AsyncMutex.{
  AsyncMutex, await_ready, await_suspend, unlock, unlock_with,
}
use tiny_coro_build_your_own.AsyncMutex.System.{
  Pc, outside, trying, waiting, holding, System, handed, Step, readies, suspends, unlocks, Reach,
  start, next,
}

-- The lock is free and nobody waits or holds it, or one coroutine holds it.
abbrev pub Owned : AsyncMutex → (ℕ → Pc) → Type 0
Owned m pc =
    ((m.locked ≡ false) × (m.waiters ≡ []) × ((i : ℕ) → pc i ≢ holding))
    ⊎ ((m.locked ≡ true) × ((o : ℕ) × (pc o ≡ holding) × ((i : ℕ) → pc i ≡ holding → i ≡ o)))

abbrev waits : Pc → ℕ
waits waiting = 1
waits _ = 0

-- The wait queue holds each suspended coroutine once, and no other.
pub record Inv (m : AsyncMutex) (pc : ℕ → Pc) : Type 0 where
  pub owned : Owned m pc
  pub queue : (i : ℕ) → count i m.waiters ≡ waits (pc i)

readies-Owned :
    {m : AsyncMutex} {pc : ℕ → Pc} (i : ℕ)
    → Owned m pc
    → pc i ≡ outside
    → Owned (await_ready m).0 (update pc i (if (await_ready m).1 then holding else trying))
unfolding await_ready
readies-Owned i (inl (free, none_waits, nobody)) at =
    inr (ground arith, (i, ground arith, λ j q. ground (arith, nobody j)))
readies-Owned i (inr (taken, (o, holds, only))) at =
    inr (ground arith, (o, ground arith, λ j q. ground (arith, only j)))

suspends-Owned :
    {m : AsyncMutex} {pc : ℕ → Pc} (i : ℕ)
    → Owned m pc
    → pc i ≡ trying
    → Owned (await_suspend i m).0 (update pc i (if (await_suspend i m).1 then waiting else holding))
unfolding await_suspend
suspends-Owned i (inl (free, none_waits, nobody)) at =
    inr (ground arith, (i, ground arith, λ j q. ground (arith, nobody j)))
suspends-Owned i (inr (taken, (o, holds, only))) at =
    inr (ground arith, (o, ground arith, λ j q. ground (arith, only j)))

unlocks-Owned :
    {m : AsyncMutex} {pc : ℕ → Pc} (i : ℕ) (sched : Scheduler) (ws : List ℕ)
    → Owned m pc
    → pc i ≡ holding
    → m.waiters ≡ ws
    → Owned (unlock_with ws m sched).0 (handed ws (update pc i outside))
unfolding unlock_with
unlocks-Owned i sched ws (inl (free, none_waits, nobody)) at e = absurd (nobody i at)
unlocks-Owned i sched [] (inr (taken, (o, holds, only))) at e =
    inl (refl, e, λ j q. ground (arith, only j, only i))
unlocks-Owned i sched (h ∷ ws) (inr (taken, (o, holds, only))) at e =
    inr (taken, (h, ground arith, λ j q. ground (arith, only j, only i)))

readies-Inv :
    {m : AsyncMutex} {pc : ℕ → Pc} (i : ℕ)
    → Inv m pc
    → pc i ≡ outside
    → Inv (await_ready m).0 (update pc i (if (await_ready m).1 then holding else trying))
unfolding await_ready
readies-Inv i inv at = record {
  owned = readies-Owned i inv.owned at;
  queue = λ j. ground (arith, inv.queue j, inv.queue i);
}

suspends-Inv :
    {m : AsyncMutex} {pc : ℕ → Pc} (i : ℕ)
    → Inv m pc
    → pc i ≡ trying
    → Inv (await_suspend i m).0 (update pc i (if (await_suspend i m).1 then waiting else holding))
unfolding await_suspend
suspends-Inv {m} i inv at = record {
  owned = suspends-Owned i inv.owned at;
  queue = λ j. ground (arith, inv.queue j, inv.queue i, count-append j m.waiters (i ∷ []));
}

unlocks-Inv :
    {m : AsyncMutex} {pc : ℕ → Pc} (i : ℕ) (sched : Scheduler) (ws : List ℕ)
    → Inv m pc
    → pc i ≡ holding
    → m.waiters ≡ ws
    → Inv (unlock_with ws m sched).0 (handed ws (update pc i outside))
unfolding unlock_with
unlocks-Inv i sched [] inv at e = record {
  owned = unlocks-Owned i sched [] inv.owned at e;
  queue = λ j. ground (arith, inv.queue j, inv.queue i);
}
unlocks-Inv i sched (h ∷ ws) inv at e = record {
  owned = unlocks-Owned i sched (h ∷ ws) inv.owned at e;
  queue = λ j. ground (arith, inv.queue j, inv.queue i, inv.queue h);
}

Step-Inv : {s s' : System} → Step s s' → Inv s.mutex s.pc → Inv s'.mutex s'.pc
unfolding unlock
Step-Inv (readies i at) inv = readies-Inv i inv at
Step-Inv (suspends i at) inv = suspends-Inv i inv at
Step-Inv {s} (unlocks i at) inv = unlocks-Inv i s.scheduler s.mutex.waiters inv at refl

pub Reach-Inv : {sched : Scheduler} {s : System} → Reach sched s → Inv s.mutex s.pc
Reach-Inv start = record { owned = inl (refl, refl, λ i q. cc); queue = λ i. refl }
Reach-Inv (next r st) = Step-Inv st (Reach-Inv r)

Owned-unique :
    {m : AsyncMutex} {pc : ℕ → Pc}
    → Owned m pc
    → (i j : ℕ) → pc i ≡ holding
    → pc j ≡ holding
    → i ≡ j
Owned-unique (inl (free, none_waits, nobody)) i j hi hj = absurd (nobody i hi)
Owned-unique (inr (taken, (o, holds, only))) i j hi hj = only i hi ∙ sym (only j hj)

Owned-holder :
    {m : AsyncMutex} {pc : ℕ → Pc}
    → Owned m pc
    → (i : ℕ) → 0 < count i m.waiters
    → (m.locked ≡ true) × ((o : ℕ) × (pc o ≡ holding))
Owned-holder (inl (free, none_waits, nobody)) i w = absurd (omega (arith, ap (count i) none_waits))
Owned-holder (inr (taken, (o, holds, only))) i w = (taken, (o, holds))

-- In every reachable state two coroutines that hold the lock are the same.
pub mutual_exclusion :
    {sched : Scheduler} {s : System}
    → Reach sched s
    → (i j : ℕ) → s.pc i ≡ holding
    → s.pc j ≡ holding
    → i ≡ j
mutual_exclusion r i j hi hj = Owned-unique (Reach-Inv r).owned i j hi hj

-- In every reachable state in which a coroutine is suspended in the wait queue, the mutex is locked
-- and a coroutine holds it.
waiter-has_holder :
    {sched : Scheduler} {s : System}
    → Reach sched s
    → (i : ℕ) → s.pc i ≡ waiting
    → (s.mutex.locked ≡ true) × ((o : ℕ) × (s.pc o ≡ holding))
waiter-has_holder {s} r i w = Owned-holder inv.owned i (omega (arith, inv.queue i, ap waits w))
  where
    inv : Inv s.mutex s.pc
    inv = Reach-Inv r

-- Baton passing: in a reachable state, while others wait, the unlock of the holder keeps the mutex
-- locked, gives the lock to the coroutine that has waited longest, and makes its task the last of the
-- global queue.
unlock-hands_over :
    {sched : Scheduler} {s : System}
    → Reach sched s
    → (i h : ℕ) (rest : List ℕ) → s.pc i ≡ holding
    → s.mutex.waiters ≡ h ∷ rest
    → (s' : System) × Step s s'
      × (s'.mutex.locked ≡ true)
      × (s'.mutex.waiters ≡ rest)
      × (s'.pc h ≡ holding)
      × (s'.pc i ≡ outside)
      × (s'.scheduler.global_queue ≡ s.scheduler.global_queue ++ queued h)
unfolding unlock unlock_with
unlock-hands_over {s} r i h rest at e = (
  _,
  unlocks i at,
  rw e (Owned-holder inv.owned h some_wait).0,
  rw e,
  rw e (update_here s.pc),
  rw e (ground (arith, in_queue)),
  rw e (spawn_address-queue h s.scheduler),
)
  where
    inv : Inv s.mutex s.pc
    inv = Reach-Inv r

    some_wait : 0 < count h s.mutex.waiters
    some_wait = rw e (ground arith)

    in_queue : s.pc h ≡ waiting
    in_queue = ground (arith, inv.queue h, some_wait)

    update_here : (f : ℕ → Pc) → update (update f i outside) h holding h ≡ holding
    update_here f = ground arith
