-- ===== src/AsyncMutex/Fairness.antt =====
-- include/async_mutex.h: the lock goes round the wait queue, whatever other coroutines do meanwhile.
use tiny_coro_build_your_own.Common.{
  ℕ, ◌+◌, ◌≡◌, refl, ap, ◌∙◌, ◌⊎◌, inl, inr, List, [], ◌∷◌, ◌++◌, arith, length, append_assoc, Bool,
  true, false, if◌then◌else◌, update,
}
use tiny_coro_build_your_own.AsyncMutex.{
  AsyncMutex, await_ready, await_suspend, unlock, unlock_with,
}
use tiny_coro_build_your_own.AsyncMutex.System.{
  holding, outside, System, handed, Step, readies, suspends, unlocks,
}

pub data Run (s : System) : System → Type 0 where
  stop : Run s s
  more : {s' s'' : System} → Run s s' → Step s' s'' → Run s s''

abbrev one_if_unlock : {s s' : System} → Step s s' → ℕ
one_if_unlock (unlocks i at) = 1
one_if_unlock _ = 0

abbrev pub unlocks_in : {s s' : System} → Run s s' → ℕ
unlocks_in stop = 0
unlocks_in (more run st) = one_if_unlock st + unlocks_in run

-- Somewhere on the run this coroutine has the lock.
abbrev pub Gets : ℕ → {s s' : System} → Run s s' → Type 0
Gets h {s} stop = s.pc h ≡ holding
Gets h (more {s'} {s''} run st) = Gets h run ⊎ (s''.pc h ≡ holding)

-- This coroutine waits behind so many others.
abbrev Behind : ℕ → ℕ → AsyncMutex → Type 0
Behind h n m =
    (before : List ℕ) × (after : List ℕ) × (m.waiters ≡ before ++ h ∷ after) × (length before ≡ n)

readies-waiters : (m : AsyncMutex) → (await_ready m).0.waiters ≡ m.waiters
unfolding await_ready
readies-waiters m = ground arith

suspends-Behind : (h n i : ℕ) (m : AsyncMutex) → Behind h n m → Behind h n (await_suspend i m).0
unfolding await_suspend
suspends-Behind h n i m (before, after, e, l) = by_locked m.locked
  where
    by_locked :
        (b : Bool)
        → Behind h n (
            let r : AsyncMutex × Bool =
              if b
              then (record m { waiters = m.waiters ++ i ∷ [] }, true)
              else (record m { locked = true }, false) in
            r.0)
    by_locked true = (
      before,
      after ++ i ∷ [],
      ap (λ ws. ws ++ i ∷ []) e ∙ append_assoc before (h ∷ after) (i ∷ []),
      l,
    )
    by_locked false = (before, after, e, l)

-- An unlock hands the lock to this coroutine, or takes one from the front of those before it.
unlocks-Behind :
    (s : System) (h n i : ℕ)
    → Behind h n s.mutex
    → (handed s.mutex.waiters (update s.pc i outside) h ≡ holding)
      ⊎ ((k : ℕ) × Behind h k (unlock s.mutex s.scheduler).0 × (k + 1 ≡ n))
unfolding unlock unlock_with
unlocks-Behind s h n i ([], after, e, l) = inl (rw e (ground arith))
unlocks-Behind s h n i (w ∷ before, after, e, l) =
    inr (length before, rw e (before, after, refl, refl), omega (arith, l))

turn_step :
    {s s' : System} (h n : ℕ) (st : Step s s')
    → Behind h n s.mutex
    → (s'.pc h ≡ holding) ⊎ ((k : ℕ) × Behind h k s'.mutex × (k + one_if_unlock st ≡ n))
turn_step {s} h n (readies i at) (before, after, e, l) =
    inr (n, (before, after, readies-waiters s.mutex ∙ e, l), omega arith)
turn_step {s} h n (suspends i at) b = inr (n, suspends-Behind h n i s.mutex b, omega arith)
turn_step {s} h n (unlocks i at) b = unlocks-Behind s h n i b

turn :
    {s s' : System} (h n : ℕ) (run : Run s s')
    → Behind h n s.mutex
    → Gets h run ⊎ ((k : ℕ) × Behind h k s'.mutex × (k + unlocks_in run ≡ n))
turn h n stop b = inr (n, b, omega arith)
turn h n (more {s'} run st) b = elim (turn h n run b) [
  | inl got ↦ inl (inl got)
  | inr (k, b', e) ↦ elim (turn_step h k st b') [
    | inl here ↦ inl (inr here)
    | inr (k', b'', e') ↦ inr (k', b'', omega (arith, e, e'))
  ]
]
