-- ===== src/Reactor/Order.antt =====
-- Timers fire in order, when they are due, and each of them once.
use tiny_coro_build_your_own.Common.{
  ℕ, suc, ◌≤◌, ◌<◌, ◌≡◌, refl, sym, ap, ◌∙◌, inl, inr, List, [], ◌∷◌, ◌++◌, arith, leb, All,
  append_assoc, Bool-cases, append-nil, leb→le,
}
use mathlib.Core.List.{Perm}
use mathlib.Core.List.Perm
use tiny_coro_build_your_own.Task.{Task}
use tiny_coro_build_your_own.Timer
use tiny_coro_build_your_own.Timer.{Timer, Timers, greater}
use tiny_coro_build_your_own.Scheduler.{World}
use tiny_coro_build_your_own.Scheduler.Spawn.{queued, spawn_address-queue}
use tiny_coro_build_your_own.Reactor.{spawn_address, fire}

-- Each timer expires no later than those behind it.
abbrev pub IsSorted : Timers → Type 0
IsSorted [] = Unit
IsSorted (t ∷ ts) = All (λ (u : Timer). t.expiry ≤ u.expiry) ts × IsSorted ts

push-All :
    (n : ℕ) (t : Timer) (ts : Timers)
    → n ≤ t.expiry
    → All (λ (u : Timer). n ≤ u.expiry) ts
    → All (λ (u : Timer). n ≤ u.expiry) (Timer.push t ts)
unfolding Timer.push
push-All n t [] h all = (h, tt)
push-All n t (u ∷ us) h all = ground (arith, push-All n t us h all.1)

All-le :
    (m n : ℕ) (ts : Timers)
    → m ≤ n
    → All (λ (u : Timer). n ≤ u.expiry) ts
    → All (λ (u : Timer). m ≤ u.expiry) ts
All-le m n [] h all = tt
All-le m n (u ∷ us) h all = (omega arith, All-le m n us h all.1)

-- A push keeps the queue of timers in order.
pub push-IsSorted : (t : Timer) (ts : Timers) → IsSorted ts → IsSorted (Timer.push t ts)
unfolding Timer.push
push-IsSorted t [] s = (tt, tt)
push-IsSorted t (u ∷ us) s = elim (Bool-cases (greater u t)) [
  | inl later ↦
      rw later ((ground arith, All-le t.expiry u.expiry us (ground arith) s.0), (s.0, s.1))
  | inr sooner ↦
      rw sooner (ground (arith, push-All u.expiry t us (ground arith) s.0), push-IsSorted t us s.1)
]

-- The queue gains the timer that is pushed, no other.
pub push-perm : (t : Timer) (ts : Timers) → Perm (Timer.push t ts) (t ∷ ts)
unfolding Timer.push
push-perm t [] = Perm.refl (t ∷ [])
push-perm t (u ∷ us) = elim (Bool-cases (greater u t)) [
  | inl later ↦ rw later (Perm.refl (t ∷ u ∷ us))
  | inr sooner ↦ rw sooner (Perm.trans (Perm.cons u (push-perm t us)) (Perm.swap t u us))
]

-- The tasks that the handles of these timers make, without the null ones.
abbrev pub tasks_of : Timers → List Task
tasks_of [] = []
tasks_of (t ∷ ts) = queued t.handle ++ tasks_of ts

-- The first of these timers, if any, is not due.
abbrev pub NotDue : ℕ → Timers → Type 0
NotDue now [] = Unit
NotDue now (t ∷ ts) = now < t.expiry

-- A pass over the timers `ts`, which leaves `left` of them, and makes a queue of tasks out of another one.
abbrev pub Fires : ℕ → Timers → Timers → List Task → List Task → Type 0
Fires now ts left before after =
    (due : Timers) × (ts ≡ due ++ left)
    × All (λ (t : Timer). t.expiry ≤ now) due
    × NotDue now left
    × (after ≡ before ++ tasks_of due)

-- One pass of the reactor over its timers takes those that are due from the front, up to the first that is
-- not, and keeps the rest. Those taken are spawned, in the order of the queue, behind the tasks that were
-- there.
pub fire-Fires :
    (now : ℕ) (ts : Timers) (w : World)
    → Fires now ts
        (fire now ts w).0
        w.scheduler.global_queue
        (fire now ts w).1.scheduler.global_queue
unfolding fire spawn_address
fire-Fires now [] w = ([], refl, tt, tt, sym (append-nil _))
fire-Fires now (t ∷ ts) w = elim (Bool-cases (leb t.expiry now)) [
  | inl due_now ↦
      let (due, split, all, rest, queue) = fire-Fires now ts (spawn_address t.handle w) in
      rw due_now (
        t ∷ due,
        ap (λ us. t ∷ us) split,
        (leb→le t.expiry now due_now, all),
        rest,
        queue
            ∙ ap (λ xs. xs ++ tasks_of due) (spawn_address-queue t.handle w.scheduler)
            ∙ append_assoc w.scheduler.global_queue (queued t.handle) (tasks_of due),
      )
  | inr not_yet ↦ rw not_yet ([], refl, tt, ground arith, sym (append-nil _))
]

-- In a queue that is in order, no timer that is due is left behind.
pub fire-IsDone :
    (now : ℕ) (ts : Timers) (w : World)
    → IsSorted ts
    → All (λ (t : Timer). now < t.expiry) (fire now ts w).0
unfolding fire
fire-IsDone now [] w s = tt
fire-IsDone now (t ∷ ts) w s = elim (Bool-cases (leb t.expiry now)) [
  | inl due_now ↦ rw due_now (fire-IsDone now ts (spawn_address t.handle w) s.1)
  | inr not_yet ↦ rw not_yet (ground arith, All-le (suc now) t.expiry ts (ground arith) s.0)
]
