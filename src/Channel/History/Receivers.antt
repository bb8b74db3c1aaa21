-- ===== src/Channel/History/Receivers.antt =====
-- Over a whole history each receive that has to wait is answered once, in its turn.
use tiny_coro_build_your_own.Common.{
  ℕ, ◌≡◌, refl, sym, ap, ap₂, ◌∙◌, Bool, true, false, inl, inr, List, [], ◌∷◌, ◌++◌, ltb, length,
  ◌⊎◌, if◌then◌else◌, append-nil, append_assoc, Bool-cases,
}
use tiny_coro_build_your_own.Channel.{
  SenderWaiter, RecvWaiter, Channel, State, send, recv, send_suspend, recv_suspend, close, give,
  take, take_direct, refill,
}
use tiny_coro_build_your_own.Channel.Branches.{
  send_suspend-closed, send_suspend-open, close-closed, close-chan,
}
use tiny_coro_build_your_own.Channel.Invariant.{Inv}
use tiny_coro_build_your_own.Channel.Delivery.{pending}
use tiny_coro_build_your_own.Channel.History.{
  Op, sends, recvs, closes, step, run, accepted, delivered, dropped, total, AllFresh,
}
use tiny_coro_build_your_own.Channel.History.Shut.{pick, pass}
use tiny_coro_build_your_own.Channel.History.Balance.{step-Inv, values-balance}

-- The awaiters of these receivers.
abbrev pub awaiters : List RecvWaiter → List ℕ
awaiters [] = []
awaiters (w ∷ ws) = w.result_ptr ∷ awaiters ws

abbrev first : List RecvWaiter → List ℕ
first [] = []
first (w ∷ ws) = w.result_ptr ∷ []

awaiters-append :
    (ws : List RecvWaiter) (h this : ℕ)
    → awaiters (ws ++ record { handle = h; result_ptr = this } ∷ []) ≡ awaiters ws ++ this ∷ []
awaiters-append [] h this = refl
awaiters-append (w ∷ ws) h this = ap (λ xs. w.result_ptr ∷ xs) (awaiters-append ws h this)

chain_up :
    (before now after took took_later gave gave_later : List ℕ)
    → before ++ took ≡ gave ++ now
    → now ++ took_later ≡ gave_later ++ after
    → before ++ (took ++ took_later) ≡ (gave ++ gave_later) ++ after
chain_up before now after took took_later gave gave_later e e' =
    sym (append_assoc before took took_later)
    ∙ ap (λ xs. xs ++ took_later) e
    ∙ append_assoc gave now took_later
    ∙ ap (λ xs. gave ++ xs) e'
    ∙ sym (append_assoc gave gave_later after)

at_once :
    (this : ℕ) (ws : List RecvWaiter) → ws ≡ [] → awaiters ws ++ this ∷ [] ≡ this ∷ awaiters ws
at_once this ws e = ap (λ us. awaiters us ++ this ∷ []) e ∙ sym (ap (λ us. this ∷ awaiters us) e)

module _ {ℓ} {T : Type ℓ} where
  -- The awaiter of a new receive.
  abbrev pub asked : Op T → List ℕ
  asked (sends this h v) = []
  asked (recvs this h) = this ∷ []
  asked closes = []

  abbrev pub all_asked : List (Op T) → List ℕ
  all_asked [] = []
  all_asked (o ∷ os) = asked o ++ all_asked os

  -- The receives that a call ends: a send on an open channel the one that waits longest, a receive its
  -- own unless it suspends, `close` all that wait.
  abbrev pub answered : Op T → State T → List ℕ
  answered (sends this h v) s = if s.chan.closed then [] else first s.chan.recv_waiters
  answered (recvs this h) s = if (recv_suspend this h (recv this s)).1 then [] else this ∷ []
  answered closes s = if s.chan.closed then [] else awaiters s.chan.recv_waiters

  abbrev pub all_answered : List (Op T) → State T → List ℕ
  all_answered [] s = []
  all_answered (o ∷ os) s = answered o s ++ all_answered os (step o s)

  give-answers :
      (ws : List RecvWaiter) (this h : ℕ) (s : State T)
      → s.chan.recv_waiters ≡ ws
      → awaiters ws ≡ first ws ++ awaiters (give ws this h s).0.chan.recv_waiters
  give-answers [] this h s e = elim (Bool-cases (ltb (length s.chan.buffer) s.chan.capacity)) [
    | inl room ↦ rw room (sym (ap awaiters e))
    | inr full ↦ rw full (sym (ap awaiters e))
  ]
  give-answers (w ∷ ws) this h s e = refl

  abbrev Answers : ℕ → State T → State T × Bool → Type 0
  Answers this s (s', suspended) =
      awaiters s.chan.recv_waiters ++ this ∷ []
      ≡ (if suspended then [] else this ∷ []) ++ awaiters s'.chan.recv_waiters

  take_direct-Answers :
      (ws : List SenderWaiter) (this h : ℕ) (s : State T)
      → Inv s.chan
      → s.chan.send_waiters ≡ ws
      → Answers this s (take_direct ws this h s)
  take_direct-Answers [] this h s i e = elim (Bool-cases s.chan.closed) [
    | inl shut ↦ rw shut (at_once this s.chan.recv_waiters (nobody shut i.quiet))
    | inr o ↦ rw o (sym (awaiters-append s.chan.recv_waiters h this))
  ]
    where
      nobody :
          s.chan.closed ≡ true
          → (s.chan.closed ≡ false) ⊎ ((s.chan.send_waiters ≡ []) × (s.chan.recv_waiters ≡ []))
          → s.chan.recv_waiters ≡ []
      nobody shut (inl o) = absurd (cc)
      nobody shut (inr (_, none)) = none
  take_direct-Answers (w ∷ ws) this h s i e = at_once this s.chan.recv_waiters (nobody i.drained)
    where
      nobody :
          (s.chan.recv_waiters ≡ []) ⊎ ((s.chan.buffer ≡ []) × (s.chan.send_waiters ≡ []))
          → s.chan.recv_waiters ≡ []
      nobody (inl none) = none
      nobody (inr (_, none)) = absurd (let f = sym e ∙ none in cc)

  refill-answers :
      (ws : List SenderWaiter) (s : State T) → (refill ws s).chan.recv_waiters ≡ s.chan.recv_waiters
  refill-answers [] s = refl
  refill-answers (w ∷ ws) s = refl

  take_by-Answers :
      (xs : List T) (this h : ℕ) (s : State T)
      → Inv s.chan
      → s.chan.buffer ≡ xs
      → Answers this s (take xs this h s)
  take_by-Answers [] this h s i e = take_direct-Answers s.chan.send_waiters this h s i refl
  take_by-Answers (x ∷ rest) this h s i e =
      at_once this s.chan.recv_waiters (nobody i.drained)
      ∙ sym (ap (λ ws. this ∷ awaiters ws) (refill-answers s.chan.send_waiters _))
    where
      nobody :
          (s.chan.recv_waiters ≡ []) ⊎ ((s.chan.buffer ≡ []) × (s.chan.send_waiters ≡ []))
          → s.chan.recv_waiters ≡ []
      nobody (inl none) = none
      nobody (inr (none, _)) = absurd (let f = sym e ∙ none in cc)

  take-Answers : (this h : ℕ) (s : State T) → Inv s.chan → Answers this s (recv_suspend this h s)
  unfolding recv_suspend
  take-Answers this h s i = take_by-Answers s.chan.buffer this h s i refl

  step-answers :
      (o : Op T) (s : State T)
      → Inv s.chan
      → awaiters s.chan.recv_waiters ++ asked o
        ≡ answered o s ++ awaiters (step o s).chan.recv_waiters
  unfolding step send recv
  step-answers (sends this h v) s i = elim (Bool-cases s.chan.closed) [
    | inl shut ↦
        append-nil _
        ∙ sym (
            ap (λ (r : State T × Bool). awaiters r.0.chan.recv_waiters)
              (send_suspend-closed this h (send this v s) shut))
        ∙ ap (λ xs. xs ++ awaiters (send_suspend this h (send this v s)).0.chan.recv_waiters)
            (sym (pick [] _ shut))
    | inr o ↦
        append-nil _
        ∙ give-answers s.chan.recv_waiters this h (send this v s) refl
        ∙ sym (
            ap (λ (r : State T × Bool). first s.chan.recv_waiters ++ awaiters r.0.chan.recv_waiters)
              (send_suspend-open this h (send this v s) o))
        ∙ ap (λ xs. xs ++ awaiters (send_suspend this h (send this v s)).0.chan.recv_waiters)
            (sym (pass [] _ o))
  ]
  step-answers (recvs this h) s i = take-Answers this h (recv this s) i
  step-answers closes s i = elim (Bool-cases s.chan.closed) [
    | inl shut ↦
        append-nil _
        ∙ sym (ap (λ (t : State T). awaiters t.chan.recv_waiters) (close-closed s shut))
        ∙ ap (λ xs. xs ++ awaiters (close s).chan.recv_waiters) (sym (pick [] _ shut))
    | inr o ↦
        ap₂ (λ xs ys. xs ++ ys) (sym (pass [] (awaiters s.chan.recv_waiters) o))
          (sym (ap (λ (c : Channel T). awaiters c.recv_waiters) (close-chan s o)))
  ]

  run-answers :
      (os : List (Op T)) (s : State T)
      → Inv s.chan
      → awaiters s.chan.recv_waiters ++ all_asked os
        ≡ all_answered os s ++ awaiters (run os s).chan.recv_waiters
  unfolding run
  run-answers [] s i = append-nil _
  run-answers (o ∷ os) s i =
      chain_up (awaiters s.chan.recv_waiters) (awaiters (step o s).chan.recv_waiters) _ (asked o) _
        (answered o s) _ (step-answers o s i) (run-answers os (step o s) (step-Inv o s i))

  -- Take any history of calls on a channel that satisfies the invariant, in which no awaiter of a new send stands where
  -- that of a waiting sender stands. The values that the channel took, after those under way at the start, are those that
  -- it gave out, then those still under way, then those that `close` dropped, in the order of the sends. And the awaiters
  -- of the receives, after those that wait at the start, are those that calls have answered, then those that still wait,
  -- in the order of the receives: a send on an open channel answers the receive that waits longest, with its value, a
  -- receive that does not suspend its own, and `close` all that wait.
  pub run-balances :
      (os : List (Op T)) (s : State T)
      → Inv s.chan
      → AllFresh os s
      → (pending s ++ total accepted os s
          ≡ (total delivered os s ++ pending (run os s)) ++ total dropped os s)
        × (awaiters s.chan.recv_waiters ++ all_asked os
            ≡ all_answered os s ++ awaiters (run os s).chan.recv_waiters)
  run-balances os s i fresh = (values-balance os s i fresh, run-answers os s i)
