-- ===== src/Channel/History/Balance.antt =====
-- Over a whole history the values that go in are those that come out.
use tiny_coro_build_your_own.Common.{
  ℕ, ◌≡◌, refl, sym, ap, ap₂, ◌∙◌, ◌≢◌, Bool, true, false, inl, inr, List, [], ◌∷◌, ◌++◌, arith,
  update, All, append-nil, append_assoc, Bool-cases,
}
use tiny_coro_build_your_own.Channel.{
  SenderWaiter, SendAwaiter, State, send, recv, send_suspend, close, fail_send,
}
use tiny_coro_build_your_own.Channel.Branches.{send_suspend-closed, close-closed}
use tiny_coro_build_your_own.Channel.Invariant.{Inv, send_suspend-Inv, recv_suspend-Inv, close-Inv}
use tiny_coro_build_your_own.Channel.Delivery.{
  pending, waiting_values, handed_off, send-delivers, recv-delivers,
}
use tiny_coro_build_your_own.Channel.Closing.{close-pending}
use tiny_coro_build_your_own.Channel.History.{
  Op, sends, recvs, closes, step, run, accepted, delivered, dropped, total, Fresh, AllFresh,
}
use tiny_coro_build_your_own.Channel.History.Shut.{pick, pass, close-shut, total-shut}

module _ {ℓ} {T : Type ℓ} where
  -- Each send, receive and close keeps the channel's invariant.
  pub step-Inv : (o : Op T) (s : State T) → Inv s.chan → Inv (step o s).chan
  unfolding step send recv
  step-Inv (sends this h v) s i = send_suspend-Inv this h (send this v s) i
  step-Inv (recvs this h) s i = recv_suspend-Inv this h (recv this s) i
  step-Inv closes s i = close-Inv s i

  waiting_values-send :
      (this : ℕ) (a : SendAwaiter T) (f : ℕ → SendAwaiter T) (ws : List SenderWaiter)
      → All (λ (w : SenderWaiter). this ≢ w.value_ptr) ws
      → waiting_values (update f this a) ws ≡ waiting_values f ws
  waiting_values-send this a f [] fresh = refl
  waiting_values-send this a f (w ∷ ws) fresh =
      ap₂ (λ (x : T) xs. x ∷ xs) (apart fresh.0) (waiting_values-send this a f ws fresh.1)
    where
      apart : this ≢ w.value_ptr → (update f this a w.value_ptr).value ≡ (f w.value_ptr).value
      apart ne = ground arith

  closed-senders : (s : State T) → Inv s.chan → s.chan.closed ≡ true → s.chan.send_waiters ≡ []
  closed-senders s i shut = ground (arith, i.quiet)

  -- On a closed channel a send fails, and nothing under way changes.
  sends-closed :
      (this h : ℕ) (v : T) (s : State T)
      → Inv s.chan
      → s.chan.closed ≡ true
      → pending (send_suspend this h (send this v s)).0 ≡ pending s
  unfolding send
  sends-closed this h v s i shut =
      ap (λ (r : State T × Bool). pending r.0) (send_suspend-closed this h (send this v s) shut)
      ∙ ap (λ ws. s.chan.buffer ++ waiting_values (fail_send this (send this v s)).senders ws)
          none_wait
      ∙ sym (ap (λ ws. s.chan.buffer ++ waiting_values s.senders ws) none_wait)
    where
      none_wait : s.chan.send_waiters ≡ []
      none_wait = closed-senders s i shut

  sends-open :
      (this h : ℕ) (v : T) (s : State T)
      → Inv s.chan
      → All (λ (w : SenderWaiter). this ≢ w.value_ptr) s.chan.send_waiters
      → s.chan.closed ≡ false
      → handed_off s.chan.recv_waiters (send_suspend this h (send this v s)).0
          ++ pending (send_suspend this h (send this v s)).0
        ≡ pending s ++ v ∷ []
  unfolding send
  sends-open this h v s i fresh o =
      send-delivers this h (send this v s) i o
      ∙ ap₂ (λ xs y. (s.chan.buffer ++ xs) ++ y ∷ [])
          (waiting_values-send this (record { value = v; result = true }) s.senders
            s.chan.send_waiters fresh)
          (stored s.senders)
    where
      stored :
          (f : ℕ → SendAwaiter T)
          → (update f this (record { value = v; result = true }) this).value ≡ v
      stored f = ground arith

  -- Each call balances.
  step-balances :
      (o : Op T) (s : State T)
      → Inv s.chan
      → Fresh o s
      → pending s ++ accepted o s ≡ (delivered o s ++ pending (step o s)) ++ dropped o s
  unfolding step recv
  step-balances (sends this h v) s i fresh = elim (Bool-cases s.chan.closed) [
    | inl shut ↦
        ap (λ xs. pending s ++ xs) (pick [] (v ∷ []) shut)
        ∙ append-nil _
        ∙ sym (sends-closed this h v s i shut)
        ∙ sym (append-nil _)
        ∙ ap (λ xs. (xs ++ pending (send_suspend this h (send this v s)).0) ++ [])
            (sym (pick [] _ shut))
    | inr o ↦
        ap (λ xs. pending s ++ xs) (pass [] (v ∷ []) o)
        ∙ sym (sends-open this h v s i fresh o)
        ∙ sym (append-nil _)
        ∙ ap (λ xs. (xs ++ pending (send_suspend this h (send this v s)).0) ++ [])
            (sym (pass [] _ o))
  ]
  step-balances (recvs this h) s i fresh =
      append-nil _ ∙ sym (append-nil _ ∙ (recv-delivers this h (recv this s)).0)
  step-balances closes s i fresh = elim (Bool-cases s.chan.closed) [
    | inl shut ↦
        append-nil _
        ∙ sym (ap (λ t. pending t) (close-closed s shut))
        ∙ sym (append-nil _)
        ∙ ap (λ xs. pending (close s) ++ xs) (sym (pick [] _ shut))
    | inr o ↦
        append-nil _ ∙ close-pending s o ∙ ap (λ xs. pending (close s) ++ xs) (sym (pass [] _ o))
  ]

  -- Two balances in a row, where the first call drops nothing, or the rest takes and drops nothing.
  chain :
      (before now after took took_later gave gave_later lost : List T)
      → before ++ took ≡ (gave ++ now) ++ []
      → now ++ took_later ≡ (gave_later ++ after) ++ lost
      → before ++ (took ++ took_later) ≡ ((gave ++ gave_later) ++ after) ++ lost
  chain before now after took took_later gave gave_later lost e e' =
      sym (append_assoc before took took_later)
      ∙ ap (λ xs. xs ++ took_later) (e ∙ append-nil _)
      ∙ append_assoc gave now took_later
      ∙ ap (λ xs. gave ++ xs) (e' ∙ append_assoc gave_later after lost)
      ∙ sym (append_assoc gave gave_later (after ++ lost))
      ∙ sym (append_assoc (gave ++ gave_later) after lost)

  chain_closed :
      (before now after took_later gave_later lost lost_later : List T)
      → took_later ≡ []
      → lost_later ≡ []
      → before ++ [] ≡ now ++ lost
      → now ++ took_later ≡ (gave_later ++ after) ++ lost_later
      → before ++ took_later ≡ (gave_later ++ after) ++ (lost ++ lost_later)
  chain_closed before now after took_later gave_later lost lost_later e e' b b' =
      ap (λ xs. before ++ xs) e
      ∙ b
      ∙ ap₂ (λ xs ys. xs ++ ys)
          (sym (append-nil now)
            ∙ sym (ap (λ xs. now ++ xs) e)
            ∙ b'
            ∙ ap (λ xs. (gave_later ++ after) ++ xs) e'
            ∙ append-nil _)
          (sym (ap (λ xs. lost ++ xs) e' ∙ append-nil lost))

  -- Over any history of calls on a channel that satisfies the invariant, in which no awaiter of a new
  -- send stands where that of a waiting sender stands, the values that the channel took, after those under way at the start, are those
  -- that it gave out, then those still under way, then those that `close` dropped: in the order of the
  -- sends, none lost otherwise, none made up.
  pub values-balance :
      (os : List (Op T)) (s : State T)
      → Inv s.chan
      → AllFresh os s
      → pending s ++ total accepted os s
        ≡ (total delivered os s ++ pending (run os s)) ++ total dropped os s
  unfolding run step
  values-balance [] s i fresh = refl
  values-balance (sends this h v ∷ os) s i fresh =
      let o = sends this h v in
      chain (pending s) (pending (step o s)) _ (accepted o s) _ (delivered o s) _ _
        (step-balances o s i fresh.0) (values-balance os (step o s) (step-Inv o s i) fresh.1)
  values-balance (recvs this h ∷ os) s i fresh =
      let o = recvs this h in
      chain (pending s) (pending (step o s)) _ [] _ (delivered o s) _ _
        (step-balances o s i fresh.0) (values-balance os (step o s) (step-Inv o s i) fresh.1)
  values-balance (closes ∷ os) s i fresh =
      let later = total-shut os (step closes s) (close-shut s) in
      chain_closed (pending s) (pending (step closes s)) _ (total accepted os (step closes s))
        (total delivered os (step closes s)) (dropped closes s) (total dropped os (step closes s))
        later.0 later.1 (step-balances closes s i fresh.0)
        (values-balance os (step closes s) (step-Inv closes s i) fresh.1)
