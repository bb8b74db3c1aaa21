-- ===== src/Channel/Branches.antt =====
-- The operations of a channel by the tests that they make.
use tiny_coro_build_your_own.Common.{
  ℕ, ◌≡◌, refl, ap, ◌∙◌, arith, true, false, List, [], ◌∷◌, if◌then◌else◌,
}
use tiny_coro_build_your_own.Channel.{
  SenderWaiter, RecvWaiter, Channel, State, with_chan, send_suspend, close, wake_senders,
  wake_receivers, fail_send, give, clear_result, resume_later,
}

module _ {ℓ} {T : Type ℓ} where
  pub send_suspend-closed :
      (this h : ℕ) (s : State T)
      → s.chan.closed ≡ true
      → send_suspend this h s ≡ (fail_send this s, false)
  unfolding send_suspend
  send_suspend-closed this h s e =
      ap (λ b. if b then (fail_send this s, false) else give s.chan.recv_waiters this h s) e

  pub send_suspend-open :
      (this h : ℕ) (s : State T)
      → s.chan.closed ≡ false
      → send_suspend this h s ≡ give s.chan.recv_waiters this h s
  unfolding send_suspend
  send_suspend-open this h s e =
      ap (λ b. if b then (fail_send this s, false) else give s.chan.recv_waiters this h s) e

  pub close-closed : (s : State T) → s.chan.closed ≡ true → close s ≡ s
  unfolding close
  close-closed s e = ap (λ b. if b then s else wake_all s) e
    where
      wake_all : State T → State T
      wake_all s =
          wake_receivers s.chan.recv_waiters
            (wake_senders s.chan.send_waiters (with_chan (λ c. record c { closed = true }) s))

  pub close-open :
      (s : State T)
      → s.chan.closed ≡ false
      → close s
        ≡ wake_receivers s.chan.recv_waiters
            (wake_senders s.chan.send_waiters (with_chan (λ c. record c { closed = true }) s))
  unfolding close
  close-open s e = ap (λ b. if b then s else wake_all s) e
    where
      wake_all : State T → State T
      wake_all s =
          wake_receivers s.chan.recv_waiters
            (wake_senders s.chan.send_waiters (with_chan (λ c. record c { closed = true }) s))

  -- The loops of `close` change nothing of the channel but their own queue.
  pub wake_senders-chan :
      (ws : List SenderWaiter) (s : State T)
      → (wake_senders ws s).chan ≡ record (s.chan) { send_waiters = [] }
  unfolding wake_senders
  wake_senders-chan [] s = refl
  wake_senders-chan (w ∷ ws) s = wake_senders-chan ws _

  clear_result-chan : (p : ℕ) (s : State T) → (clear_result p s).chan ≡ s.chan
  clear_result-chan p s = ground arith

  pub wake_receivers-chan :
      (ws : List RecvWaiter) (s : State T)
      → (wake_receivers ws s).chan ≡ record (s.chan) { recv_waiters = [] }
  unfolding wake_receivers
  wake_receivers-chan [] s = refl
  wake_receivers-chan (w ∷ ws) s =
      wake_receivers-chan ws (resume_later w.handle (clear_result w.result_ptr s))
      ∙ ap (λ (c : Channel T). record c { recv_waiters = [] }) (clear_result-chan w.result_ptr s)

  -- `close` on an open channel empties the two queues of waiters and keeps the buffer.
  pub close-chan :
      (s : State T)
      → s.chan.closed ≡ false
      → (close s).chan ≡ record (s.chan) { closed = true; send_waiters = []; recv_waiters = [] }
  close-chan s e =
      ap (λ (t : State T). t.chan) (close-open s e)
      ∙ wake_receivers-chan s.chan.recv_waiters _
      ∙ ap (λ (c : Channel T). record c { recv_waiters = [] })
          (wake_senders-chan s.chan.send_waiters (with_chan (λ c. record c { closed = true }) s))
