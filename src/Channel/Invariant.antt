-- ===== src/Channel/Invariant.antt =====
-- What every operation of a channel keeps.
use tiny_coro_build_your_own.Common.{
  ℕ, ◌≤◌, ◌≡◌, refl, ◌⊎◌, inl, inr, false, List, [], ◌∷◌, arith, Bool-cases, length, length-append,
}
use tiny_coro_build_your_own.Channel.{
  SenderWaiter, RecvWaiter, Channel, State, new_channel, send_suspend, recv_suspend, close, give,
  take, take_direct, refill, receive, with_chan,
}
use tiny_coro_build_your_own.Channel.Branches.{
  send_suspend-closed, send_suspend-open, close-closed, close-chan,
}

module _ {ℓ} {T : Type ℓ} where
  -- The buffer is within its capacity; senders wait only while it is full, receivers only while it
  -- and the queue of senders are empty; and after `close` nobody waits.
  pub record Inv (c : Channel T) : Type ℓ where
    pub bounded : length c.buffer ≤ c.capacity
    pub full : (c.send_waiters ≡ []) ⊎ (length c.buffer ≡ c.capacity)
    pub drained : (c.recv_waiters ≡ []) ⊎ ((c.buffer ≡ []) × (c.send_waiters ≡ []))
    pub quiet : (c.closed ≡ false) ⊎ ((c.send_waiters ≡ []) × (c.recv_waiters ≡ []))

  pub new_channel-Inv : (capacity : ℕ) → Inv (new_channel capacity)
  new_channel-Inv capacity = record {
    bounded = omega arith;
    full = inl refl;
    drained = inl refl;
    quiet = inl refl;
  }

  give-Inv :
      (ws : List RecvWaiter) (this h : ℕ) (s : State T)
      → Inv s.chan
      → s.chan.closed ≡ false
      → s.chan.recv_waiters ≡ ws
      → Inv (give ws this h s).0.chan
  give-Inv [] this h s v o e = record {
    bounded = ground (arith, v.bounded, length-append s.chan.buffer ((s.senders this).value ∷ []));
    full = ground (arith, v.bounded, v.full);
    drained = ground arith;
    quiet = ground arith;
  }
  give-Inv (w ∷ ws) this h s v o e = record {
    bounded = v.bounded;
    full = v.full;
    drained = ground (arith, v.drained);
    quiet = ground arith;
  }

  pub send_suspend-Inv :
      (this h : ℕ) (s : State T) → Inv s.chan → Inv (send_suspend this h s).0.chan
  send_suspend-Inv this h s v = elim (Bool-cases s.chan.closed) [
    | inl shut ↦ rw (send_suspend-closed this h s shut) v
    | inr open_ ↦
        rw (send_suspend-open this h s open_) (give-Inv s.chan.recv_waiters this h s v open_ refl)
  ]

  take_direct-Inv :
      (ws : List SenderWaiter) (this h : ℕ) (s : State T)
      → Inv s.chan
      → s.chan.buffer ≡ []
      → s.chan.send_waiters ≡ ws
      → Inv (take_direct ws this h s).0.chan
  take_direct-Inv [] this h s v none_left e = record {
    bounded = ground (arith, v.bounded);
    full = ground (arith, v.full);
    drained = ground (arith, v.drained);
    quiet = ground (arith, v.quiet);
  }
  take_direct-Inv (w ∷ ws) this h s v none_left e = record {
    bounded = v.bounded;
    full = ground (arith, v.full);
    drained = ground (arith, v.drained);
    quiet = ground (arith, v.quiet);
  }

  take_refill-Inv :
      (ws : List SenderWaiter) (x : T) (rest : List T) (this h : ℕ) (s : State T)
      → Inv s.chan
      → s.chan.buffer ≡ x ∷ rest
      → s.chan.send_waiters ≡ ws
      → Inv (refill ws (with_chan (λ c. record c { buffer = rest }) (receive this x s))).chan
  take_refill-Inv [] x rest this h s v e e' = record {
    bounded = ground (arith, v.bounded);
    full = inl e';
    drained = ground (arith, v.drained);
    quiet = ground (arith, v.quiet);
  }
  take_refill-Inv (w ∷ ws) x rest this h s v e e' = record {
    bounded = ground (arith, v.bounded, length-append rest ((s.senders w.value_ptr).value ∷ []));
    full = ground (arith, v.full, length-append rest ((s.senders w.value_ptr).value ∷ []));
    drained = ground (arith, v.drained);
    quiet = ground (arith, v.quiet);
  }

  take-Inv :
      (xs : List T) (this h : ℕ) (s : State T)
      → Inv s.chan
      → s.chan.buffer ≡ xs
      → Inv (take xs this h s).0.chan
  take-Inv [] this h s v e = take_direct-Inv s.chan.send_waiters this h s v e refl
  take-Inv (x ∷ rest) this h s v e = take_refill-Inv s.chan.send_waiters x rest this h s v e refl

  pub recv_suspend-Inv :
      (this h : ℕ) (s : State T) → Inv s.chan → Inv (recv_suspend this h s).0.chan
  unfolding recv_suspend
  recv_suspend-Inv this h s v = take-Inv s.chan.buffer this h s v refl

  pub close-Inv : (s : State T) → Inv s.chan → Inv (close s).chan
  close-Inv s v = elim (Bool-cases s.chan.closed) [
    | inl shut ↦ rw (close-closed s shut) v
    | inr open_ ↦ rw (close-chan s open_) (record {
      bounded = v.bounded;
      full = inl refl;
      drained = inl refl;
      quiet = inr (refl, refl);
    })
  ]
