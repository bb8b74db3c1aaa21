-- ===== src/Channel/Delivery.antt =====
-- Values go through a channel in the order of the sends, and none is lost or made up, except those
-- of the senders that wait when the channel is closed.
use tiny_coro_build_your_own.Common.{
  ℕ, ◌≡◌, refl, sym, ap, ap₂, ◌∙◌, ◌≢◌, ◌⊎◌, inl, inr, Bool, true, false, Option, none, some, List,
  [], ◌∷◌, ◌++◌, arith, if◌then◌else◌, ltb, update, Bool-cases, length, append-nil, append_assoc,
}
use tiny_coro_build_your_own.Channel.{
  SenderWaiter, RecvWaiter, SendAwaiter, State, send_suspend, recv_suspend, give, take, take_direct,
  refill, receive, with_chan,
}
use tiny_coro_build_your_own.Channel.Branches.{send_suspend-open}
use tiny_coro_build_your_own.Channel.Invariant.{Inv}

module _ {ℓ} {T : Type ℓ} where
  -- The values of the waiting senders, where their awaiters lie in memory.
  abbrev pub waiting_values : (ℕ → SendAwaiter T) → List SenderWaiter → List T
  waiting_values senders [] = []
  waiting_values senders (w ∷ ws) = (senders w.value_ptr).value ∷ waiting_values senders ws

  -- The values that are under way: in the buffer, then with the waiting senders.
  abbrev pub pending : State T → List T
  pending s = s.chan.buffer ++ waiting_values s.senders s.chan.send_waiters

  abbrev pub of_option : Option T → List T
  of_option none = []
  of_option (some v) = v ∷ []

  -- What a `send` hands to a waiting receiver at once, read where that receiver's coroutine looks.
  abbrev pub handed_off : List RecvWaiter → State T → List T
  handed_off [] s = []
  handed_off (w ∷ ws) s = of_option (s.receivers w.result_ptr)

  waiting_values-append :
      (senders : ℕ → SendAwaiter T) (ws : List SenderWaiter) (h this : ℕ)
      → waiting_values senders (ws ++ record { handle = h; value_ptr = this } ∷ [])
        ≡ waiting_values senders ws ++ (senders this).value ∷ []
  waiting_values-append senders [] h this = refl
  waiting_values-append senders (w ∷ ws) h this =
      ap (λ xs. (senders w.value_ptr).value ∷ xs) (waiting_values-append senders ws h this)

  -- No value is under way while a receiver waits.
  nothing_pending :
      (s : State T) {w : RecvWaiter} {ws : List RecvWaiter}
      → Inv s.chan
      → s.chan.recv_waiters ≡ w ∷ ws
      → pending s ≡ []
  nothing_pending s v e = drained-pending v.drained
    where
      drained-pending :
          (s.chan.recv_waiters ≡ []) ⊎ ((s.chan.buffer ≡ []) × (s.chan.send_waiters ≡ []))
          → pending s ≡ []
      drained-pending (inl none_waits) = cc
      drained-pending (inr (no_values, no_senders)) =
          ap₂ (λ xs ws. xs ++ waiting_values s.senders ws) no_values no_senders

  stored :
      (v : T) (s : State T)
      → s.chan.send_waiters ≡ []
      → (s.chan.buffer ++ v ∷ []) ++ waiting_values s.senders s.chan.send_waiters
        ≡ pending s ++ v ∷ []
  stored v s e =
      ap (λ ws. (s.chan.buffer ++ v ∷ []) ++ waiting_values s.senders ws) e
      ∙ append-nil _
      ∙ ap (λ xs. xs ++ v ∷ []) (sym (append-nil s.chan.buffer))
      ∙ ap (λ ws. (s.chan.buffer ++ waiting_values s.senders ws) ++ v ∷ []) (sym e)

  received : (f : ℕ → Option T) (p : ℕ) (v : T) → of_option (update f p (some v) p) ≡ v ∷ []
  received f p v = ground arith

  cleared : (f : ℕ → Option T) (p : ℕ) → of_option (update f p none p) ≡ []
  cleared f p = ground arith

  give-delivers :
      (ws : List RecvWaiter) (this h : ℕ) (s : State T)
      → Inv s.chan
      → s.chan.recv_waiters ≡ ws
      → handed_off ws (give ws this h s).0 ++ pending (give ws this h s).0
        ≡ pending s ++ (s.senders this).value ∷ []
  give-delivers [] this h s v e = elim (Bool-cases (ltb (length s.chan.buffer) s.chan.capacity)) [
    | inl room ↦ rw room (stored (s.senders this).value s (ground (arith, v.full)))
    | inr full ↦ rw full (
        ap (λ xs. s.chan.buffer ++ xs) (waiting_values-append s.senders s.chan.send_waiters h this)
        ∙ sym (append_assoc s.chan.buffer _ _))
  ]
  give-delivers (w ∷ ws) this h s v e =
      let none_pending = nothing_pending s v e in
      ap₂ (λ xs ys. xs ++ ys) (received s.receivers w.result_ptr (s.senders this).value)
        none_pending
      ∙ sym (ap (λ xs. xs ++ (s.senders this).value ∷ []) none_pending)

  -- A send on an open channel that satisfies the invariant appends its value to those under way: what it hands to the receiver that
  -- waits longest, followed by what is under way afterwards, is what was under way before, followed by
  -- the value.
  pub send-delivers :
      (this h : ℕ) (s : State T)
      → Inv s.chan
      → s.chan.closed ≡ false
      → handed_off s.chan.recv_waiters (send_suspend this h s).0
          ++ pending (send_suspend this h s).0
        ≡ pending s ++ (s.senders this).value ∷ []
  send-delivers this h s v o =
      rw (send_suspend-open this h s o) (give-delivers s.chan.recv_waiters this h s v refl)

  -- What a receive returns: nothing yet if it suspends.
  abbrev pub returned : ℕ → State T × Bool → List T
  returned this (s, suspended) = if suspended then [] else of_option (s.receivers this)

  take_direct-delivers :
      (ws : List SenderWaiter) (this h : ℕ) (s : State T)
      → s.chan.buffer ≡ []
      → s.chan.send_waiters ≡ ws
      → returned this (take_direct ws this h s) ++ pending (take_direct ws this h s).0 ≡ pending s
  take_direct-delivers [] this h s none_left e =
      elim s.chan.closed
        as (λ b.
          (returned this (if b then shut else waits) ++ pending (if b then shut else waits).0)
          ≡ pending s) [
            | true ↦ ap (λ xs. xs ++ pending s) (cleared s.receivers this)
            | false ↦ refl
          ]
    where
      shut : State T × Bool
      shut = (record s { receivers = update s.receivers this none }, false)

      waits : State T × Bool
      waits = (
        with_chan
            (λ c. record c {
              recv_waiters = c.recv_waiters ++ record { handle = h; result_ptr = this } ∷ [];
            })
            s,
        true,
      )
  take_direct-delivers (w ∷ ws) this h s none_left e =
      let v = (s.senders w.value_ptr).value in
      let rest = waiting_values s.senders ws in
      ap₂ (λ xs ys. xs ++ (ys ++ rest)) (received s.receivers this v) none_left
      ∙ sym (ap₂ (λ ys zs. ys ++ waiting_values s.senders zs) none_left e)

  take-delivers :
      (xs : List T) (this h : ℕ) (s : State T)
      → s.chan.buffer ≡ xs
      → returned this (take xs this h s) ++ pending (take xs this h s).0 ≡ pending s
  take-delivers [] this h s e = take_direct-delivers s.chan.send_waiters this h s e refl
  take-delivers (x ∷ rest) this h s e = refill-delivers s.chan.send_waiters refl
    where
      refill-delivers :
          (ws : List SenderWaiter)
          → s.chan.send_waiters ≡ ws
          → (let s' = refill ws (with_chan (λ c. record c { buffer = rest }) (receive this x s)) in
              of_option (s'.receivers this) ++ pending s')
            ≡ pending s
      refill-delivers [] e' =
          ap (λ xs. xs ++ (rest ++ waiting_values s.senders s.chan.send_waiters))
            (received s.receivers this x)
          ∙ sym (ap (λ ys. ys ++ waiting_values s.senders s.chan.send_waiters) e)
      refill-delivers (w ∷ ws) e' =
          ap₂ (λ xs ys. xs ++ ys) (received s.receivers this x)
            (append_assoc rest ((s.senders w.value_ptr).value ∷ []) (waiting_values s.senders ws))
          ∙ sym (ap₂ (λ ys zs. ys ++ waiting_values s.senders zs) e e')

  received_something : (f : ℕ → Option T) (p : ℕ) (v : T) → of_option (update f p (some v) p) ≢ []
  received_something f p v none_got = let e = sym (received f p v) ∙ none_got in cc

  refill-receivers : (ws : List SenderWaiter) (s : State T) → (refill ws s).receivers ≡ s.receivers
  refill-receivers [] s = refl
  refill-receivers (w ∷ ws) s = refl

  take_direct-misses :
      (ws : List SenderWaiter) (this h : ℕ) (s : State T)
      → s.chan.buffer ≡ []
      → s.chan.send_waiters ≡ ws
      → returned this (take_direct ws this h s) ≡ []
      → pending s ≡ []
  take_direct-misses [] this h s e e' none_got =
      ap₂ (λ ys zs. ys ++ waiting_values s.senders zs) e e'
  take_direct-misses (w ∷ ws) this h s e e' none_got =
      absurd (received_something s.receivers this (s.senders w.value_ptr).value none_got)

  take-misses :
      (xs : List T) (this h : ℕ) (s : State T)
      → s.chan.buffer ≡ xs
      → returned this (take xs this h s) ≡ []
      → pending s ≡ []
  take-misses [] this h s e none_got =
      take_direct-misses s.chan.send_waiters this h s e refl none_got
  take-misses (x ∷ rest) this h s e none_got = absurd (
      received_something s.receivers this x (
        ap (λ (f : ℕ → Option T). of_option (f this)) (sym (refill-receivers s.chan.send_waiters _))
        ∙ none_got))

  -- A receive returns the first of the values under way and leaves the others, in their order; it
  -- returns nothing, for now or because the channel is closed, only if no value is under way.
  pub recv-delivers :
      (this h : ℕ) (s : State T)
      → (returned this (recv_suspend this h s) ++ pending (recv_suspend this h s).0 ≡ pending s)
        × (returned this (recv_suspend this h s) ≡ [] → pending s ≡ [])
  unfolding recv_suspend
  recv-delivers this h s =
      (take-delivers s.chan.buffer this h s refl, take-misses s.chan.buffer this h s refl)
