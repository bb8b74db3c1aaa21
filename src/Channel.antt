-- ===== src/Channel.antt =====
-- include/channel.h. `mtx_` makes each function one indivisible step. The awaiters of suspended
-- coroutines are shared memory: they are kept by their addresses, and a waiter points to one.
-- What `std::move` leaves behind is the value itself.
pub mod Branches
pub mod Invariant
pub mod Delivery
pub mod Closing
pub mod History
mod Tests
use tiny_coro_build_your_own.Common.{
  ℕ, ◌<◌, Bool, true, false, Option, none, some, List, [], ◌∷◌, ◌++◌, if◌then◌else◌, ltb, ◌==◌,
  is_empty, length, update,
}
use tiny_coro_build_your_own.Task.{from_address}
use tiny_coro_build_your_own.Scheduler.{Scheduler, spawn}

pub record SenderWaiter : Type 0 where
  pub handle : ℕ
  pub value_ptr : ℕ

pub record RecvWaiter : Type 0 where
  pub handle : ℕ
  pub result_ptr : ℕ

pub record Channel {ℓ} (T : Type ℓ) : Type ℓ where
  pub capacity : ℕ
  pub closed : Bool
  pub buffer : List T
  pub send_waiters : List SenderWaiter
  pub recv_waiters : List RecvWaiter

pub record SendAwaiter {ℓ} (T : Type ℓ) : Type ℓ where
  pub value : T
  pub result : Bool

-- The channel, its scheduler, and the awaiters by address; of a `RecvAwaiter`, its `result`.
pub record State {ℓ} (T : Type ℓ) : Type ℓ where
  pub chan : Channel T
  pub sched : Scheduler
  pub senders : ℕ → SendAwaiter T
  pub receivers : ℕ → Option T

module _ {ℓ} {T : Type ℓ} where
  abbrev pub with_chan : (Channel T → Channel T) → State T → State T
  with_chan f s = record s { chan = f s.chan }

  -- `sched_.spawn(Task::from_address(h.address()))`
  abbrev pub resume_later : ℕ → State T → State T
  resume_later h s = record s { sched = spawn (from_address h) s.sched }

  -- `send`: a new awaiter at the address `this`.
  unfoldable pub send : ℕ → T → State T → State T
  send this val s = record s {
    senders = update s.senders this (record { value = val; result = true });
  }

  -- `recv`
  unfoldable pub recv : ℕ → State T → State T
  recv this s = record s { receivers = update s.receivers this none }

  abbrev pub fail_send : ℕ → State T → State T
  fail_send this s =
      let aw = s.senders this in
      record s { senders = update s.senders this (record aw { result = false }) }

  -- A receiver waits: it gets the value, and its coroutine is made ready.
  abbrev pub hand_off : T → RecvWaiter → List RecvWaiter → State T → State T
  hand_off v waiter rest s = resume_later waiter.handle (record s {
    chan = record (s.chan) { recv_waiters = rest };
    receivers = update s.receivers waiter.result_ptr (some v);
  })

  abbrev pub store_or_wait : ℕ → ℕ → T → State T → State T × Bool
  store_or_wait this h v s =
      if ltb (length s.chan.buffer) s.chan.capacity
      then (with_chan (λ c. record c { buffer = c.buffer ++ v ∷ [] }) s, false)
      else (
        with_chan
            (λ c. record c {
              send_waiters = c.send_waiters ++ record { handle = h; value_ptr = this } ∷ [];
            })
            s,
        true,
      )

  abbrev pub give : List RecvWaiter → ℕ → ℕ → State T → State T × Bool
  give [] this h s = store_or_wait this h (s.senders this).value s
  give (waiter ∷ rest) this h s = (hand_off (s.senders this).value waiter rest s, false)

  -- `SendAwaiter::await_suspend` of the awaiter at `this`, in the coroutine `h`; `true` where the
  -- coroutine stays suspended.
  unfoldable pub send_suspend : ℕ → ℕ → State T → State T × Bool
  send_suspend this h s =
      if s.chan.closed then (fail_send this s, false) else give s.chan.recv_waiters this h s

  -- `SendAwaiter::await_resume`
  abbrev pub send_result : ℕ → State T → Bool
  send_result this s = (s.senders this).result

  abbrev pub receive : ℕ → T → State T → State T
  receive this v s = record s { receivers = update s.receivers this (some v) }

  -- A value was taken from the buffer: the sender that waits longest moves its own in.
  abbrev pub refill : List SenderWaiter → State T → State T
  refill [] s = s
  refill (sender ∷ rest) s = resume_later sender.handle (
      with_chan
        (λ c. record c {
          buffer = c.buffer ++ (s.senders sender.value_ptr).value ∷ [];
          send_waiters = rest;
        })
        s)

  abbrev pub recv_or_wait : ℕ → ℕ → State T → State T × Bool
  recv_or_wait this h s =
      if s.chan.closed then (record s { receivers = update s.receivers this none }, false) else (
        with_chan
            (λ c. record c {
              recv_waiters = c.recv_waiters ++ record { handle = h; result_ptr = this } ∷ [];
            })
            s,
        true,
      )

  -- The buffer is empty: from a waiting sender, or wait.
  abbrev pub take_direct : List SenderWaiter → ℕ → ℕ → State T → State T × Bool
  take_direct [] this h s = recv_or_wait this h s
  take_direct (sender ∷ rest) this h s = (
    resume_later sender.handle (
        with_chan (λ c. record c { send_waiters = rest })
          (receive this (s.senders sender.value_ptr).value s)),
    false,
  )

  abbrev pub take : List T → ℕ → ℕ → State T → State T × Bool
  take [] this h s = take_direct s.chan.send_waiters this h s
  take (v ∷ rest) this h s = (
    refill s.chan.send_waiters (with_chan (λ c. record c { buffer = rest }) (receive this v s)),
    false,
  )

  -- `RecvAwaiter::await_suspend`
  unfoldable pub recv_suspend : ℕ → ℕ → State T → State T × Bool
  recv_suspend this h s = take s.chan.buffer this h s

  -- `RecvAwaiter::await_resume`
  abbrev pub recv_result : ℕ → State T → Option T
  recv_result this s = s.receivers this

  -- The two loops of `close`.
  unfoldable pub wake_senders : List SenderWaiter → State T → State T
  wake_senders [] s = with_chan (λ c. record c { send_waiters = [] }) s
  wake_senders (w ∷ ws) s = wake_senders ws (resume_later w.handle s)

  abbrev pub clear_result : ℕ → State T → State T
  clear_result p s = if p == 0 then s else record s { receivers = update s.receivers p none }

  unfoldable pub wake_receivers : List RecvWaiter → State T → State T
  wake_receivers [] s = with_chan (λ c. record c { recv_waiters = [] }) s
  wake_receivers (w ∷ ws) s =
      wake_receivers ws (resume_later w.handle (clear_result w.result_ptr s))

  unfoldable pub close : State T → State T
  unfolding wake_senders wake_receivers
  close s =
      if s.chan.closed
      then s
      else wake_receivers s.chan.recv_waiters
          (wake_senders s.chan.send_waiters (with_chan (λ c. record c { closed = true }) s))

  abbrev pub is_closed : State T → Bool
  is_closed s = s.chan.closed

abbrev pub new_channel {ℓ} : {T : Type ℓ} → ℕ → Channel T
new_channel capacity = record {
  capacity = capacity;
  closed = false;
  buffer = [];
  send_waiters = [];
  recv_waiters = [];
}
