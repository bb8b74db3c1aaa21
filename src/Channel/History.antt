-- ===== src/Channel/History.antt =====
-- Whole histories of a channel: sends, receives and `close` in any order.
pub mod Shut
pub mod Balance
pub mod Receivers
use tiny_coro_build_your_own.Common.{ℕ, ◌≢◌, List, [], ◌∷◌, ◌++◌, if◌then◌else◌, All}
use tiny_coro_build_your_own.Channel.{
  SenderWaiter, State, send, recv, send_suspend, recv_suspend, close,
}
use tiny_coro_build_your_own.Channel.Delivery.{waiting_values, handed_off, returned}

-- A call by a coroutine, with the address of its awaiter and its handle.
pub data Op {ℓ} (T : Type ℓ) : Type ℓ where
  sends : ℕ → ℕ → T → Op T
  recvs : ℕ → ℕ → Op T
  closes : Op T

module _ {ℓ} {T : Type ℓ} where
  unfoldable pub step : Op T → State T → State T
  step (sends this h v) s = (send_suspend this h (send this v s)).0
  step (recvs this h) s = (recv_suspend this h (recv this s)).0
  step closes s = close s

  pub run : List (Op T) → State T → State T
  run [] s = s
  run (o ∷ os) s = run os (step o s)

  -- The values that the channel takes, gives out, and drops in one call.
  abbrev pub accepted : Op T → State T → List T
  accepted (sends this h v) s = if s.chan.closed then [] else v ∷ []
  accepted (recvs this h) s = []
  accepted closes s = []

  abbrev pub delivered : Op T → State T → List T
  delivered (sends this h v) s =
      if s.chan.closed
      then []
      else handed_off s.chan.recv_waiters (send_suspend this h (send this v s)).0
  delivered (recvs this h) s = returned this (recv_suspend this h (recv this s))
  delivered closes s = []

  abbrev pub dropped : Op T → State T → List T
  dropped (sends this h v) s = []
  dropped (recvs this h) s = []
  dropped closes s = if s.chan.closed then [] else waiting_values s.senders s.chan.send_waiters

  -- The same over a history.
  abbrev pub total : (Op T → State T → List T) → List (Op T) → State T → List T
  total f [] s = []
  total f (o ∷ os) s = f o s ++ total f os (step o s)

  -- A new `SendAwaiter` does not stand where that of a waiting sender stands.
  abbrev pub Fresh : Op T → State T → Type 0
  Fresh (sends this h v) s = All (λ (w : SenderWaiter). this ≢ w.value_ptr) s.chan.send_waiters
  Fresh (recvs this h) s = Unit
  Fresh closes s = Unit

  abbrev pub AllFresh : List (Op T) → State T → Type 0
  AllFresh [] s = Unit
  AllFresh (o ∷ os) s = Fresh o s × AllFresh os (step o s)
