-- ===== src/Channel/Closing.antt =====
-- What `close` does to those that wait, and to the values under way.
use tiny_coro_build_your_own.Common.{
  ℕ, ◌≡◌, refl, sym, ap, ap₂, ◌∙◌, true, false, List, [], ◌∷◌, ◌++◌, arith, All, append-nil,
  append_assoc,
}
use tiny_coro_build_your_own.Task.{Task}
use tiny_coro_build_your_own.Scheduler.{Scheduler}
use tiny_coro_build_your_own.Scheduler.Spawn.{queued, spawn_address-queue}
use tiny_coro_build_your_own.Channel.{
  SenderWaiter, RecvWaiter, Channel, SendAwaiter, State, send_result, close, wake_senders,
  wake_receivers, clear_result, resume_later, with_chan,
}
use tiny_coro_build_your_own.Channel.Branches.{close-open, close-chan}
use tiny_coro_build_your_own.Channel.Delivery.{pending, waiting_values}

abbrev pub sender_tasks : List SenderWaiter → List Task
sender_tasks [] = []
sender_tasks (w ∷ ws) = queued w.handle ++ sender_tasks ws

abbrev pub receiver_tasks : List RecvWaiter → List Task
receiver_tasks [] = []
receiver_tasks (w ∷ ws) = queued w.handle ++ receiver_tasks ws

module _ {ℓ} {T : Type ℓ} where
  wake_senders-senders :
      (ws : List SenderWaiter) (s : State T)
      → ((wake_senders ws s).senders ≡ s.senders) × ((wake_senders ws s).receivers ≡ s.receivers)
  unfolding wake_senders
  wake_senders-senders [] s = (refl, refl)
  wake_senders-senders (w ∷ ws) s = wake_senders-senders ws (resume_later w.handle s)

  clear_result-senders :
      (p : ℕ) (s : State T)
      → ((clear_result p s).senders ≡ s.senders) × ((clear_result p s).sched ≡ s.sched)
  clear_result-senders p s = ground arith

  wake_receivers-senders :
      (ws : List RecvWaiter) (s : State T) → (wake_receivers ws s).senders ≡ s.senders
  unfolding wake_receivers
  wake_receivers-senders [] s = refl
  wake_receivers-senders (w ∷ ws) s =
      wake_receivers-senders ws (resume_later w.handle (clear_result w.result_ptr s))
      ∙ (clear_result-senders w.result_ptr s).0

  pub close-senders : (s : State T) → s.chan.closed ≡ false → (close s).senders ≡ s.senders
  close-senders s o =
      ap (λ (t : State T). t.senders) (close-open s o)
      ∙ wake_receivers-senders s.chan.recv_waiters _
      ∙ (wake_senders-senders s.chan.send_waiters (with_chan (λ c. record c { closed = true }) s)).0

  -- The values of the senders that wait leave the channel with `close`; those in the buffer stay.
  pub close-pending :
      (s : State T)
      → s.chan.closed ≡ false
      → pending s ≡ pending (close s) ++ waiting_values s.senders s.chan.send_waiters
  close-pending s o =
      ap (λ xs. xs ++ waiting_values s.senders s.chan.send_waiters)
        (sym (ap₂ kept (close-senders s o) (close-chan s o) ∙ append-nil s.chan.buffer))
    where
      kept : (ℕ → SendAwaiter T) → Channel T → List T
      kept senders c = c.buffer ++ waiting_values senders c.send_waiters

  All-results :
      (f g : ℕ → SendAwaiter T) (ws : List SenderWaiter)
      → f ≡ g
      → All (λ (w : SenderWaiter). (f w.value_ptr).result ≡ true) ws
      → All (λ (w : SenderWaiter). (g w.value_ptr).result ≡ true) ws
  All-results f g ws e all = rw e at all

  -- If an open channel is closed while senders wait whose result is `true`, they resume with the result
  -- `true`, although only the values of the buffer are still under way.
  close-claims_success :
      (s : State T)
      → s.chan.closed ≡ false
      → All (λ (w : SenderWaiter). send_result w.value_ptr s ≡ true) s.chan.send_waiters
      → All (λ (w : SenderWaiter). send_result w.value_ptr (close s) ≡ true) s.chan.send_waiters
        × (pending (close s) ≡ s.chan.buffer)
  close-claims_success s o all = (
    All-results s.senders (close s).senders s.chan.send_waiters (sym (close-senders s o)) all,
    ap₂ (λ (f : ℕ → SendAwaiter T) (c : Channel T). c.buffer ++ waiting_values f c.send_waiters)
          (close-senders s o) (close-chan s o)
        ∙ append-nil s.chan.buffer,
  )

  wake_senders-queue :
      (ws : List SenderWaiter) (s : State T)
      → (wake_senders ws s).sched.global_queue ≡ s.sched.global_queue ++ sender_tasks ws
  unfolding wake_senders
  wake_senders-queue [] s = sym (append-nil _)
  wake_senders-queue (w ∷ ws) s =
      wake_senders-queue ws (resume_later w.handle s)
      ∙ ap (λ q. q ++ sender_tasks ws) (spawn_address-queue w.handle s.sched)
      ∙ append_assoc s.sched.global_queue (queued w.handle) (sender_tasks ws)

  wake_receivers-queue :
      (ws : List RecvWaiter) (s : State T)
      → (wake_receivers ws s).sched.global_queue ≡ s.sched.global_queue ++ receiver_tasks ws
  unfolding wake_receivers
  wake_receivers-queue [] s = sym (append-nil _)
  wake_receivers-queue (w ∷ ws) s =
      wake_receivers-queue ws (resume_later w.handle (clear_result w.result_ptr s))
      ∙ ap (λ q. q ++ receiver_tasks ws)
          (spawn_address-queue w.handle (clear_result w.result_ptr s).sched
            ∙ ap (λ (sc : Scheduler). sc.global_queue ++ queued w.handle)
                (clear_result-senders w.result_ptr s).1)
      ∙ append_assoc s.sched.global_queue (queued w.handle) (receiver_tasks ws)

  -- `close` on an open channel makes every coroutine that waits ready, the senders first, each side in
  -- the order in which it came.
  pub close-wakes_all :
      (s : State T)
      → s.chan.closed ≡ false
      → (close s).sched.global_queue
        ≡ (s.sched.global_queue ++ sender_tasks s.chan.send_waiters)
          ++ receiver_tasks s.chan.recv_waiters
  close-wakes_all s o =
      ap (λ (t : State T). t.sched.global_queue) (close-open s o)
      ∙ wake_receivers-queue s.chan.recv_waiters _
      ∙ ap (λ q. q ++ receiver_tasks s.chan.recv_waiters)
          (wake_senders-queue s.chan.send_waiters (with_chan (λ c. record c { closed = true }) s))
