-- ===== src/Channel/Tests.antt =====
-- The theorems on channels at a channel of capacity 1, with a sender or a receiver that waits.
use tiny_coro_build_your_own.Common.{
  ℕ, ◌≡◌, refl, true, false, Option, none, List, [], ◌∷◌, ◌++◌, arith, update, inl, inr,
}
use tiny_coro_build_your_own.Scheduler.{Scheduler}
use tiny_coro_build_your_own.Channel.{
  SendAwaiter, State, send, send_suspend, recv, recv_suspend, close,
}
use tiny_coro_build_your_own.Channel.Invariant.{Inv}
use tiny_coro_build_your_own.Channel.Delivery.{
  pending, handed_off, returned, send-delivers, recv-delivers,
}
use tiny_coro_build_your_own.Channel.History.{
  Op, sends, recvs, closes, run, step, total, accepted, delivered, dropped, AllFresh,
}
use tiny_coro_build_your_own.Channel.History.Receivers.{
  awaiters, all_asked, all_answered, run-balances,
}

abbrev idle : Scheduler
idle = record { global_queue = []; workers = []; stop = false; next = 0 }

abbrev unused : ℕ → SendAwaiter ℕ
unused p = record { value = 0; result = true }

abbrev nothing : ℕ → Option ℕ
nothing p = none

-- The buffer holds 5, and a sender at 100 waits with 6.
abbrev full : State ℕ
full = record {
  chan = record {
    capacity = 1;
    closed = false;
    buffer = 5 ∷ [];
    send_waiters = record { handle = 8; value_ptr = 100 } ∷ [];
    recv_waiters = [];
  };
  sched = idle;
  senders = update unused 100 (record { value = 6; result = true });
  receivers = nothing;
}

full-Inv : Inv full.chan
full-Inv = record { bounded = omega arith; full = inr refl; drained = inl refl; quiet = inl refl }

send-delivers_example :
    handed_off [] (send_suspend 200 16 full).0 ++ pending (send_suspend 200 16 full).0
    ≡ pending full ++ 0 ∷ []
send-delivers_example = send-delivers 200 16 full full-Inv refl

recv-delivers_example :
    (returned 300 (recv_suspend 300 16 full) ++ pending (recv_suspend 300 16 full).0 ≡ pending full)
    × (returned 300 (recv_suspend 300 16 full) ≡ [] → pending full ≡ [])
recv-delivers_example = recv-delivers 300 16 full

-- Another value is sent, four are received, of which the last has to wait, one more is sent, and the
-- channel is closed.
abbrev calls : List (Op ℕ)
calls =
    sends 200 16 7
    ∷ recvs 300 24
    ∷ recvs 300 24
    ∷ recvs 300 24
    ∷ recvs 300 24
    ∷ sends 200 16 9
    ∷ closes
    ∷ []

calls-AllFresh : AllFresh calls full
unfolding step send recv recv_suspend send_suspend close
calls-AllFresh = ground arith

run-balances_example :
    (pending full ++ total accepted calls full
      ≡ (total delivered calls full ++ pending (run calls full)) ++ total dropped calls full)
    × (awaiters [] ++ all_asked calls
        ≡ all_answered calls full ++ awaiters (run calls full).chan.recv_waiters)
run-balances_example = run-balances calls full full-Inv calls-AllFresh
