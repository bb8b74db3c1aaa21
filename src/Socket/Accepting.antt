-- ===== src/Socket/Accepting.antt =====
-- include/socket.h, `TcpListener::accept`: the awaiter that gives a socket, and the reads and writes of
-- that socket.
use Prim.Native.Nat.{bit_or}
use tiny_coro_build_your_own.Common.{
  ℕ, ◌≡◌, sym, ap, ◌∙◌, Bool, true, false, not, Option, List, [], ◌∷◌, ◌++◌, arith, append_assoc,
  if◌then◌else◌,
}
use tiny_coro_build_your_own.Common.Int.{ℤ, negsuc}
use tiny_coro_build_your_own.Poller.{Call, AddResult, fcntl_getfl, fcntl_setfl}
use tiny_coro_build_your_own.Scheduler.{World}
use tiny_coro_build_your_own.Socket.{
  Errno, would_block, failed, no_fd, Awaiter, new_awaiter, new_write_awaiter, new_accept_awaiter,
  accept_ready, accept_resume, read_suspend, o_nonblock, set_nonblocking, AsyncSocket,
  new_socket_object, TcpListener,
}

-- `AsyncSocket::read`, and `AsyncSocket::write` for a buffer or a string.
unfoldable pub read : AsyncSocket → Awaiter
unfolding new_awaiter
read s = new_awaiter s.fd

unfoldable pub write : AsyncSocket → Awaiter
unfolding new_write_awaiter
write s = new_write_awaiter s.fd

unfoldable pub new_listener : TcpListener
new_listener = record { fd = negsuc 0 }

-- `TcpListener::CoAccept`
pub record CoAccept : Type 0 where
  pub awaiter : Awaiter

unfoldable pub new_co_accept : ℤ → CoAccept
unfolding new_accept_awaiter
new_co_accept fd = record { awaiter = new_accept_awaiter fd }

-- `TcpListener::accept`
unfoldable pub accept : TcpListener → CoAccept
unfolding new_co_accept
accept l = new_co_accept l.fd

unfoldable pub co_accept_ready : ℤ → Errno → ℕ → CoAccept → CoAccept × Bool × List Call
unfolding accept_ready
co_accept_ready client errno flags c =
    let (aw, ready, calls) = accept_ready client errno flags c.awaiter in
    (record { awaiter = aw }, ready, calls)

unfoldable pub co_accept_suspend : AddResult → ℕ → CoAccept → World → Option World
unfolding read_suspend
co_accept_suspend outcome h c w = read_suspend outcome h c.awaiter w

-- The socket is made non-blocking once more by its constructor.
unfoldable pub co_accept_resume : Errno → ℤ → ℕ → CoAccept → AsyncSocket × List Call
unfolding accept_resume new_socket_object
co_accept_resume errno retry flags c =
    let (client, calls) = accept_resume errno retry flags c.awaiter in
    let (s, calls') = new_socket_object client flags in (s, calls ++ calls')

-- A system call sets the descriptor to non-blocking mode and keeps its other flags.
abbrev pub Unblocks : ℤ → ℕ → List Call → Type 0
Unblocks fd flags calls =
    (before after : List Call) × (calls
      ≡ before ++ fcntl_setfl fd (bit_or flags o_nonblock) ∷ after)

new_socket-Unblocks :
    (client : ℤ) (flags : ℕ) (calls : List Call)
    → failed client ≡ false
    → Unblocks client flags (calls ++ (new_socket_object client flags).1)
unfolding new_socket_object
new_socket-Unblocks client flags calls good =
    let some_fd : no_fd client ≡ false = ground arith in
    (
      calls ++ fcntl_getfl client ∷ [],
      [],
      ap (λ b. calls ++ (if b then [] else set_nonblocking client flags)) some_fd
          ∙ sym (
              append_assoc calls (fcntl_getfl client ∷ [])
                (fcntl_setfl client (bit_or flags o_nonblock) ∷ [])),
    )

-- A coroutine that accepts a client gets a socket for the descriptor that the first `accept` gave, if that did not fail,
-- and after a wait, on a thread whose `errno` says that a call would block, for the one that the second gave. A socket
-- whose descriptor is valid is in non-blocking mode, whichever call gave it.
accept-outcome :
    (l : TcpListener) (client retry : ℤ) (errno errno' : Errno) (flags : ℕ)
    → (let (c, ready, calls) = co_accept_ready client errno flags (accept l) in
        let (s, calls') = co_accept_resume errno' retry flags c in
        (failed client ≡ false → (ready ≡ true) × (s.fd ≡ client))
        × (failed client ≡ true → ready ≡ not (would_block errno))
        × (ready ≡ false → would_block errno' ≡ true → s.fd ≡ retry)
        × (failed s.fd ≡ false → Unblocks s.fd flags (calls ++ calls')))
unfolding accept_ready accept_resume new_socket_object co_accept_ready co_accept_resume accept
    new_accept_awaiter
accept-outcome l client retry errno errno' flags =
    let (c, ready, calls) = co_accept_ready client errno flags (accept l) in
    let (fd, calls') = accept_resume errno' retry flags c.awaiter in
    (
      λ good. (ground arith, ground arith),
      λ bad. ground arith,
      λ waits again. ground arith,
      λ good.
          let (before, after, e) = new_socket-Unblocks fd flags (calls ++ calls') good in
          (before, after, sym (append_assoc calls calls' (new_socket_object fd flags).1) ∙ e),
    )
