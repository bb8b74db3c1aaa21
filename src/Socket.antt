-- ===== src/Socket.antt =====
-- include/socket.h: the awaiters for non-blocking I/O, sockets and listeners. System calls are
-- logged, and their results are arguments; `errno` is that of the thread that runs the code.
pub mod Awaiters
pub mod Registered
pub mod Descriptors
pub mod Accepting
mod Tests
use Prim.Native.Nat.{bit_or}
use tiny_coro_build_your_own.Common.{
  ℕ, ◌%◌, ◌^◌, Bool, true, false, not, ◌&&◌, ◌||◌, Option, some, List, [], ◌∷◌, ◌++◌, if◌then◌else◌,
}
use tiny_coro_build_your_own.Common.Int.{ℤ, pos, negsuc, ltb_ℤ, eqb_ℤ}
use tiny_coro_build_your_own.Task.{◌>>=◌, add_ref}
use tiny_coro_build_your_own.Poller
use tiny_coro_build_your_own.Poller.{
  Call, AddResult, close_fd, fcntl_getfl, fcntl_setfl, new_socket, setsockopt_reuse, bind_fd,
  listen_fd,
}
use tiny_coro_build_your_own.Scheduler.{World, with_frames}

pub data Errno : Type 0 where
  eagain ewouldblock : Errno
  other : ℕ → Errno

abbrev pub would_block : Errno → Bool
would_block eagain = true
would_block ewouldblock = true
would_block (other e) = false

abbrev pub failed : ℤ → Bool
failed r = ltb_ℤ r (pos 0)

-- `AsyncReadAwaiter`, `AsyncWriteAwaiter` and, with the client's descriptor for `result`,
-- `AsyncAcceptAwaiter`. The buffers belong to the caller.
pub record Awaiter : Type 0 where
  pub fd : ℤ
  pub result : ℤ

unfoldable pub new_awaiter : ℤ → Awaiter
new_awaiter fd = record { fd = fd; result = pos 0 }

unfoldable pub new_accept_awaiter : ℤ → Awaiter
new_accept_awaiter fd = record { fd = fd; result = negsuc 0 }

-- `await_ready` of a read, with what `::read` returns and `errno` after it.
unfoldable pub await_ready : ℤ → Errno → Awaiter → Awaiter × Bool
await_ready res errno aw = (record aw { result = res }, not (failed res) || not (would_block errno))

-- The same functions of `AsyncWriteAwaiter`, for `::write`.
unfoldable pub new_write_awaiter : ℤ → Awaiter
new_write_awaiter fd = record { fd = fd; result = pos 0 }

unfoldable pub write_ready : ℤ → Errno → Awaiter → Awaiter × Bool
write_ready res errno aw = (record aw { result = res }, not (failed res) || not (would_block errno))

-- `set_nonblocking`, with the flags that the kernel reports.
abbrev pub o_nonblock : ℕ
o_nonblock = 2048

abbrev pub set_nonblocking : ℤ → ℕ → List Call
set_nonblocking fd flags = fcntl_getfl fd ∷ fcntl_setfl fd (bit_or flags o_nonblock) ∷ []

-- `AsyncAcceptAwaiter::await_ready`: a new client is made non-blocking.
unfoldable pub accept_ready : ℤ → Errno → ℕ → Awaiter → Awaiter × Bool × List Call
accept_ready client errno flags aw =
    if failed client
    then (record aw { result = client }, not (would_block errno), [])
    else (record aw { result = client }, true, set_nonblocking client flags)

-- `await_suspend`: one more reference for the reactor, and the registration.
abbrev suspend_with :
    (Poller.Poller → ℤ → ℕ → AddResult → List Call) → AddResult → ℕ → Awaiter → World → Option World
suspend_with register outcome h aw w = do
  fs ← add_ref h w.shared.frames
  let w' = with_frames fs w
  some (record w' { calls = w'.calls ++ register w.reactor.poller aw.fd h outcome })

-- For reading and for accepting.
unfoldable pub read_suspend : AddResult → ℕ → Awaiter → World → Option World
unfolding add_ref
read_suspend = suspend_with Poller.add_read

unfoldable pub write_suspend : AddResult → ℕ → Awaiter → World → Option World
unfolding add_ref
write_suspend = suspend_with Poller.add_write

-- `await_resume`: the result, and whether the system call is made again; `retry` is what it would
-- return, and `errno` is that of the thread that resumes the coroutine.
unfoldable pub await_resume : Errno → ℤ → Awaiter → ℤ × Bool
await_resume errno retry aw =
    if failed aw.result && would_block errno then (retry, true) else (aw.result, false)

unfoldable pub write_resume : Errno → ℤ → Awaiter → ℤ × Bool
write_resume errno retry aw =
    if failed aw.result && would_block errno then (retry, true) else (aw.result, false)

unfoldable pub accept_resume : Errno → ℤ → ℕ → Awaiter → ℤ × List Call
accept_resume errno retry flags aw =
    if failed aw.result && would_block errno
    then (retry, if failed retry then [] else set_nonblocking retry flags)
    else (aw.result, [])

-- `AsyncSocket`; -1 stands for no descriptor.
pub record AsyncSocket : Type 0 where
  pub fd : ℤ

abbrev pub no_fd : ℤ → Bool
no_fd fd = eqb_ℤ fd (negsuc 0)

unfoldable pub new_socket_object : ℤ → ℕ → AsyncSocket × List Call
new_socket_object fd flags = (record { fd = fd }, if no_fd fd then [] else set_nonblocking fd flags)

-- The new socket, and what is left of the old one.
unfoldable pub move_socket : AsyncSocket → AsyncSocket × AsyncSocket
move_socket o = (record { fd = o.fd }, record { fd = negsuc 0 })

unfoldable pub close_socket : AsyncSocket → List Call
close_socket s = if no_fd s.fd then [] else close_fd s.fd ∷ []

-- Between two objects: the target and the source afterwards.
unfoldable pub move_assign_socket :
    AsyncSocket → AsyncSocket → AsyncSocket × AsyncSocket × List Call
unfolding close_socket
move_assign_socket s o = (record { fd = o.fd }, record { fd = negsuc 0 }, close_socket s)

pub record TcpListener : Type 0 where
  pub fd : ℤ

unfoldable pub close_listener : TcpListener → List Call
close_listener l = if no_fd l.fd then [] else close_fd l.fd ∷ []

-- `bind` on an address that `inet_pton` reads: the listener, the result, and the calls. The arguments
-- after the port are what `socket`, `bind`, `listen` and `fcntl` return.
unfoldable pub bind : ℕ → ℤ → ℤ → ℤ → ℕ → TcpListener → TcpListener × ℤ × List Call
unfolding close_listener
bind port sock bound listening flags l =
    let opened : TcpListener = record { fd = sock } in
    let before = close_listener l ++ new_socket ∷ [] in
    let set_up = before ++ setsockopt_reuse sock ∷ bind_fd sock (port % 2 ^ 16) ∷ [] in
    if failed sock
    then (opened, negsuc 0, before)
    else (if failed bound
        then (opened, negsuc 0, set_up)
        else (if failed listening
            then (opened, negsuc 0, set_up ++ listen_fd sock 4096 ∷ [])
            else (opened, pos 0, set_up ++ listen_fd sock 4096 ∷ set_nonblocking sock flags)))
