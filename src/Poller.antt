-- ===== src/Poller.antt =====
-- include/poller.h, the Linux part. The kernel is not modelled: the functions log their system calls
-- and take the results as arguments. `udata` and `data.ptr` are numbers, 0 is `nullptr`.
pub mod Kqueue
mod Tests
use tiny_coro_build_your_own.Common.{
  ℕ, ◌%◌, ◌^◌, List, [], ◌∷◌, if◌then◌else◌, ◌==◌, Option, none, some,
}
use tiny_coro_build_your_own.Common.Int.{ℤ, pos}

pub data Flag : Type 0 where
  epollin epollout epolloneshot epollrdhup epollet : Flag

-- `user` is the 64-bit union `data` of `fd` and `ptr`.
pub record EpollEvent : Type 0 where
  pub events : List Flag
  pub user : ℕ

-- The system calls of the poller and of include/socket.h.
pub data Call : Type 0 where
  epoll_ctl_add epoll_ctl_mod : ℕ → ℤ → EpollEvent → Call
  write_fd : ℤ → ℕ → Call
  read_fd close_fd : ℤ → Call
  fcntl_getfl : ℤ → Call
  fcntl_setfl : ℤ → ℕ → Call
  new_socket : Call
  setsockopt_reuse : ℤ → Call
  bind_fd : ℤ → ℕ → Call
  listen_fd : ℤ → ℕ → Call

pub record Poller : Type 0 where
  pub epoll_fd : ℕ
  pub wake_fd : ℕ

pub data Error : Type 0 where
  epoll_create_failed eventfd_failed : Error

pub data Created : Type 0 where
  ok : Poller → List Call → Created
  err : Error → Created

-- `ev.data.fd = fd` in an event that was zero before: the low half of the union.
abbrev pub with_fd : List Flag → ℕ → EpollEvent
with_fd flags fd = record { events = flags; user = fd % 2 ^ 32 }

abbrev pub with_ptr : List Flag → ℕ → EpollEvent
with_ptr flags ptr = record { events = flags; user = ptr }

abbrev pub wake_event : ℕ → EpollEvent
wake_event fd = with_fd (epollin ∷ epollet ∷ []) fd

-- The constructor, with what `epoll_create1` and `eventfd` return.
unfoldable pub new_poller : Option ℕ → Option ℕ → Created
new_poller none event_fd = err epoll_create_failed
new_poller (some epoll_fd) none = err eventfd_failed
new_poller (some epoll_fd) (some wake_fd) =
    ok (record { epoll_fd = epoll_fd; wake_fd = wake_fd })
      (epoll_ctl_add epoll_fd (pos wake_fd) (wake_event wake_fd) ∷ [])

unfoldable pub close_poller : Poller → List Call
close_poller p = close_fd (pos p.wake_fd) ∷ close_fd (pos p.epoll_fd) ∷ []

unfoldable pub wake : Poller → List Call
wake p = write_fd (pos p.wake_fd) 1 ∷ []

-- The result of `epoll_ctl(ADD)`.
pub data AddResult : Type 0 where
  added eexist failed : AddResult

-- MOD where the descriptor is registered already.
abbrev pub register : List Flag → Poller → ℤ → ℕ → AddResult → List Call
register flags p fd udata added = epoll_ctl_add p.epoll_fd fd (with_ptr flags udata) ∷ []
register flags p fd udata eexist =
    epoll_ctl_add p.epoll_fd fd (with_ptr flags udata)
    ∷ epoll_ctl_mod p.epoll_fd fd (with_ptr flags udata)
    ∷ []
register flags p fd udata failed = epoll_ctl_add p.epoll_fd fd (with_ptr flags udata) ∷ []

unfoldable pub add_read : Poller → ℤ → ℕ → AddResult → List Call
add_read = register (epollin ∷ epolloneshot ∷ epollrdhup ∷ [])

unfoldable pub add_write : Poller → ℤ → ℕ → AddResult → List Call
add_write = register (epollout ∷ epolloneshot ∷ epollrdhup ∷ [])

-- `wait`, with the events that `epoll_wait` gives, at most 128 (none if it fails). The callback and
-- the system calls act on a state `S`.
module _ {ℓ} {S : Type ℓ} (call : Call → S → S) (callback : ℕ → S → S) where
  unfoldable pub wait : Poller → List EpollEvent → S → S
  wait p [] s = s
  wait p (ev ∷ evs) s =
      wait p evs (if ev.user == 0 then call (read_fd (pos p.wake_fd)) s else callback ev.user s)
