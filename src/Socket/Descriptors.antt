-- ===== src/Socket/Descriptors.antt =====
-- Who owns a file descriptor: sockets and listeners close each of theirs once.
use tiny_coro_build_your_own.Common.{
  ℕ, ◌+◌, ◌%◌, ◌^◌, ◌≡◌, refl, ◌||◌, List, [], ◌∷◌, ◌++◌, arith, if◌then◌else◌, Bool-cases, inl,
  inr,
}
use tiny_coro_build_your_own.Common.Int.{ℤ, pos, negsuc, eqb_ℤ}
use tiny_coro_build_your_own.Poller.{
  Call, close_fd, new_socket, setsockopt_reuse, bind_fd, listen_fd,
}
use tiny_coro_build_your_own.Socket.{
  AsyncSocket, TcpListener, move_socket, close_socket, move_assign_socket, close_listener, bind,
  failed, set_nonblocking,
}

-- 1 if an object whose member is `fd` owns the descriptor `d`.
abbrev pub owns : ℕ → ℤ → ℕ
owns d fd = if eqb_ℤ fd (pos d) then 1 else 0

abbrev closed_by : ℕ → Call → ℕ
closed_by d (close_fd fd) = owns d fd
closed_by d _ = 0

-- How often the descriptor `d` is closed.
abbrev pub closes : ℕ → List Call → ℕ
closes d [] = 0
closes d (c ∷ cs) = closed_by d c + closes d cs

pub closes-append : (d : ℕ) (cs ds : List Call) → closes d (cs ++ ds) ≡ closes d cs + closes d ds
closes-append d [] ds = ground arith
closes-append d (c ∷ cs) ds = ground (arith, closes-append d cs ds)

closes-closed : (d : ℕ) (l : TcpListener) → closes d (close_listener l) ≡ owns d l.fd
unfolding close_listener
closes-closed d l = ground arith

-- A descriptor changes owners with a move, and every other step that ends an ownership closes it, once:
-- for the move constructor, the destructor, and move assignment, whose target closes its old one.
pub sockets-conserve :
    (d : ℕ) (s o : AsyncSocket)
    → (owns d (move_socket o).0.fd + owns d (move_socket o).1.fd ≡ owns d o.fd)
      × (closes d (close_socket s) ≡ owns d s.fd)
      × (let (s', o', calls) = move_assign_socket s o in
          owns d s'.fd + owns d o'.fd + closes d calls ≡ owns d s.fd + owns d o.fd)
unfolding move_socket close_socket move_assign_socket
sockets-conserve d s o = (ground arith, ground arith, ground arith)

-- `bind` returns 0 if `socket`, `bind` and `listen` all succeed and -1 if one fails. In each case the
-- listener closes the descriptor that it had, no other and once, and owns the one that `socket` gave,
-- so that its destructor closes that one also after a failure.
pub bind-outcome :
    (port : ℕ) (sock bound listening : ℤ) (flags : ℕ) (l : TcpListener) (d : ℕ)
    → (let (l', result, calls) = bind port sock bound listening flags l in
        (result ≡ (if failed sock || (failed bound || failed listening) then negsuc 0 else pos 0))
        × (closes d calls ≡ owns d l.fd)
        × (closes d (close_listener l') ≡ owns d sock))
unfolding bind
bind-outcome port sock bound listening flags l d = elim (Bool-cases (failed sock)) [
  | inl e ↦ rw e (refl, at_socket, closes-closed d (record { fd = sock }))
  | inr e ↦ rw e (elim (Bool-cases (failed bound)) [
    | inl e' ↦ rw e' (refl, at_bind, closes-closed d (record { fd = sock }))
    | inr e' ↦ rw e' (elim (Bool-cases (failed listening)) [
      | inl e'' ↦ rw e'' (
        refl,
        at_listen (listen_fd sock 4096 ∷ []) (ground arith),
        closes-closed d (record { fd = sock }),
      )
      | inr e'' ↦ rw e'' (
        refl,
        at_listen (listen_fd sock 4096 ∷ set_nonblocking sock flags) (ground arith),
        closes-closed d (record { fd = sock }),
      )
    ])
  ])
]
  where
    before : List Call
    before = close_listener l ++ new_socket ∷ []

    set_up : List Call
    set_up = before ++ setsockopt_reuse sock ∷ bind_fd sock (port % 2 ^ 16) ∷ []

    at_socket : closes d before ≡ owns d l.fd
    at_socket =
        ground (arith, closes-append d (close_listener l) (new_socket ∷ []), closes-closed d l)

    at_bind : closes d set_up ≡ owns d l.fd
    at_bind = ground (
      arith,
      closes-append d before (setsockopt_reuse sock ∷ bind_fd sock (port % 2 ^ 16) ∷ []),
      at_socket,
    )

    at_listen : (cs : List Call) → closes d cs ≡ 0 → closes d (set_up ++ cs) ≡ owns d l.fd
    at_listen cs none_closed = ground (arith, closes-append d set_up cs, at_bind)
