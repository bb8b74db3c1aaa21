-- ===== src/MiniRedis/Connection.antt =====
-- src/mini_redis.cpp, `handle_client`: a connection, request by request, while others use the map too.
use tiny_coro_build_your_own.Common.{
  ℕ, ◌≡◌, refl, ◌++◌, take, drop, is_empty, Option, none, some, List, [], ◌∷◌, if◌then◌else◌,
}
use tiny_coro_build_your_own.Common.Text.{Bytes}
use tiny_coro_build_your_own.Common.Int.{ℤ}
use tiny_coro_build_your_own.Scheduler.{World}
use tiny_coro_build_your_own.Socket.{AsyncSocket, failed, close_listener, bind}
use tiny_coro_build_your_own.Socket.Accepting.{new_listener}
use tiny_coro_build_your_own.WebServer.{serve, log_calls, start_server}
use tiny_coro_build_your_own.MiniRedis.{Store, Answer, parse_resp, execute}

-- What a round does with the arguments of a request; nothing if there are none.
abbrev pub answer_of : List Bytes → Store → Option Answer
answer_of [] db = none
answer_of (cmd ∷ args) db = some (execute cmd args db)

-- The replies and the map afterwards.
abbrev pub Session : Type 0
Session = List Bytes × Store

abbrev pub with_reply : Bytes → Session → Session
with_reply reply (replies, db) = (reply ∷ replies, db)

-- `unread` stands in the socket's buffer. Each round is given what arrives before its read, which takes
-- at most `sizeof(buf)` bytes of what is there, and what other connections do to the map before this one
-- has the mutex. A read that gives nothing ends the connection; when there are no more rounds, the
-- client is silent.
unfoldable pub handle_client : Bytes → List (Bytes × (Store → Store)) → Store → Session
unfolding parse_resp execute
handle_client unread [] db = ([], db)
handle_client unread ((arrived, others) ∷ rounds) db =
    let available = unread ++ arrived in
    let input = take 4096 available in
    let unread' = drop 4096 available in
    let served : Session = elim (answer_of (parse_resp input) (others db)) [
      | none ↦ handle_client unread' rounds (others db)
      | some a ↦
          let rest = handle_client unread' rounds a.store in
          if a.closes then (a.reply ∷ [], a.store) else with_reply a.reply rest
    ] in
    if is_empty available then ([], db) else served

-- `start_redis_server`, with what `socket`, `bind`, `listen` and `fcntl` give, and the clients so far. Its loop is that
-- of the web server.
unfoldable pub start_redis_server :
    ℕ → ℤ → ℤ → ℤ → ℕ → List (ℕ × AsyncSocket) → World → World × List AsyncSocket
unfolding bind close_listener new_listener serve
start_redis_server port sock bound listening flags clients w =
    let (l, result, calls) = bind port sock bound listening flags new_listener in
    let w' = log_calls calls w in
    if failed result then (log_calls (close_listener l) w', []) else serve clients w'

start_redis_server_lem :
    (port : ℕ) (sock bound listening : ℤ) (flags : ℕ) (clients : List (ℕ × AsyncSocket)) (w : World)
    → start_redis_server port sock bound listening flags clients w
      ≡ start_server port sock bound listening flags clients w
unfolding start_redis_server start_server
start_redis_server_lem port sock bound listening flags clients w = refl
