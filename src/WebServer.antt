-- ===== src/WebServer.antt =====
-- src/simple_http_web.cpp: the server's loop, which src/mini_redis.cpp has too, and a connection.
pub mod Accepted
pub mod Replies
mod Tests
use tiny_coro_build_your_own.Common.{ℕ, Bool, List, [], ◌∷◌, ◌++◌, if◌then◌else◌}
use tiny_coro_build_your_own.Common.Int.{ℤ, pos, leb_ℤ}
use tiny_coro_build_your_own.Common.Text.{Bytes, codes}
use tiny_coro_build_your_own.Task.{get_return_object}
use tiny_coro_build_your_own.Poller.{Call}
use tiny_coro_build_your_own.Scheduler.{World, with_frames, spawn}
use tiny_coro_build_your_own.Socket.{
  AsyncSocket, failed, move_socket, close_socket, close_listener, bind,
}
use tiny_coro_build_your_own.Socket.Accepting.{new_listener}

-- `RAW_RESPONSE`
abbrev pub raw_response : Bytes
raw_response =
    codes "HTTP/1.1 200 OK\r\n"
    ++ codes "Content-Type: text/plain\r\n"
    ++ codes "Content-Length: 13\r\n"
    ++ codes "Connection: keep-alive\r\n"
    ++ codes "\r\n"
    ++ codes "Hello, World!"

-- What a connection does: a read of so many bytes, a write, the end of its coroutine.
pub data Io : Type 0 where
  reads : ℕ → Io
  writes : Bytes → Io
  ends : List Call → Io

-- `handle_client`, with the results of the reads and the writes, in pairs; it still waits for a read
-- when there are no more.
unfoldable pub handle_client : AsyncSocket → List (ℤ × ℤ) → List Io
unfolding close_socket
handle_client socket [] = reads 1024 ∷ []
handle_client socket ((n, ret) ∷ rounds) =
    let rest = handle_client socket rounds in
    reads 1024
    ∷ (if leb_ℤ n (pos 0)
        then ends (close_socket socket) ∷ []
        else writes raw_response
          ∷ (if leb_ℤ ret (pos 0) then ends (close_socket socket) ∷ [] else rest))

-- A round of the loop of `start_server`, with the socket that `accept` gave: the client's socket moves
-- into the frame of a new coroutine, at address `a`, and what is left of it is destroyed.
unfoldable pub serve_client : ℕ → AsyncSocket → World → World × AsyncSocket
unfolding move_socket get_return_object spawn close_socket
serve_client a client w =
    let (socket, left) = move_socket client in
    let (fs, t) = get_return_object a w.shared.frames in
    let w' = with_frames fs w in
    (record w' { scheduler = spawn t w'.scheduler; calls = w'.calls ++ close_socket left }, socket)

-- The rounds for these clients, with the addresses for their coroutines; nothing else runs in between.
-- The sockets that the coroutines hold.
unfoldable pub serve : List (ℕ × AsyncSocket) → World → World × List AsyncSocket
unfolding serve_client
serve [] w = (w, [])
serve ((a, client) ∷ clients) w =
    let (w', socket) = serve_client a client w in
    let (w'', sockets) = serve clients w' in (w'', socket ∷ sockets)

abbrev pub log_calls : List Call → World → World
log_calls cs w = record w { calls = w.calls ++ cs }

-- `start_server`, with what `socket`, `bind`, `listen` and `fcntl` give, and the clients so far.
unfoldable pub start_server :
    ℕ → ℤ → ℤ → ℤ → ℕ → List (ℕ × AsyncSocket) → World → World × List AsyncSocket
unfolding bind close_listener serve new_listener
start_server port sock bound listening flags clients w =
    let (l, result, calls) = bind port sock bound listening flags new_listener in
    let w' = log_calls calls w in
    if failed result then (log_calls (close_listener l) w', []) else serve clients w'
