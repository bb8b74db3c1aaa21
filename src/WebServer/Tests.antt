-- ===== src/WebServer/Tests.antt =====
-- The theorems on the web server at two clients, and at a connection with one request.
use tiny_coro_build_your_own.Common.{
  arith, ℕ, ◌≡◌, refl, true, false, none, some, List, [], ◌∷◌, All,
}
use tiny_coro_build_your_own.Common.Int.{pos}
use tiny_coro_build_your_own.Ebr
use tiny_coro_build_your_own.Common.Text.{Bytes, codes}
use tiny_coro_build_your_own.Scheduler.{World}
use tiny_coro_build_your_own.Socket.{AsyncSocket, close_socket}
use tiny_coro_build_your_own.WebServer.{handle_client, start_server}
use tiny_coro_build_your_own.WebServer.Replies.{
  hello, output, ending, read_responses, OneRead, read_at_once, handle_client-replies,
}
use tiny_coro_build_your_own.WebServer.Accepted.{Refused, Serving, start_server-outcome}

abbrev world : World
world = record {
  shared = record { frames = λ a. none; ebr = Ebr.init };
  scheduler = record { global_queue = []; workers = []; stop = false; next = 0 };
  reactor = record { running = true; timers = []; poller = record { epoll_fd = 3; wake_fd = 4 } };
  calls = [];
}

abbrev socket : ℕ → AsyncSocket
socket n = record { fd = pos n }

abbrev clients : List (ℕ × AsyncSocket)
clients = (8, socket 6) ∷ (16, socket 7) ∷ []

start_server-outcome_example :
    (let (w', sockets) = start_server 8080 (pos 5) (pos 0) (pos 0) 2 clients world in
      (false ≡ true → Refused (pos 5) world 5 (w', sockets))
      × (false ≡ false → Serving clients world 5 (w', sockets)))
start_server-outcome_example = start_server-outcome 8080 (pos 5) (pos 0) (pos 0) 2 clients world 5

abbrev get_root : Bytes
get_root = codes "GET / HTTP/1.1\r\n\r\n"

one_read : All OneRead (get_root ∷ get_root ∷ [])
one_read = ground arith

handle_client-replies_example :
    (let log =
        handle_client
          (socket 6)
          (read_at_once get_root ∷ read_at_once get_root ∷ (pos 0, pos 0) ∷ []) in
      (read_responses 2 (output log) ≡ some (hello ∷ hello ∷ [], []))
      × (ending log ≡ close_socket (socket 6)))
handle_client-replies_example =
    handle_client-replies (socket 6) (get_root ∷ get_root ∷ []) (pos 0) (pos 0) [] one_read refl
