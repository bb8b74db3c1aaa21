-- ===== src/WebServer/Accepted.antt =====
-- What becomes of the clients that a server accepts.
use mathlib.Core.Path.{subst}
use tiny_coro_build_your_own.Common.{
  ℕ, ◌+◌, ◌≡◌, refl, sym, ap, ap₂, ◌∙◌, Bool, true, false, ◌||◌, some, List, [], ◌∷◌, ◌++◌, arith,
  if◌then◌else◌, update, append-nil, append_assoc,
}
use tiny_coro_build_your_own.Common.Int.{ℤ, pos, negsuc}
use tiny_coro_build_your_own.Task.{Frames, Promise, Task, get_return_object}
use tiny_coro_build_your_own.Scheduler.{World}
use tiny_coro_build_your_own.Scheduler.Spawn.{queued, spawn-queue}
use tiny_coro_build_your_own.Socket.{
  AsyncSocket, failed, move_socket, close_socket, close_listener, bind,
}
use tiny_coro_build_your_own.Socket.Accepting.{new_listener}
use tiny_coro_build_your_own.Socket.Descriptors.{owns, closes, closes-append, bind-outcome}
use tiny_coro_build_your_own.WebServer.{serve_client, serve, log_calls, start_server}

-- The tasks of the coroutines at these addresses.
abbrev pub tasks_of : List (ℕ × AsyncSocket) → List Task
tasks_of [] = []
tasks_of ((a, client) ∷ clients) = queued a ++ tasks_of clients

abbrev pub sockets_of : List (ℕ × AsyncSocket) → List AsyncSocket
sockets_of [] = []
sockets_of ((a, client) ∷ clients) = client ∷ sockets_of clients

-- A frame whose only reference is that of the queue.
abbrev pub new_promise : Promise
new_promise = record { ref_count = 1; is_running = false; continuation = 0; at_end = false }

abbrev pub Started : Frames → List (ℕ × AsyncSocket) → Type 0
Started fs [] = Unit
Started fs ((a, client) ∷ clients) = (fs a ≡ some new_promise) × Started fs clients

serve_client-effect :
    (a : ℕ) (client : AsyncSocket) (w : World)
    → (let (w', socket) = serve_client a client w in
        (w'.scheduler.global_queue ≡ w.scheduler.global_queue ++ queued a)
        × (w'.calls ≡ w.calls)
        × (w'.shared.frames ≡ update w.shared.frames a (some new_promise))
        × (socket ≡ client))
unfolding serve_client move_socket close_socket get_return_object
serve_client-effect a client w =
    (spawn-queue (record { handle = a }) w.scheduler, append-nil w.calls, refl, refl)

update-stays :
    (fs : Frames) (a b : ℕ)
    → fs b ≡ some new_promise
    → update fs a (some new_promise) b ≡ some new_promise
update-stays fs a b e = ground (arith, e)

update_here : (fs : Frames) (a : ℕ) → update fs a (some new_promise) a ≡ some new_promise
update_here fs a = ground arith

serve-stays :
    (clients : List (ℕ × AsyncSocket)) (w : World) (b : ℕ)
    → w.shared.frames b ≡ some new_promise
    → (serve clients w).0.shared.frames b ≡ some new_promise
unfolding serve
serve-stays [] w b e = e
serve-stays ((a, client) ∷ clients) w b e =
    let (_, _, frames, _) = serve_client-effect a client w in
    serve-stays clients (serve_client a client w).0 b
      (ap (λ (fs : Frames). fs b) frames ∙ update-stays w.shared.frames a b e)

serve-Started :
    (clients : List (ℕ × AsyncSocket)) (w : World)
    → Started (serve clients w).0.shared.frames clients
unfolding serve
serve-Started [] w = tt
serve-Started ((a, client) ∷ clients) w =
    let (_, _, frames, _) = serve_client-effect a client w in
    (
      serve-stays clients (serve_client a client w).0 a
          (ap (λ (fs : Frames). fs a) frames ∙ update_here w.shared.frames a),
      serve-Started clients (serve_client a client w).0,
    )

serve-effect :
    (clients : List (ℕ × AsyncSocket)) (w : World)
    → (let (w', sockets) = serve clients w in
        (w'.scheduler.global_queue ≡ w.scheduler.global_queue ++ tasks_of clients)
        × (w'.calls ≡ w.calls)
        × (sockets ≡ sockets_of clients))
unfolding serve
serve-effect [] w = (sym (append-nil w.scheduler.global_queue), refl, refl)
serve-effect ((a, client) ∷ clients) w =
    let (queue, calls, _, socket) = serve_client-effect a client w in
    let (queue', calls', sockets) = serve-effect clients (serve_client a client w).0 in
    (
      queue'
          ∙ ap (λ q. q ++ tasks_of clients) queue
          ∙ append_assoc w.scheduler.global_queue (queued a) (tasks_of clients),
      calls' ∙ calls,
      ap₂ (λ c cs. c ∷ cs) socket sockets,
    )

not_owned : (d : ℕ) → owns d (new_listener.fd) ≡ 0
unfolding new_listener
not_owned d = ground arith

-- `start_server` without a descriptor to listen on, and with one.
abbrev pub Refused : ℤ → World → ℕ → World × List AsyncSocket → Type 0
Refused sock w d (w', sockets) =
    (w'.scheduler ≡ w.scheduler)
    × (sockets ≡ [])
    × (closes d w'.calls ≡ closes d w.calls + owns d sock)

abbrev pub Serving : List (ℕ × AsyncSocket) → World → ℕ → World × List AsyncSocket → Type 0
Serving clients w d (w', sockets) =
    (w'.scheduler.global_queue ≡ w.scheduler.global_queue ++ tasks_of clients)
    × Started w'.shared.frames clients
    × (sockets ≡ sockets_of clients)
    × (closes d w'.calls ≡ closes d w.calls)

-- If `socket`, `bind` or `listen` fails, the server ends without a client, and the descriptor that `socket` gave is closed, once and no
-- other. Else each accepted client gets a coroutine: its task is the last of the global queue, in the order of the
-- clients, its frame has one reference, which is the queue's, it holds the client's socket, and the server closes no
-- descriptor.
pub start_server-outcome :
    (port : ℕ) (sock bound listening : ℤ) (flags : ℕ) (clients : List (ℕ × AsyncSocket)) (w : World)
    (d : ℕ)
    → (let (w', sockets) = start_server port sock bound listening flags clients w in
        (failed sock || (failed bound || failed listening) ≡ true → Refused sock w d (w', sockets))
        × (failed sock || (failed bound || failed listening) ≡ false
            → Serving clients w d (w', sockets)))
unfolding start_server
start_server-outcome port sock bound listening flags clients w d =
    let (l, result, calls) = bind port sock bound listening flags new_listener in
    let (returned, closed, closed_later) =
      bind-outcome port sock bound listening flags new_listener d in
    let bad : Bool = failed sock || (failed bound || failed listening) in
    let w' : World = log_calls calls w in
    let goes : (b : Bool)
        → bad ≡ b
        → start_server port sock bound listening flags clients w ≡ (
            if failed (if b then negsuc 0 else pos 0)
            then (log_calls (close_listener l) w', [])
            else serve clients w') =
      λ b e.
        ap (λ r. if failed r then (log_calls (close_listener l) w', []) else serve clients w')
          (returned ∙ ap (λ (x : Bool). if x then negsuc 0 else pos 0) e) in
    let unchanged : closes d w'.calls ≡ closes d w.calls =
      omega (arith, closes-append d w.calls calls, closed, not_owned d) in
    (
      λ e. subst (Refused sock w d) (sym (goes true e)) (
        refl,
        refl,
        omega (arith, closes-append d w'.calls (close_listener l), closed_later, unchanged),
      ),
      λ e. subst (Serving clients w d) (sym (goes false e)) (
          let (queue, same, sockets) = serve-effect clients w' in
          (queue, serve-Started clients w', sockets, ap (closes d) same ∙ unchanged)),
    )
