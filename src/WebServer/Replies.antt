-- ===== src/WebServer/Replies.antt =====
-- What a client of the web server reads.
use mathlib.Core.Path.{subst}
use tiny_coro_build_your_own.Common.{
  ℕ, ◌≤◌, map, length-map, zero, suc, ◌≡◌, refl, ap, ◌∙◌, true, false, Option, none, some, List, [],
  ◌∷◌, ◌++◌, arith, if◌then◌else◌, length, replicate, append-nil, leb, All,
}
use tiny_coro_build_your_own.Common.Int.{ℤ, pos, leb_ℤ}
use tiny_coro_build_your_own.Common.Text.{Bytes, codes, find_line}
use tiny_coro_build_your_own.Http.Response.{read_response, prepend, read_head, content_length}
use tiny_coro_build_your_own.Poller.{Call}
use tiny_coro_build_your_own.Socket.{AsyncSocket, close_socket}
use tiny_coro_build_your_own.WebServer.{Io, reads, writes, ends, raw_response, handle_client}

-- The body of each response.
abbrev pub hello : Bytes
hello = codes "Hello, World!"

-- What the connection's writes put on it, if they take all bytes; and the calls that end it.
abbrev pub output : List Io → Bytes
output [] = []
output (reads n ∷ log) = output log
output (writes bytes ∷ log) = bytes ++ output log
output (ends calls ∷ log) = output log

abbrev pub ending : List Io → List Call
ending [] = []
ending (reads n ∷ log) = ending log
ending (writes bytes ∷ log) = ending log
ending (ends calls ∷ log) = calls ++ ending log

-- A client that reads so many responses: their bodies, and what is left.
abbrev pub read_responses : ℕ → Bytes → Option (List Bytes × Bytes)
read_responses zero input = some ([], input)
read_responses (suc n) input = elim (read_response input) [
  | none ↦ none
  | some (body, rest) ↦ prepend body (read_responses n rest)
]

-- A round whose read gives something, and whose write takes the whole response.
abbrev Served : ℤ × ℤ → Type 0
Served (n, ret) = (leb_ℤ n (pos 0) ≡ false) × (ret ≡ pos (length raw_response))

raw_response-read : (next : Bytes) → read_response (raw_response ++ next) ≡ some (hello, next)
unfolding read_response read_head content_length find_line
raw_response-read next = ap (λ b. if b then some (hello, next) else none) enough
  where
    enough : leb 13 (length (hello ++ next)) ≡ true
    enough = ground arith

handle_client-Served :
    (socket : AsyncSocket) (round : ℤ × ℤ) (rounds : List (ℤ × ℤ))
    → Served round
    → handle_client socket (round ∷ rounds)
      ≡ reads 1024 ∷ writes raw_response ∷ handle_client socket rounds
unfolding handle_client
handle_client-Served socket (n, ret) rounds (got, whole) = rw (got, whole) refl

read_responses-next :
    (n : ℕ) (input body rest : Bytes)
    → read_response input ≡ some (body, rest)
    → read_responses (suc n) input ≡ prepend body (read_responses n rest)
read_responses-next n input body rest e =
    ap
      (λ (r : Option (Bytes × Bytes)). elim r [
        | none ↦ none
        | some (body', rest') ↦ prepend body' (read_responses n rest')
      ])
      e

-- A connection whose reads give something and whose writes take the whole response for some rounds, and whose next read
-- then ends it.
rounds-replies :
    (socket : AsyncSocket) (rounds : List (ℤ × ℤ)) (last ret : ℤ) (more : List (ℤ × ℤ))
    → All Served rounds
    → leb_ℤ last (pos 0) ≡ true
    → (let log = handle_client socket (rounds ++ (last, ret) ∷ more) in
        (read_responses (length rounds) (output log) ≡ some (replicate (length rounds) hello, []))
        × (ending log ≡ close_socket socket))
unfolding handle_client
rounds-replies socket [] last ret more served over =
    rw over (refl, append-nil (close_socket socket))
rounds-replies socket (round ∷ rounds) last ret more (served, later) over =
    let next = rounds ++ (last, ret) ∷ more in
    let step = handle_client-Served socket round next served in
    let (bodies, closed) = rounds-replies socket rounds last ret more later over in
    (
      ap (λ log. read_responses (suc (length rounds)) (output log)) step
          ∙ read_responses-next (length rounds) (raw_response ++ output (handle_client socket next))
              hello (output (handle_client socket next))
              (raw_response-read (output (handle_client socket next)))
          ∙ ap (prepend hello) bodies,
      ap ending step ∙ closed,
    )

-- A request that one read gives as a whole, and no other with it.
abbrev pub OneRead : Bytes → Type 0
OneRead request = (1 ≤ length request) × (length request ≤ 1024)

-- Its round, if the write takes the whole response.
abbrev pub read_at_once : Bytes → ℤ × ℤ
read_at_once request = (pos (length request), pos (length raw_response))

read_at_once-Served :
    (requests : List Bytes) → All OneRead requests → All Served (map read_at_once requests)
read_at_once-Served [] h = tt
read_at_once-Served (request ∷ requests) (one, all) =
    ((ground arith, refl), read_at_once-Served requests all)

-- A connection on which requests of 1 to 1024 bytes arrive, each in one read that gives nothing else, whose writes take
-- the whole response, and whose next read then ends it: the client reads as many responses as it has sent requests, each
-- with the same body, which agrees with the length in its header, nothing is left over, and the socket is closed once.
pub handle_client-replies :
    (socket : AsyncSocket) (requests : List Bytes) (last ret : ℤ) (more : List (ℤ × ℤ))
    → All OneRead requests
    → leb_ℤ last (pos 0) ≡ true
    → (let log = handle_client socket (map read_at_once requests ++ (last, ret) ∷ more) in
        (read_responses (length requests) (output log)
          ≡ some (replicate (length requests) hello, []))
        × (ending log ≡ close_socket socket))
handle_client-replies socket requests last ret more each over =
    let log = handle_client socket (map read_at_once requests ++ (last, ret) ∷ more) in
    let (bodies, closed) =
      rounds-replies socket (map read_at_once requests) last ret more
        (read_at_once-Served requests each) over in
    (
      subst (λ n. read_responses n (output log) ≡ some (replicate n hello, []))
          (length-map requests read_at_once) bodies,
      closed,
    )
