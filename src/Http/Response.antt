-- ===== src/Http/Response.antt =====
-- include/http/http_server.h, `send_response`: what it puts on the connection, and what a client reads.
pub mod Reading
use tiny_coro_build_your_own.Common.{
  ℕ, zero, suc, ◌+◌, ◌-◌, ◌≤◌, ◌<◌, ◌≡◌, refl, sym, ap, ◌∙◌, Bool, true, false, ◌&&◌, Option, none,
  some, List, [], ◌∷◌, ◌++◌, arith, if◌then◌else◌, leb, ◌==◌, is_empty, length, take, drop,
  append_assoc, Bool-cases, inl, inr, append-nil, length-append, length-take, All, ap₂, take-all,
  take-prefix, drop-prefix,
}
use tiny_coro_build_your_own.Common.Int.{ℤ, pos, negsuc}
use tiny_coro_build_your_own.Common.Text.{
  Bytes, codes, cr, lf, crlf, NoCr, find_line, find_line-finds, to_string, to_string-NoCr, number,
  number-to_string,
}

-- For a status code that is not negative.
unfoldable pub response_header : ℕ → Bytes → Bytes → Bytes
response_header status content_type body =
    codes "HTTP/1.1 "
    ++ to_string status
    ++ (if status == 200 then codes " OK\r\n" else codes " Error\r\n")
    ++ codes "Server: tiny_coro/1.0\r\n"
    ++ codes "Content-Type: "
    ++ content_type
    ++ crlf
    ++ codes "Content-Length: "
    ++ to_string (length body)
    ++ crlf
    ++ codes "Connection: keep-alive\r\n\r\n"

-- What the connection takes of a buffer if `write` gives this result.
abbrev pub written : ℤ → Bytes → Bytes
written (pos n) bytes = take n bytes
written (negsuc n) bytes = []

-- `send_response`, with what its two writes give; neither result is looked at.
unfoldable pub send_response : ℕ → Bytes → Bytes → ℤ → ℤ → Bytes
unfolding response_header
send_response status content_type body for_header for_body =
    written for_header (response_header status content_type body)
    ++ (if is_empty body then [] else written for_body body)

abbrev pub prepend : Bytes → Option (List Bytes × Bytes) → Option (List Bytes × Bytes)
prepend line none = none
prepend line (some (lines, rest)) = some (line ∷ lines, rest)

-- A client reads lines up to an empty one.
unfoldable pub read_head : ℕ → Bytes → Option (List Bytes × Bytes)
read_head zero input = none
read_head (suc fuel) input = elim (find_line input) [
  | none ↦ none
  | some (line, rest) ↦
      let later = read_head fuel rest in
      if is_empty line then some ([], rest) else prepend line later
]

abbrev pub has_prefix : Bytes → Bytes → Bool
has_prefix [] line = true
has_prefix (c ∷ cs) [] = false
has_prefix (c ∷ cs) (d ∷ line) = (c == d) && has_prefix cs line

abbrev pub length_name : Bytes
length_name = codes "Content-Length: "

-- The number on the first line that gives the length.
unfoldable pub content_length : List Bytes → Option ℕ
content_length [] = none
content_length (line ∷ lines) =
    let later = content_length lines in
    if has_prefix length_name line then some (number 0 (drop 16 line)) else later

abbrev pub cut_body : Bytes → ℕ → Option (Bytes × Bytes)
cut_body rest n = if leb n (length rest) then some (take n rest, drop n rest) else none

-- The body of the first response, and what follows it; nothing if it is not complete.
unfoldable pub read_response : Bytes → Option (Bytes × Bytes)
unfolding read_head content_length
read_response input = elim (read_head (length input) input) [
  | none ↦ none
  | some (lines, rest) ↦ elim (content_length lines) [ none ↦ none | some n ↦ cut_body rest n ]
]
