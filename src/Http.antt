-- ===== src/Http.antt =====
-- include/http/http_parser.h and include/http/http_server.h: the headers of a request, and the upload
-- of a body to a file. Strings are lists of bytes. picohttpparser is a parameter.
pub mod Upload
pub mod Response
mod Tests
use tiny_coro_build_your_own.Common.{
  ℕ, ◌+◌, ◌-◌, ◌*◌, Bool, true, false, ◌&&◌, Option, none, some, List, [], ◌∷◌, ◌++◌, if◌then◌else◌,
  ltb, leb, ◌==◌, length, take,
}
use tiny_coro_build_your_own.Common.Text.{Bytes}

pub record Header : Type 0 where
  pub name : Bytes
  pub value : Bytes

pub record HttpRequest : Type 0 where
  pub method : Bytes
  pub path : Bytes
  pub minor_version : ℕ
  pub headers : List Header

-- `std::tolower`
abbrev pub to_lower : ℕ → ℕ
to_lower c = if leb 65 c && leb c 90 then c + 32 else c

-- The inner loop of `get_header`, over names of one length.
abbrev pub same_letters : Bytes → Bytes → Bool
same_letters xs [] = true
same_letters [] (y ∷ ys) = false
same_letters (x ∷ xs) (y ∷ ys) = (to_lower x == to_lower y) && same_letters xs ys

abbrev pub matches : Bytes → Header → Bool
matches name h = (length h.name == length name) && same_letters h.name name

unfoldable pub get_header : Bytes → List Header → Bytes
get_header name [] = []
get_header name (h ∷ headers) =
    let rest = get_header name headers in if matches name h then h.value else rest

-- What `phr_parse_request` returns: a length, or one of its two errors.
pub data Parsed : Type 0 where
  parsed : ℕ → HttpRequest → Parsed
  bad incomplete : Parsed

-- `parse_request`, with the request that `phr_parse_request` finds: it changes `req` only on success.
unfoldable pub parse_request : (Bytes → Parsed) → Bytes → HttpRequest → Parsed × HttpRequest
parse_request phr_parse_request buf req = elim (phr_parse_request buf) [
  | parsed n found ↦ (parsed n found, found)
  | bad ↦ (bad, req)
  | incomplete ↦ (incomplete, req)
]

-- `min(a, b)`
abbrev pub smaller : ℕ → ℕ → ℕ
smaller a b = if ltb b a then b else a

-- The size of the next read of `receive_to_file`.
abbrev pub to_read : ℕ → ℕ → ℕ
to_read content_length total = smaller 8192 (content_length - total)

-- The loop, with what the reads give: bytes, or nothing where the result is not positive. The file
-- afterwards, without the bytes if no more reads come.
unfoldable pub receive_loop : ℕ → ℕ → Bytes → List (Option Bytes) → Bytes
receive_loop content_length total file [] = file
receive_loop content_length total file (none ∷ reads) = file
receive_loop content_length total file (some bytes ∷ reads) =
    let rest = receive_loop content_length (total + length bytes) (file ++ bytes) reads in
    if ltb total content_length then rest else file

-- `receive_to_file` for a file that can be opened.
unfoldable pub receive_to_file : ℕ → Bytes → List (Option Bytes) → Bytes
unfolding receive_loop
receive_to_file content_length initial_data reads =
    let to_write = smaller (length initial_data) content_length in
    receive_loop content_length to_write (take to_write initial_data) reads
