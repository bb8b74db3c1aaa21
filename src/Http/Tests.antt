-- ===== src/Http/Tests.antt =====
-- The theorems on uploads and responses: a body of four bytes in three parts, and a body of two bytes.
use tiny_coro_build_your_own.Common.{◌≡◌, Option, none, some, List, [], ◌∷◌, arith, ◌++◌, length}
use tiny_coro_build_your_own.Common.Int.{pos}
use tiny_coro_build_your_own.Common.Text.{Bytes, NoCr, codes}
use tiny_coro_build_your_own.Http.{receive_to_file}
use tiny_coro_build_your_own.Http.Response.{response_header, send_response, read_response}
use tiny_coro_build_your_own.Http.Response.Reading.{read-send_response, short_write-truncates}
use tiny_coro_build_your_own.Http.Upload.{Fits, receive_to_file-prefix}

abbrev reads : List (Option Bytes)
reads = some (2 ∷ 3 ∷ []) ∷ some (4 ∷ []) ∷ none ∷ []

reads-Fits : Fits 4 1 reads
reads-Fits = λ more. (omega arith, λ more'. (omega arith, tt))

receive_to_file-prefix_example : receive_to_file 4 (1 ∷ []) reads ≡ 1 ∷ 2 ∷ 3 ∷ 4 ∷ []
receive_to_file-prefix_example = receive_to_file-prefix 4 (1 ∷ []) reads reads-Fits

abbrev plain : Bytes
plain = codes "text/plain"

plain-NoCr : NoCr plain
plain-NoCr = ground arith

read-send_response_example :
    read_response (
      send_response 200 plain
        (codes "Hi")
        (pos (length (response_header 200 plain (codes "Hi"))))
        (pos 2)
      ++ codes "HTTP")
    ≡ some (codes "Hi", codes "HTTP")
read-send_response_example = read-send_response 200 plain (codes "Hi") (codes "HTTP") plain-NoCr

short_write-truncates_example :
    read_response (
      send_response 404 plain
        (codes "Hi")
        (pos (length (response_header 404 plain (codes "Hi"))))
        (pos 1))
    ≡ none
short_write-truncates_example =
    short_write-truncates 404 plain (codes "Hi") 1 plain-NoCr (omega arith)
