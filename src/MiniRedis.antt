-- ===== src/MiniRedis.antt =====
-- src/mini_redis.cpp: the parser of requests, and what `handle_client` does for one request. Strings
-- are lists of bytes; the map is a function from keys. The child Connection has a connection, and
-- Interleaved the accesses of several.
pub mod Parsing
pub mod Commands
pub mod Connection
pub mod Interleaved
mod Tests
use tiny_coro_build_your_own.Common.{
  ℕ, zero, suc, ◌+◌, ◌-◌, ◌/◌, ◌%◌, Bool, true, false, ◌&&◌, ◌||◌, Option, none, some, List, [],
  ◌∷◌, ◌++◌, if◌then◌else◌, ltb, leb, ◌==◌, length, map,
}
use tiny_coro_build_your_own.Common.Text.{Bytes, crlf, find_line, to_string}

abbrev pub star : ℕ
star = 42

abbrev pub dollar : ℕ
dollar = 36

-- The lines that the loop passes over.
abbrev pub skipped : Bytes → Bool
skipped [] = true
skipped (c ∷ line) = (c == star) || (c == dollar)

abbrev pub keep_line : Bytes → List Bytes → List Bytes
keep_line line tokens = if skipped line then tokens else line ∷ tokens

-- The loop from `pos` on, with a bound on its rounds.
unfoldable pub parse_loop : ℕ → Bytes → List Bytes
parse_loop zero input = []
parse_loop (suc fuel) input = elim (find_line input) [
  | none ↦ []
  | some (line, rest) ↦ let tokens = parse_loop fuel rest in keep_line line tokens
]

-- Each round takes two bytes at least, so there are no more rounds than bytes.
unfoldable pub parse_resp : Bytes → List Bytes
unfolding parse_loop
parse_resp input = parse_loop (length input) input

-- `std::transform(..., ::toupper)`
abbrev pub to_upper : ℕ → ℕ
to_upper c = if leb 97 c && leb c 122 then c - 32 else c

abbrev pub upper : Bytes → Bytes
upper = map to_upper

abbrev pub same : Bytes → Bytes → Bool
same [] [] = true
same [] (y ∷ ys) = false
same (x ∷ xs) [] = false
same (x ∷ xs) (y ∷ ys) = (x == y) && same xs ys

abbrev pub Store : Type 0
Store = Bytes → Option Bytes

-- `kv_store[key] = val` and `kv_store.erase(key)`
abbrev pub insert : Bytes → Option Bytes → Store → Store
insert key val db k = if same key k then val else db k

-- "PING", "SET", "GET", "DEL" and "QUIT"
abbrev pub ping_name : Bytes
ping_name = 80 ∷ 73 ∷ 78 ∷ 71 ∷ []

abbrev pub set_name : Bytes
set_name = 83 ∷ 69 ∷ 84 ∷ []

abbrev pub get_name : Bytes
get_name = 71 ∷ 69 ∷ 84 ∷ []

abbrev pub del_name : Bytes
del_name = 68 ∷ 69 ∷ 76 ∷ []

abbrev pub quit_name : Bytes
quit_name = 81 ∷ 85 ∷ 73 ∷ 84 ∷ []

-- "+PONG\r\n", "+OK\r\n" and "$-1\r\n"
abbrev pub pong_reply : Bytes
pong_reply = 43 ∷ 80 ∷ 79 ∷ 78 ∷ 71 ∷ crlf

abbrev pub ok_reply : Bytes
ok_reply = 43 ∷ 79 ∷ 75 ∷ crlf

abbrev pub nil_reply : Bytes
nil_reply = dollar ∷ 45 ∷ 49 ∷ crlf

-- "-ERR unknown command\r\n"
abbrev pub error_reply : Bytes
error_reply =
    45 ∷ 69 ∷ 82 ∷ 82 ∷ 32 ∷ 117 ∷ 110 ∷ 107 ∷ 110 ∷ 111 ∷ 119 ∷ 110 ∷ 32 ∷ 99 ∷ 111 ∷ 109 ∷ 109
    ∷ 97 ∷ 110 ∷ 100 ∷ crlf

abbrev pub value_reply : Option Bytes → Bytes
value_reply none = nil_reply
value_reply (some val) = dollar ∷ to_string (length val) ++ crlf ++ val ++ crlf

abbrev pub count_reply : Option Bytes → Bytes
count_reply none = 58 ∷ to_string 0 ++ crlf
count_reply (some val) = 58 ∷ to_string 1 ++ crlf

-- The map afterwards, the reply, and whether the connection is closed.
pub record Answer : Type 0 where
  pub store : Store
  pub reply : Bytes
  pub closes : Bool

abbrev pub answer : Store → Bytes → Answer
answer db reply = record { store = db; reply = reply; closes = false }

-- The branches behind those of SET, GET and DEL.
abbrev pub other_command : Bytes → Store → Answer
other_command cmd db =
    if same cmd quit_name
    then record { store = db; reply = ok_reply; closes = true }
    else answer db error_reply

-- Commands of one argument at least.
abbrev pub key_command : Bytes → Bytes → Store → Answer
key_command cmd key db =
    if same cmd get_name
    then answer db (value_reply (db key))
    else (if same cmd del_name
        then answer (insert key none db) (count_reply (db key))
        else other_command cmd db)

-- One round of `handle_client` for the arguments of a request that is not empty.
unfoldable pub execute : Bytes → List Bytes → Store → Answer
execute cmd [] db =
    if same (upper cmd) ping_name then answer db pong_reply else other_command (upper cmd) db
execute cmd (key ∷ []) db =
    if same (upper cmd) ping_name then answer db pong_reply else key_command (upper cmd) key db
execute cmd (key ∷ val ∷ args) db =
    if same (upper cmd) ping_name
    then answer db pong_reply
    else (if same (upper cmd) set_name
        then answer (insert key (some val) db) ok_reply
        else key_command (upper cmd) key db)
