-- ===== src/MiniRedis/Tests.antt =====
-- The theorems on requests and commands at small examples.
use tiny_coro_build_your_own.Common.{ℕ_discrete, ◌≡◌, none, List, [], ◌∷◌, arith, All}
use tiny_coro_build_your_own.Common.Text.{Bytes, NoCr}
use tiny_coro_build_your_own.MiniRedis.{Store, parse_resp, star, dollar, set_name}
use tiny_coro_build_your_own.MiniRedis.Parsing.{join, Argument, parse_resp-tokens}

abbrev key : Bytes
key = 107 ∷ []

-- A SET of the value "*", in the protocol's format: the value is lost.
abbrev set_star : List Bytes
set_star =
    (star ∷ 51 ∷ [])
    ∷ (dollar ∷ 51 ∷ [])
    ∷ set_name
    ∷ (dollar ∷ 49 ∷ [])
    ∷ key
    ∷ (dollar ∷ 49 ∷ [])
    ∷ (star ∷ [])
    ∷ []

set_star-NoCr : All NoCr set_star
set_star-NoCr = ground arith

parse_resp-tokens_example : parse_resp (join set_star []) ≡ set_name ∷ key ∷ []
unfolding ℕ_discrete
parse_resp-tokens_example = parse_resp-tokens set_star [] set_star-NoCr tt

abbrev no_keys : Store
no_keys k = none

-- "set" in small letters
abbrev small_set : Bytes
small_set = 115 ∷ 101 ∷ 116 ∷ []

abbrev argument : Bytes → Argument
argument bytes = record { size = 49 ∷ []; bytes = bytes }

abbrev keeps : Store → Store
keeps db = db
