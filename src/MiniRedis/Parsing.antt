-- ===== src/MiniRedis/Parsing.antt =====
-- What `parse_resp` makes of a request, line by line.
use tiny_coro_build_your_own.Common.{
  ℕ, ℕ_discrete, ◌≢◌, zero, suc, ◌≤◌, ◌≡◌, refl, ap, ◌∙◌, Option, none, some, List, [], ◌∷◌, ◌++◌,
  arith, length, length-append, All,
}
use tiny_coro_build_your_own.Common.Text.{
  Bytes, cr, lf, NoCr, find_line, find_line-finds, find_line-none,
}
use tiny_coro_build_your_own.MiniRedis.{star, dollar, parse_loop, parse_resp, keep_line}

-- Lines, each with its end.
abbrev pub join : List Bytes → Bytes → Bytes
join [] rest = rest
join (line ∷ lines) rest = line ++ cr ∷ lf ∷ join lines rest

-- The tokens among the lines: all but the empty ones and those that start with "*", which is 42, or
-- "$", which is 36.
abbrev pub tokens_of : List Bytes → List Bytes
tokens_of [] = []
tokens_of ([] ∷ lines) = tokens_of lines
tokens_of ((c ∷ line) ∷ lines) = elim (ℕ_discrete c 42) [
  | yes _ ↦ tokens_of lines
  | no _ ↦ elim (ℕ_discrete c 36) [ yes _ ↦ tokens_of lines | no _ ↦ (c ∷ line) ∷ tokens_of lines ]
]

keep_line-token :
    (line : Bytes) (lines : List Bytes)
    → keep_line line (tokens_of lines) ≡ tokens_of (line ∷ lines)
keep_line-token [] lines = refl
keep_line-token (c ∷ line) lines = ground arith

parse_loop-ends :
    (fuel : ℕ) (input : Bytes) → find_line input ≡ none → parse_loop (suc fuel) input ≡ []
unfolding parse_loop
parse_loop-ends fuel input e = ground (arith, e)

parse_loop-goes_on :
    (fuel : ℕ) (input line rest : Bytes)
    → find_line input ≡ some (line, rest)
    → parse_loop (suc fuel) input ≡ keep_line line (parse_loop fuel rest)
unfolding parse_loop
parse_loop-goes_on fuel input line rest e =
    ap
      (λ (r : Option (Bytes × Bytes)). elim r [
        | none ↦ []
        | some (line', rest') ↦ keep_line line' (parse_loop fuel rest')
      ])
      e

parse_loop-join :
    (fuel : ℕ) (lines : List Bytes) (rest : Bytes)
    → All NoCr lines
    → NoCr rest
    → length (join lines rest) ≤ fuel
    → parse_loop fuel (join lines rest) ≡ tokens_of lines
unfolding parse_loop
parse_loop-join zero [] rest n r le = refl
parse_loop-join zero (line ∷ lines) rest n r le =
    absurd (omega (arith, length-append line (cr ∷ lf ∷ join lines rest)))
parse_loop-join (suc fuel) [] rest n r le = parse_loop-ends fuel rest (find_line-none rest r)
parse_loop-join (suc fuel) (line ∷ lines) rest n r le =
    parse_loop-goes_on fuel _ line (join lines rest) (find_line-finds line (join lines rest) n.0)
    ∙ ap (keep_line line) (
        parse_loop-join fuel lines rest n.1 r
          (omega (arith, le, length-append line (cr ∷ lf ∷ join lines rest))))
    ∙ keep_line-token line lines

-- Of complete lines without a carriage return, `parse_resp` returns those that are not empty and do
-- not start with `*` or `$`, in order; it ignores what follows the last line end if that has no carriage
-- return.
pub parse_resp-tokens :
    (lines : List Bytes) (rest : Bytes)
    → All NoCr lines
    → NoCr rest
    → parse_resp (join lines rest) ≡ tokens_of lines
unfolding parse_resp
parse_resp-tokens lines rest n r = parse_loop-join _ lines rest n r (omega arith)

-- An argument of a request, with the digits of its length.
pub record Argument : Type 0 where
  pub size : Bytes
  pub bytes : Bytes

abbrev pub argument_lines : List Argument → List Bytes
argument_lines [] = []
argument_lines (a ∷ args) = (dollar ∷ a.size) ∷ a.bytes ∷ argument_lines args

-- A request in the protocol's format: the number of arguments, and each argument behind its length.
abbrev pub request : Bytes → List Argument → Bytes
request count args = join ((star ∷ count) ∷ argument_lines args) []

abbrev pub all_bytes : List Argument → List Bytes
all_bytes [] = []
all_bytes (a ∷ args) = a.bytes ∷ all_bytes args

-- A line that is a token.
abbrev pub IsToken : Bytes → Type 0
IsToken [] = ⊥
IsToken (c ∷ line) = (c ≢ 42) × (c ≢ 36)

abbrev pub Plain : Argument → Type 0
Plain a = NoCr a.size × NoCr a.bytes × IsToken a.bytes

tokens_of-token :
    (line : Bytes) (lines : List Bytes)
    → IsToken line
    → tokens_of (line ∷ lines) ≡ line ∷ tokens_of lines
tokens_of-token [] lines h = absurd h
tokens_of-token (c ∷ line) lines h = ground arith

argument_lines-NoCr : (args : List Argument) → All Plain args → All NoCr (argument_lines args)
argument_lines-NoCr [] p = tt
argument_lines-NoCr (a ∷ args) p =
    (((λ e. omega arith), p.0.0), (p.0.1, argument_lines-NoCr args p.1))

tokens_of-arguments :
    (args : List Argument) → All Plain args → tokens_of (argument_lines args) ≡ all_bytes args
unfolding ℕ_discrete
tokens_of-arguments [] p = refl
tokens_of-arguments (a ∷ args) p =
    tokens_of-token a.bytes (argument_lines args) p.0.2
    ∙ ap (λ xs. a.bytes ∷ xs) (tokens_of-arguments args p.1)

-- A request whose arguments are not empty, hold no carriage return and do not start with `*` or `$` is
-- parsed into its arguments.
pub parse_resp-request :
    (count : Bytes) (args : List Argument)
    → NoCr count
    → All Plain args
    → parse_resp (request count args) ≡ all_bytes args
unfolding ℕ_discrete
parse_resp-request count args n p =
    parse_resp-tokens ((star ∷ count) ∷ argument_lines args) []
      (((λ e. omega arith), n), argument_lines-NoCr args p) tt
    ∙ tokens_of-arguments args p
