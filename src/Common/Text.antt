-- ===== src/Common/Text.antt =====
-- Text as bytes: literals, the search for a line end, and decimal numbers, after `std::string`.

use Prim.Native.String.{String}
use Prim.Native.Char.{code}
use Prim.Native.Nat.{ℕ, zero, suc, ◌+◌, ◌-◌, ◌*◌, ◌/◌, ◌%◌, ◌<◌}
use native.Mathlib.Nat.{div-add-mod}
use mathlib.Core.Path.{◌≡◌, refl, ap, ◌∙◌}
use mathlib.Core.Logic.{◌≢◌, inl, inr}
use mathlib.Core.Bool.{Bool, false, ◌&&◌}
use mathlib.Core.Option.{Option, none, some}
use mathlib.Core.List.{List, [], ◌∷◌, ◌++◌}
use native.Mathlib.Omega.{arith}
use tiny_coro_build_your_own.Common.Tests.{if◌then◌else◌, ltb, ◌==◌, Bool-cases}
use tiny_coro_build_your_own.Common.Lists.{All}

abbrev pub Bytes : Type 0
Bytes = List ℕ

-- The bytes of an ASCII text.
abbrev pub codes : String → Bytes
codes String.[] = []
codes (String.◌∷◌ c s) = code c ∷ codes s

abbrev pub cr : ℕ
cr = 13

abbrev pub lf : ℕ
lf = 10

abbrev pub crlf : Bytes
crlf = cr ∷ lf ∷ []

abbrev pub starts_with : ℕ → Bytes → Bool
starts_with c [] = false
starts_with c (x ∷ xs) = x == c

abbrev pub tail : Bytes → Bytes
tail [] = []
tail (x ∷ xs) = xs

-- `data.find("\r\n", pos)`: the bytes before it, and those behind it.
unfoldable pub find_line : Bytes → Option (Bytes × Bytes)
find_line [] = none
find_line (c ∷ input) =
    let later = find_line input in
    if (c == cr) && starts_with lf input
    then some ([], tail input)
    else elim later [ none ↦ none | some (line, rest) ↦ some (c ∷ line, rest) ]

abbrev pub NoCr : Bytes → Type 0
NoCr line = All (λ c. c ≢ 13) line

pub find_line-finds :
    (line rest : Bytes) → NoCr line → find_line (line ++ cr ∷ lf ∷ rest) ≡ some (line, rest)
unfolding find_line
find_line-finds [] rest n = refl
find_line-finds (c ∷ line) rest n = ground (arith, find_line-finds line rest n.1)

pub find_line-none : (rest : Bytes) → NoCr rest → find_line rest ≡ none
unfolding find_line
find_line-none [] n = refl
find_line-none (c ∷ rest) n = ground (arith, find_line-none rest n.1)

-- `std::to_string` of a number that is not negative, with a bound on its digits.
unfoldable pub digits : ℕ → ℕ → Bytes → Bytes
digits zero n acc = acc
digits (suc fuel) n acc =
    let rest = digits fuel (n / 10) ((48 + n % 10) ∷ acc) in
    if ltb n 10 then (48 + n) ∷ acc else rest

abbrev pub to_string : ℕ → Bytes
to_string n = digits (suc n) n []

-- The number that digits stand for, read from the left.
abbrev pub number : ℕ → Bytes → ℕ
number n [] = n
number n (c ∷ cs) = number (n * 10 + (c - 48)) cs

digits-number : (fuel n : ℕ) (acc : Bytes) → n < fuel → number 0 (digits fuel n acc) ≡ number n acc
unfolding digits
digits-number zero n acc h = absurd (omega arith)
digits-number (suc fuel) n acc h = elim (Bool-cases (ltb n 10)) [
  | inl small ↦ rw small (ap (λ m. number m acc) (omega arith))
  | inr large ↦ rw large (
      digits-number fuel (n / 10) ((48 + n % 10) ∷ acc) (ground arith)
      ∙ ap (λ m. number m acc) (omega (arith, div-add-mod n 10)))
]

pub number-to_string : (n : ℕ) → number 0 (to_string n) ≡ n
number-to_string n = digits-number (suc n) n [] (omega arith)

digits-NoCr : (fuel n : ℕ) (acc : Bytes) → NoCr acc → NoCr (digits fuel n acc)
unfolding digits
digits-NoCr zero n acc h = h
digits-NoCr (suc fuel) n acc h = elim (Bool-cases (ltb n 10)) [
  | inl small ↦ rw small ((λ e. omega arith), h)
  | inr large ↦ rw large (digits-NoCr fuel (n / 10) ((48 + n % 10) ∷ acc) ((λ e. omega arith), h))
]

pub to_string-NoCr : (n : ℕ) → NoCr (to_string n)
to_string-NoCr n = digits-NoCr (suc n) n [] tt
