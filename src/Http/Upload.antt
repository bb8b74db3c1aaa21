-- ===== src/Http/Upload.antt =====
-- What an upload writes to its file.
use Prim.Native.Nat.{min}
use tiny_coro_build_your_own.Common.{
  ℕ, ◌+◌, ◌-◌, ◌≤◌, ◌<◌, ◌≡◌, sym, ap, ◌∙◌, ◌⊎◌, inl, inr, false, Option, none, some, List, [], ◌∷◌,
  ◌++◌, arith, if◌then◌else◌, ltb, length, length-append, length-take, ltb→lt, take, take-all,
  take-prefix, take-append, append-nil, append_assoc, Bool-cases,
}
use tiny_coro_build_your_own.Common.Text.{Bytes}
use tiny_coro_build_your_own.Http.{smaller, to_read, receive_loop, receive_to_file}

-- What comes before the connection ends.
abbrev pub arrived : List (Option Bytes) → Bytes
arrived [] = []
arrived (none ∷ reads) = []
arrived (some bytes ∷ reads) = bytes ++ arrived reads

-- No read gives more than it is asked for. Reads that are not made are not looked at.
abbrev pub Fits : ℕ → ℕ → List (Option Bytes) → Type 0
Fits content_length total [] = Unit
Fits content_length total (none ∷ reads) = Unit
Fits content_length total (some bytes ∷ reads) =
    total < content_length
    → (length bytes ≤ to_read content_length total)
      × Fits content_length (total + length bytes) reads

all_kept : (n : ℕ) (xs : Bytes) → length xs ≤ n → take n (xs ++ []) ≡ xs
all_kept n xs le = ap (take n) (append-nil xs) ∙ take-all n xs le

smaller-cases : (a b : ℕ) → ((smaller a b ≡ b) × (b < a)) ⊎ ((smaller a b ≡ a) × (a ≤ b))
smaller-cases a b = elim (Bool-cases (ltb b a)) [
  | inl less ↦ inl (ap (λ t. if t then b else a) less, ltb→lt b a less)
  | inr more ↦ inr (ap (λ t. if t then b else a) more, ground arith)
]

smaller-le : (a b : ℕ) → smaller a b ≤ b
smaller-le a b = ground arith

initial_length :
    (xs : Bytes) (n : ℕ) → length (take (smaller (length xs) n) xs) ≡ smaller (length xs) n
initial_length xs n = length-take (smaller (length xs) n) xs ∙ bounded (length xs) n
  where
    bounded : (a b : ℕ) → min (smaller a b) a ≡ smaller a b
    bounded a b = elim (smaller-cases a b) [
      | inl (e, less) ↦ omega arith
      | inr (e, more) ↦ omega arith
    ]

read_in_bounds :
    (n total : ℕ) (bytes : Bytes)
    → total < n
    → length bytes ≤ to_read n total
    → total + length bytes ≤ n
read_in_bounds n total bytes more fits = omega (arith, smaller-le 8192 (n - total))

complete :
    (file : Bytes) (total n : ℕ)
    → ltb total n ≡ false
    → length file ≡ total
    → total ≤ n
    → length file ≡ n
complete file total n done e le = ground arith

receive_loop-prefix :
    (content_length total : ℕ) (file : Bytes) (reads : List (Option Bytes))
    → length file ≡ total
    → total ≤ content_length
    → Fits content_length total reads
    → receive_loop content_length total file reads ≡ take content_length (file ++ arrived reads)
unfolding receive_loop
receive_loop-prefix n total file [] e le f = sym (all_kept n file (omega arith))
receive_loop-prefix n total file (none ∷ reads) e le f = sym (all_kept n file (omega arith))
receive_loop-prefix n total file (some bytes ∷ reads) e le f = elim (Bool-cases (ltb total n)) [
  | inl more ↦
      let (fits, later) = f (ltb→lt total n more) in
      rw more (
        receive_loop-prefix n (total + length bytes) (file ++ bytes) reads
          (omega (arith, length-append file bytes))
          (read_in_bounds n total bytes (ltb→lt total n more) fits) later
        ∙ ap (take n) (append_assoc file bytes (arrived reads)))
  | inr done ↦
      rw done (sym (take-prefix n file (bytes ++ arrived reads) (complete file total n done e le)))
]

-- The initial data, cut to the length of the body, makes no difference to the first bytes.
initial_kept :
    (n : ℕ) (initial rest : Bytes)
    → take n (take (smaller (length initial) n) initial ++ rest) ≡ take n (initial ++ rest)
initial_kept n initial rest = elim (smaller-cases (length initial) n) [
  | inl (cut, long) ↦
      ap (λ w. take n (take w initial ++ rest)) cut
      ∙ take-prefix n (take n initial) rest (omega (arith, length-take n initial))
      ∙ sym (take-append n initial rest (omega arith))
  | inr (whole, short) ↦
      ap (λ w. take n (take w initial ++ rest)) whole
      ∙ ap (λ xs. take n (xs ++ rest)) (take-all (length initial) initial (omega arith))
]

-- If no read gives more bytes than it is asked for, the file holds the first `content_length` bytes of
-- the initial data and what arrives before the connection ends, or all if there are fewer.
pub receive_to_file-prefix :
    (content_length : ℕ) (initial_data : Bytes) (reads : List (Option Bytes))
    → Fits content_length (smaller (length initial_data) content_length) reads
    → receive_to_file content_length initial_data reads
      ≡ take content_length (initial_data ++ arrived reads)
unfolding receive_to_file
receive_to_file-prefix content_length initial_data reads f =
    let w = smaller (length initial_data) content_length in
    receive_loop-prefix content_length w (take w initial_data) reads
      (initial_length initial_data content_length) (smaller-le (length initial_data) content_length)
      f
    ∙ initial_kept content_length initial_data (arrived reads)
