-- ===== src/Http/Response/Reading.antt =====
-- A client that reads responses finds the bodies that were sent.
use tiny_coro_build_your_own.Common.{
  ℕ, zero, suc, ◌<◌, ◌≡◌, refl, sym, ap, ◌∙◌, Bool, true, false, Option, none, some, List, [], ◌∷◌,
  ◌++◌, arith, if◌then◌else◌, leb, ◌==◌, is_empty, length, take, drop, append_assoc, Bool-cases,
  inl, inr, length-append, length-take, All, ap₂, take-all, take-prefix, drop-prefix,
}
use tiny_coro_build_your_own.Common.Int.{pos}
use tiny_coro_build_your_own.Common.Text.{
  Bytes, codes, cr, lf, NoCr, find_line, find_line-finds, to_string, to_string-NoCr,
  number-to_string,
}
use tiny_coro_build_your_own.Http.Response.{
  response_header, send_response, prepend, read_head, length_name, content_length, cut_body,
  read_response,
}

read_head-line :
    (fuel : ℕ) (input line rest : Bytes)
    → find_line input ≡ some (line, rest)
    → is_empty line ≡ false
    → read_head (suc fuel) input ≡ prepend line (read_head fuel rest)
unfolding read_head
read_head-line fuel input line rest found some_text =
    ap
      (λ (r : Option (Bytes × Bytes)). elim r [
        | none ↦ none
        | some (line', rest') ↦
            let later = read_head fuel rest' in
            if is_empty line' then some ([], rest') else prepend line' later
      ])
      found
    ∙ ap (λ (b : Bool). if b then some ([], rest) else prepend line (read_head fuel rest)) some_text

append-NoCr : (xs ys : Bytes) → NoCr xs → NoCr ys → NoCr (xs ++ ys)
append-NoCr [] ys h k = k
append-NoCr (x ∷ xs) ys h k = (h.0, append-NoCr xs ys h.1 k)

abbrev status_line : ℕ → Bytes
status_line status =
    codes "HTTP/1.1 " ++ to_string status ++ (if status == 200 then codes " OK" else codes " Error")

abbrev type_line : Bytes → Bytes
type_line content_type = codes "Content-Type: " ++ content_type

abbrev length_line : Bytes → Bytes
length_line body = length_name ++ to_string (length body)

-- The header's lines.
abbrev header_lines : ℕ → Bytes → Bytes → List Bytes
header_lines status content_type body =
    status_line status
    ∷ codes "Server: tiny_coro/1.0"
    ∷ type_line content_type
    ∷ length_line body
    ∷ codes "Connection: keep-alive"
    ∷ []

-- Lines with their ends, an empty line, and the rest.
abbrev lay_out : List Bytes → Bytes → Bytes
lay_out [] rest = cr ∷ lf ∷ rest
lay_out (line ∷ lines) rest = line ++ cr ∷ lf ∷ lay_out lines rest

header-lay_out :
    (status : ℕ) (content_type body rest : Bytes)
    → response_header status content_type body ++ rest
      ≡ lay_out (header_lines status content_type body) rest
unfolding response_header
header-lay_out status content_type body rest = elim (Bool-cases (status == 200)) [
  | inl ok ↦ rw ok (simp append_assoc)
  | inr error ↦ rw error (simp append_assoc)
]

abbrev IsLine : Bytes → Type 0
IsLine line = NoCr line × (is_empty line ≡ false)

read_head-lay_out :
    (fuel : ℕ) (lines : List Bytes) (rest : Bytes)
    → All IsLine lines
    → length lines < fuel
    → read_head fuel (lay_out lines rest) ≡ some (lines, rest)
unfolding read_head find_line
read_head-lay_out zero lines rest good enough = absurd (omega arith)
read_head-lay_out (suc fuel) [] rest good enough = refl
read_head-lay_out (suc fuel) (line ∷ lines) rest ((no_cr, some_text), later) enough =
    read_head-line fuel (lay_out (line ∷ lines) rest) line (lay_out lines rest)
      (find_line-finds line (lay_out lines rest) no_cr) some_text
    ∙ ap (prepend line) (read_head-lay_out fuel lines rest later (omega arith))

length-lay_out : (lines : List Bytes) (rest : Bytes) → length lines < length (lay_out lines rest)
length-lay_out [] rest = omega arith
length-lay_out (line ∷ lines) rest =
    omega (arith, length-append line (cr ∷ lf ∷ lay_out lines rest), length-lay_out lines rest)

status_line-NoCr : (status : ℕ) → NoCr (status_line status)
status_line-NoCr status = append-NoCr (codes "HTTP/1.1 ") _ (ground arith) (
    append-NoCr (to_string status) _ (to_string-NoCr status) (elim (Bool-cases (status == 200)) [
      | inl ok ↦ rw ok (ground arith)
      | inr error ↦ rw error (ground arith)
    ]))

header_lines-IsLine :
    (status : ℕ) (content_type body : Bytes)
    → NoCr content_type
    → All IsLine (header_lines status content_type body)
header_lines-IsLine status content_type body h =
    let typed = append-NoCr (codes "Content-Type: ") content_type (ground arith) h in
    let counted =
      append-NoCr length_name (to_string (length body)) (ground arith)
        (to_string-NoCr (length body)) in
    (
      (status_line-NoCr status, refl),
      ((ground arith, refl), ((typed, refl), ((counted, refl), ((ground arith, refl), tt)))),
    )

-- What the client makes of a whole header and some bytes behind it.
read_response-header :
    (status : ℕ) (content_type body rest : Bytes)
    → NoCr content_type
    → read_response (response_header status content_type body ++ rest) ≡ cut_body rest (length body)
unfolding read_response content_length
read_response-header status content_type body rest h =
    let lines = header_lines status content_type body in
    ap read_response (header-lay_out status content_type body rest)
    ∙ ap
        (λ (r : Option (List Bytes × Bytes)). elim r [
          | none ↦ none
          | some (lines', rest') ↦ elim (content_length lines') [
            | none ↦ none
            | some n ↦ cut_body rest' n
          ]
        ])
        (read_head-lay_out (length (lay_out lines rest)) lines rest
          (header_lines-IsLine status content_type body h) (length-lay_out lines rest))
    ∙ ap (cut_body rest) (number-to_string (length body))

sent :
    (status : ℕ) (content_type body : Bytes) (m : ℕ)
    → send_response status content_type body
        (pos (length (response_header status content_type body)))
        (pos m)
      ≡ response_header status content_type body ++ take m body
unfolding send_response
sent status content_type [] m =
    ap (λ xs. xs ++ [])
      (take-all (length (response_header status content_type []))
        (response_header status content_type []) (omega arith))
    ∙ ap (λ xs. response_header status content_type [] ++ xs) (sym (take-all m [] (omega arith)))
sent status content_type (c ∷ body) m =
    ap (λ xs. xs ++ take m (c ∷ body))
      (take-all (length (response_header status content_type (c ∷ body)))
        (response_header status content_type (c ∷ body)) (omega arith))

-- If both writes take all that they are given, and the content type holds no carriage return, a client that reads the
-- length from the header gets the body exactly, and whatever follows on the connection is left for
-- the next response.
pub read-send_response :
    (status : ℕ) (content_type body next : Bytes)
    → NoCr content_type
    → read_response (
        send_response status content_type body
          (pos (length (response_header status content_type body)))
          (pos (length body))
        ++ next)
      ≡ some (body, next)
read-send_response status content_type body next h =
    ap (λ xs. read_response (xs ++ next))
      (sent status content_type body (length body)
        ∙ ap (λ xs. response_header status content_type body ++ xs)
            (take-all (length body) body (omega arith)))
    ∙ ap read_response (append_assoc (response_header status content_type body) body next)
    ∙ read_response-header status content_type body (body ++ next) h
    ∙ whole
  where
    enough : leb (length body) (length (body ++ next)) ≡ true
    enough = ground (arith, length-append body next)

    whole : cut_body (body ++ next) (length body) ≡ some (body, next)
    whole =
        ap
          (λ b.
            if b
            then some (take (length body) (body ++ next), drop (length body) (body ++ next))
            else none)
          enough
        ∙ ap₂ (λ xs ys. some (xs, ys)) (take-prefix (length body) body next refl)
            (drop-prefix (length body) body next refl)

-- If the write of the body takes only a part, `send_response` ends all the same, and the client never gets a complete
-- response.
pub short_write-truncates :
    (status : ℕ) (content_type body : Bytes) (m : ℕ)
    → NoCr content_type
    → m < length body
    → read_response (
        send_response status content_type body
          (pos (length (response_header status content_type body)))
          (pos m))
      ≡ none
short_write-truncates status content_type body m h short =
    ap read_response (sent status content_type body m)
    ∙ read_response-header status content_type body (take m body) h
    ∙ ap
        (λ b.
          if b
          then some (take (length body) (take m body), drop (length body) (take m body))
          else none)
        too_few
  where
    too_few : leb (length body) (length (take m body)) ≡ false
    too_few = ground (arith, length-take m body)
