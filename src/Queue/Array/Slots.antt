-- ===== src/Queue/Array/Slots.antt =====
-- Where the entries of the circular buffer lie, and that `resize` keeps them.
use Prim.Native.Nat.{bit_and}
use native.Mathlib.Nat.{div-add-mod, mod-lt, one-le-pow, pow-suc, mul-le-mul_left}
use tiny_coro_build_your_own.Common.{
  ℕ, zero, suc, ◌+◌, ◌-◌, ◌*◌, ◌/◌, ◌%◌, ◌^◌, ◌≤◌, ◌<◌, ◌≡◌, refl, ◌≢◌, ◌∙◌, List, [], ◌∷◌, ◌++◌,
  ap, arith, sym, dec_lt, length, get_or, set, length-set, length-replicate,
}
use tiny_coro_build_your_own.Common.Bits.{bit_and-mask}
use tiny_coro_build_your_own.Queue.Array.{Array, new_array, put, get, copy_range, resize}

-- The capacity is 2 ^ k, which is what the mask relies on.
pub record IsArray (k : ℕ) (a : Array) : Type 0 where
  pub capacity : a.cap ≡ 2 ^ k
  pub masks : a.mask ≡ a.cap - 1
  pub filled : length a.buffer ≡ a.cap

-- `i & mask` is the remainder by the capacity.
pub slot : {k : ℕ} {a : Array} → IsArray k a → (i : ℕ) → bit_and i a.mask ≡ i % a.cap
slot {k} v i = rw (v.masks, v.capacity) (bit_and-mask k i)

pub cap_pos : {k : ℕ} {a : Array} → IsArray k a → 0 < a.cap
cap_pos {k} v = omega (arith, v.capacity, one-le-pow k 2)

get_or-set_self : (xs : List ℕ) (i v d : ℕ) → i < length xs → get_or (set xs i v) i d ≡ v
get_or-set_self [] i v d h = absurd (omega arith)
get_or-set_self (x ∷ xs) zero v d h = refl
get_or-set_self (x ∷ xs) (suc i) v d h = get_or-set_self xs i v d (omega arith)

get_or-set_ne : (xs : List ℕ) (i j v d : ℕ) → i ≢ j → get_or (set xs i v) j d ≡ get_or xs j d
get_or-set_ne [] i j v d h = refl
get_or-set_ne (x ∷ xs) zero zero v d h = absurd (h refl)
get_or-set_ne (x ∷ xs) zero (suc j) v d h = refl
get_or-set_ne (x ∷ xs) (suc i) zero v d h = refl
get_or-set_ne (x ∷ xs) (suc i) (suc j) v d h = get_or-set_ne xs i j v d (λ e. omega arith)

not-lt : {a b : ℕ} → ¬ (a < b) → b ≤ a
not-lt h = omega arith

-- Two indices less than a capacity apart fall into different slots.
mod-apart : (c i j : ℕ) → i < j → j < i + c → i % c ≢ j % c
mod-apart c i j lt near e = elim (dec_lt (i / c) (j / c)) [
  | yes more ↦ omega (arith, div-add-mod i c, div-add-mod j c, mul-le-mul_left c more)
  | no less ↦ omega (arith, div-add-mod i c, div-add-mod j c, mul-le-mul_left c (not-lt less))
]

pub get-put_self : {k : ℕ} {a : Array} → IsArray k a → (i p : ℕ) → get i (put i p a) ≡ p
unfolding get put
get-put_self {k} {a} v i p =
    rw (slot v i)
      (get_or-set_self a.buffer (i % a.cap) p 0 (omega (arith, v.filled, mod-lt i (cap_pos v))))

pub get-put_apart :
    {k : ℕ} {a : Array}
    → IsArray k a
    → (i j p : ℕ) → i < j
    → j < i + a.cap
    → get i (put j p a) ≡ get i a
unfolding get put
get-put_apart {k} {a} v i j p lt near =
    rw (slot v i, slot v j)
      (get_or-set_ne a.buffer (j % a.cap) (i % a.cap) p 0
        (λ e. mod-apart a.cap i j lt near (sym e)))

pub put-cap : (i p : ℕ) (a : Array) → (put i p a).cap ≡ a.cap
unfolding put
put-cap i p a = refl

pub put-IsArray : {k : ℕ} {a : Array} → IsArray k a → (i p : ℕ) → IsArray k (put i p a)
unfolding put
put-IsArray v i p = record {
  capacity = v.capacity;
  masks = v.masks;
  filled = length-set _ _ _ ∙ v.filled;
}

-- The `n` entries from index `t` on.
unfoldable pub window : Array → ℕ → ℕ → List ℕ
window a t zero = []
window a t (suc n) = get t a ∷ window a (suc t) n

pub window-eq :
    (a a' : Array) (t n : ℕ)
    → ((j : ℕ) → t ≤ j → j < t + n → get j a ≡ get j a')
    → window a t n ≡ window a' t n
unfolding window
window-eq a a' t zero same = refl
window-eq a a' t (suc n) same = rw (
  same t (omega arith) (omega arith),
  window-eq a a' (suc t) n (λ j p q. same j (omega arith) (omega arith)),
)

pub window-suc : (a : Array) (t n : ℕ) → window a t (suc n) ≡ window a t n ++ get (t + n) a ∷ []
unfolding window
window-suc a t zero = ap (λ j. get j a ∷ []) (omega arith)
window-suc a t (suc n) =
    ap (λ xs. get t a ∷ xs)
      (window-suc a (suc t) n ∙ ap (λ j. window a (suc t) n ++ get j a ∷ []) (omega arith))

copy_range-before :
    {k : ℕ} (old new : Array) (i n j : ℕ)
    → IsArray k new
    → j < i
    → i + n ≤ j + new.cap
    → get j (copy_range old i n new) ≡ get j new
unfolding copy_range
copy_range-before old new i zero j v lt near = refl
copy_range-before old new i (suc n) j v lt near =
    copy_range-before old (put i (get i old) new) (suc i) n j (put-IsArray v i (get i old))
      (omega arith) (omega (arith, put-cap i (get i old) new))
    ∙ get-put_apart v j i (get i old) lt (omega arith)

copy_range-copied :
    {k : ℕ} (old new : Array) (i n j : ℕ)
    → IsArray k new
    → i ≤ j
    → j < i + n
    → n ≤ new.cap
    → get j (copy_range old i n new) ≡ get j old
unfolding copy_range
copy_range-copied old new i zero j v le lt fits = absurd (omega arith)
copy_range-copied old new i (suc n) j v le lt fits = elim (dec_lt i j) [
  | yes later ↦
      copy_range-copied old (put i (get i old) new) (suc i) n j (put-IsArray v i (get i old)) later
        (omega arith) (omega (arith, put-cap i (get i old) new))
  | no here ↦
      let e : i ≡ j = omega arith in
      rw (← e) (
        copy_range-before old (put i (get i old) new) (suc i) n i (put-IsArray v i (get i old))
          (omega arith) (omega (arith, put-cap i (get i old) new))
        ∙ get-put_self v i (get i old))
]

copy_range-IsArray :
    {k : ℕ} (old new : Array) (i n : ℕ) → IsArray k new → IsArray k (copy_range old i n new)
unfolding copy_range
copy_range-IsArray old new i zero v = v
copy_range-IsArray old new i (suc n) v =
    copy_range-IsArray old (put i (get i old) new) (suc i) n (put-IsArray v i (get i old))

pub new_array-IsArray : (k address : ℕ) → IsArray k (new_array address (2 ^ k))
unfolding new_array
new_array-IsArray k address = record {
  capacity = refl;
  masks = refl;
  filled = length-replicate (2 ^ k) 0;
}

-- A resize doubles the capacity and keeps the entries between `t` and `b`.
pub resize-IsArray :
    {k : ℕ} {a : Array} → IsArray k a → (address b t : ℕ) → IsArray (suc k) (resize address b t a)
unfolding resize
resize-IsArray {k} {a} v address b t =
    copy_range-IsArray a (new_array address (a.cap * 2)) t (b - t)
      (rw doubled (new_array-IsArray (suc k) address))
  where
    doubled : a.cap * 2 ≡ 2 ^ suc k
    doubled = omega (arith, v.capacity, pow-suc 2 k)

pub resize-get :
    {k : ℕ} {a : Array}
    → IsArray k a
    → (address b t j : ℕ) → b - t ≤ a.cap * 2
    → t ≤ j
    → j < b
    → get j (resize address b t a) ≡ get j a
unfolding resize
resize-get {k} {a} v address b t j fits le lt =
    copy_range-copied {k = suc k} a (new_array address (a.cap * 2)) t (b - t) j
      (rw doubled (new_array-IsArray (suc k) address)) le (omega arith) fits
  where
    doubled : a.cap * 2 ≡ 2 ^ suc k
    doubled = omega (arith, v.capacity, pow-suc 2 k)

pub resize-window :
    {k : ℕ} {a : Array}
    → IsArray k a
    → (address b t : ℕ) → b - t ≤ a.cap * 2
    → window (resize address b t a) t (b - t) ≡ window a t (b - t)
resize-window {k} {a} v address b t fits =
    window-eq (resize address b t a) a t (b - t)
      λ j p q. resize-get v address b t j fits p (omega arith)
