-- ===== src/Queue/Refinement/Steps.antt =====
-- What one operation of the work-stealing queue does to its fields and slots.
use native.Mathlib.Nat.{mod-eq_of_lt}
use tiny_coro_build_your_own.Common.{
  ℕ, suc, ◌+◌, ◌-◌, ◌^◌, ◌≤◌, ◌<◌, ◌≡◌, ap, ap₂, ◌∙◌, none, some, List, [], ◌∷◌, ◌++◌, arith, refl,
  length-replicate,
}
use tiny_coro_build_your_own.Common.Int.{ℤ, pos, ◌+ℤ◌}
use tiny_coro_build_your_own.Task.{from_address}
use tiny_coro_build_your_own.Ebr
use tiny_coro_build_your_own.Ebr.{EbrManager}
use tiny_coro_build_your_own.Queue.Array.{Array, put, get, resize}
use tiny_coro_build_your_own.Queue.Array.Slots.{
  IsArray, window, window-suc, window-eq, put-IsArray, put-cap, get-put_self, get-put_apart,
}
use tiny_coro_build_your_own.Queue.Steal.{
  StealQueue, new_queue, to_size, make_room, write_bottom, pop, steal,
}

-- `b` is the number that `bottom` holds between operations, and 2 ^ k the capacity. One slot stays
-- free, and the counters are far from the limit of `long`.
pub record IsValid (k b : ℕ) (q : StealQueue) : Type 0 where
  pub array_valid : IsArray k q.array
  pub at_bottom : q.bottom ≡ pos b
  pub ordered : q.top ≤ b
  pub fits : suc b ≤ q.top + q.array.cap
  pub bounded : b < 2 ^ 63

-- The pointers in the queue, the oldest first.
abbrev pub contents : ℕ → StealQueue → List ℕ
contents b q = window q.array q.top (b - q.top)

window-put :
    {k : ℕ} {a : Array}
    → IsArray k a
    → (t n p : ℕ) → n < a.cap
    → window (put (t + n) p a) t (suc n) ≡ window a t n ++ p ∷ []
window-put {k} {a} v t n p fits =
    window-suc (put (t + n) p a) t n
    ∙ ap₂ (λ xs y. xs ++ y ∷ [])
        (window-eq (put (t + n) p a) a t n
          (λ j le lt. get-put_apart v j (t + n) p lt (omega arith)))
        (get-put_self v (t + n) p)

pub index : {k b : ℕ} {q : StealQueue} → IsValid k b q → to_size q.bottom ≡ b
index {b} v = ap to_size v.at_bottom ∙ mod-eq_of_lt (omega (arith, v.bounded))

bottom-suc : {b : ℕ} {z : ℤ} → z ≡ pos b → z +ℤ pos 1 ≡ pos (suc b)
unfolding ◌+ℤ◌
bottom-suc e = ground arith

pub write_bottom-IsValid :
    {k b : ℕ} {q : StealQueue} (p : ℕ)
    → IsValid k b q
    → suc (suc b) ≤ q.top + q.array.cap
    → suc b < 2 ^ 63
    → IsValid k (suc b) (write_bottom p q)
write_bottom-IsValid {q} p v room small = record {
  array_valid = put-IsArray v.array_valid (to_size q.bottom) p;
  at_bottom = bottom-suc v.at_bottom;
  ordered = omega (arith, v.ordered);
  fits = rw (put-cap (to_size q.bottom) p q.array) room;
  bounded = small;
}

pub write_bottom-contents :
    {k b : ℕ} {q : StealQueue} (p : ℕ)
    → IsValid k b q
    → contents (suc b) (write_bottom p q) ≡ contents b q ++ p ∷ []
write_bottom-contents {k} {b} {q} p v = rw (index v) (
    ap₂ (λ i n. window (put i p q.array) q.top n) (omega (arith, v.ordered))
      (omega (arith, v.ordered))
    ∙ window-put v.array_valid q.top (b - q.top) p (omega (arith, v.fits, v.ordered)))

pub pop_empty : {b : ℕ} (q : StealQueue) → q.bottom ≡ pos b → b ≡ q.top → pop q ≡ (q, none)
unfolding pop
pop_empty q at e = ground arith

pub pop_last :
    {b : ℕ} (q : StealQueue)
    → q.bottom ≡ pos b
    → b < 2 ^ 63
    → b ≡ q.top + 1
    → pop q ≡ (record q { top = q.top + 1 }, some (from_address (get q.top q.array)))
unfolding pop
pop_last {b} q at small e = ground (arith)

pub pop_more :
    {b : ℕ} (q : StealQueue)
    → q.bottom ≡ pos (suc b)
    → b < 2 ^ 63
    → q.top < b
    → pop q ≡ (record q { bottom = pos b }, some (from_address (get b q.array)))
unfolding pop
pop_more {b} q at small lt = ground (arith)

pub steal_empty : {b : ℕ} (q : StealQueue) → q.bottom ≡ pos b → b ≡ q.top → steal q ≡ (q, none)
unfolding steal
steal_empty q at e = ground arith

pub steal_more :
    {b : ℕ} (q : StealQueue)
    → q.bottom ≡ pos b
    → b < 2 ^ 63
    → q.top < b
    → steal q ≡ (record q { top = q.top + 1 }, some (from_address (get q.top q.array)))
unfolding steal
steal_more {b} q at small lt = ground (arith)

-- The list of pointers at its two ends.
pub contents_empty : {b : ℕ} (q : StealQueue) → b ≡ q.top → contents b q ≡ []
unfolding window
contents_empty {b} q e =
    let none_left : b - q.top ≡ 0 = omega arith in ap (window q.array q.top) none_left

pub contents_front :
    {b : ℕ} (q : StealQueue)
    → q.top < b
    → contents b q ≡ get q.top q.array ∷ contents b (record q { top = q.top + 1 })
unfolding window
contents_front {b} q lt =
    ap (window q.array q.top) counted
    ∙ ap (λ t. get q.top q.array ∷ window q.array t (b - (q.top + 1))) (omega arith)
  where
    counted : b - q.top ≡ suc (b - (q.top + 1))
    counted = omega arith

pub contents_back :
    {b : ℕ} (q : StealQueue) → q.top ≤ b → contents (suc b) q ≡ contents b q ++ get b q.array ∷ []
contents_back {b} q le =
    ap (window q.array q.top) counted
    ∙ window-suc q.array q.top (b - q.top)
    ∙ ap (λ i. contents b q ++ get i q.array ∷ []) (omega arith)
  where
    counted : suc b - q.top ≡ suc (b - q.top)
    counted = omega arith

-- `push` replaces the array when `cap - 1` slots are taken.
pub make_room_full :
    {b : ℕ} (fresh : ℕ) (ebr : EbrManager) (q : StealQueue)
    → q.bottom ≡ pos b
    → q.top ≤ b
    → q.top + q.array.cap ≤ suc b
    → 0 < q.array.cap
    → make_room fresh ebr q ≡ (
      record q { array = resize fresh (to_size q.bottom) q.top q.array },
      Ebr.retire q.local_state q.array.address ebr,
    )
unfolding make_room
make_room_full fresh ebr q at le full some_cap = ground arith

pub make_room_spare :
    {b : ℕ} (fresh : ℕ) (ebr : EbrManager) (q : StealQueue)
    → q.bottom ≡ pos b
    → q.top ≤ b
    → suc (suc b) ≤ q.top + q.array.cap
    → make_room fresh ebr q ≡ (q, ebr)
unfolding make_room
make_room_spare fresh ebr q at le spare = ground arith

-- A new queue holds 1024 slots and no pointer.
pub new_queue-IsValid : (address ls : ℕ) → IsValid 10 0 (new_queue address ls)
unfolding new_queue
new_queue-IsValid address ls = record {
  array_valid = record { capacity = refl; masks = refl; filled = length-replicate {A = ℕ} 1024 0 };
  at_bottom = refl;
  ordered = omega arith;
  fits = omega arith;
  bounded = omega arith;
}
