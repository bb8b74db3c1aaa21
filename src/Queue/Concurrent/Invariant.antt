-- ===== src/Queue/Concurrent/Invariant.antt =====
-- What holds between any two accesses to the work-stealing queue.
use tiny_coro_build_your_own.Common.{
  ℕ, suc, ◌+◌, ◌-◌, ◌%◌, ◌^◌, ◌≤◌, ◌<◌, ◌≡◌, refl, sym, ◌∙◌, true, List, [], ◌∷◌, arith, count,
}
use tiny_coro_build_your_own.Common.Int.{ℤ, pos, ◌-ℤ◌, ltb_ℤ}
use tiny_coro_build_your_own.Queue.Array.{Array, get}
use tiny_coro_build_your_own.Queue.Array.Slots.{IsArray, window}
use tiny_coro_build_your_own.Queue.Concurrent.{
  Owner, idle, pushing, sized, roomy, written, popping, takes, takes_last, casing, restoring, Thief,
  out, saw_top, saw_work, has_array, has_value, System, current,
}

-- What the invariants of the local variables read of the queue.
pub record View : Type 0 where
  pub top : ℕ
  pub back : ℕ
  pub array : ℕ
  pub arrays : ℕ → Array

abbrev pub view : System → View
view s = record { top = s.top; back = s.back; array = s.array; arrays = s.arrays }

-- The entry at an index of the present array.
abbrev pub entry : View → ℕ → ℕ
entry v i = get i (v.arrays v.array)

abbrev pub cap_of : View → ℕ
cap_of v = (v.arrays v.array).cap

-- A thief's copy of `top` is old or right; while it is right, there is an entry at that index, and what
-- the thief has read is that entry.
abbrev pub ThiefInv : Thief → View → Type 0
ThiefInv out v = Unit
ThiefInv (saw_top t) v = t ≤ v.top
ThiefInv (saw_work t) v = (t ≤ v.top) × (t ≡ v.top → t < v.back)
ThiefInv (has_array t a) v =
    (t ≤ v.top) × (t ≡ v.top → (t < v.back) × (get v.top (v.arrays a) ≡ entry v v.top))
ThiefInv (has_value t w) v = (t ≤ v.top) × (t ≡ v.top → (t < v.back) × (w ≡ entry v v.top))

-- What the owner's local variables say, with the value of `bottom`.
abbrev pub OwnerInv : Owner → ℤ → View → Type 0
OwnerInv idle z v = z ≡ pos v.back
OwnerInv (pushing b p) z v = (z ≡ pos v.back) × (b ≡ v.back) × (suc b < 2 ^ 63)
OwnerInv (sized b t p) z v =
    (z ≡ pos v.back) × (b ≡ v.back) × (suc b < 2 ^ 63) × (t ≤ v.top) × (suc v.back ≤ t + cap_of v)
OwnerInv (roomy b p) z v =
    (z ≡ pos v.back) × (b ≡ v.back) × (suc b < 2 ^ 63) × (suc (suc v.back) ≤ v.top + cap_of v)
OwnerInv (written b p) z v =
    (z ≡ pos v.back)
    × (b ≡ v.back)
    × (suc b < 2 ^ 63)
    × (suc (suc v.back) ≤ v.top + cap_of v)
    × (entry v v.back ≡ p)
OwnerInv (popping b) z v = (z ≡ pos b -ℤ pos 1) × (b ≡ v.back)
OwnerInv (takes b) z v = (z ≡ pos v.back) × (b ≡ v.back)
OwnerInv (takes_last t) z v = (z ≡ pos t) × (suc t ≡ v.back) × (t ≤ v.top)
OwnerInv (casing t w) z v =
    (z ≡ pos t) × (suc t ≡ v.back) × (t ≤ v.top) × (t ≡ v.top → w ≡ entry v v.top)
OwnerInv (restoring b) z v = (z ≡ pos b -ℤ pos 1) × (b ≡ v.back) × (v.top ≡ v.back)

-- The entry that `pop` is about to return.
abbrev pub in_hand : Owner → Array → List ℕ
in_hand (takes b) a = get b a ∷ []
in_hand _ a = []

-- The pointers in the queue, the oldest first.
abbrev pub entries : View → List ℕ
entries v = window (v.arrays v.array) v.top (v.back - v.top)

abbrev pub Balanced : System → Type 0
Balanced s =
    (p : ℕ)
    → count p s.pushed
      ≡ count p s.taken + count p (entries (view s)) + count p (in_hand s.owner (current s))

pub record Inv (s : System) : Type 0 where
  pub shape : (k : ℕ) × IsArray k (current s)
  pub ordered : s.top ≤ s.back
  pub fits : suc s.back ≤ s.top + (current s).cap
  pub small : s.back < 2 ^ 63
  pub owner : OwnerInv s.owner s.bottom (view s)
  pub thieves : (i : ℕ) → ThiefInv (s.thief i) (view s)
  pub balanced : Balanced s

pub index_small : (i : ℕ) → i < 2 ^ 63 → i % 2 ^ 64 ≡ i
index_small i h = omega arith

-- `bottom` is never behind the last entry.
pub bottom-le-back :
    (o : Owner) (z : ℤ) (v : View) (t : ℕ) → OwnerInv o z v → ltb_ℤ (pos t) z ≡ true → t < v.back
unfolding ◌-ℤ◌
bottom-le-back idle z v t w h = ground arith
bottom-le-back (pushing b p) z v t w h = ground arith
bottom-le-back (sized b u p) z v t w h = ground arith
bottom-le-back (roomy b p) z v t w h = ground arith
bottom-le-back (written b p) z v t w h = ground arith
bottom-le-back (popping b) z v t w h = ground arith
bottom-le-back (takes b) z v t w h = ground arith
bottom-le-back (takes_last u) z v t w h = ground arith
bottom-le-back (casing u x) z v t w h = ground arith
bottom-le-back (restoring b) z v t w h = ground arith

-- A change of the shared variables that a thief does not notice while `top` stands.
pub record Unnoticed (v v' : View) : Type 0 where
  pub forward : v.top ≤ v'.top
  pub still_there : v.top ≡ v'.top → v.top < v.back → v.top < v'.back
  pub same_entry : v.top ≡ v'.top → v.top < v.back → entry v' v'.top ≡ entry v v.top

-- An array that a thief holds keeps the entry that the thief wants.
abbrev pub Kept : Thief → View → View → Type 0
Kept th v v' =
    (t a : ℕ)
    → th ≡ has_array t a
    → v.top ≡ v'.top
    → v.top < v.back
    → get v'.top (v'.arrays a) ≡ get v.top (v.arrays a)

pub ThiefInv-keeps :
    (v v' : View) (th : Thief) → Unnoticed v v' → Kept th v v' → ThiefInv th v → ThiefInv th v'
ThiefInv-keeps v v' out u kept h = tt
ThiefInv-keeps v v' (saw_top t) u kept h = omega (arith, u.forward)
ThiefInv-keeps v v' (saw_work t) u kept h = (
  omega (arith, u.forward, h.0),
  λ e. omega (
    arith,
    u.forward,
    u.still_there (omega (arith, u.forward, h.0))
        (omega (arith, u.forward, h.0, h.1 (omega (arith, u.forward, h.0)))),
  ),
)
ThiefInv-keeps v v' (has_array t a) u kept (le, good) = (
  omega (arith, u.forward),
  λ e.
      let same : v.top ≡ v'.top = omega (arith, u.forward) in
      let (lt, right) = good (omega (arith, u.forward)) in
      let there : v.top < v.back = omega (arith, u.forward) in
      (
        omega (arith, u.still_there same there),
        kept t a refl same there ∙ right ∙ sym (u.same_entry same there),
      ),
)
ThiefInv-keeps v v' (has_value t w) u kept (le, good) = (
  omega (arith, u.forward),
  λ e.
      let same : v.top ≡ v'.top = omega (arith, u.forward) in
      let (lt, right) = good (omega (arith, u.forward)) in
      let there : v.top < v.back = omega (arith, u.forward) in
      (omega (arith, u.still_there same there), right ∙ sym (u.same_entry same there)),
)
