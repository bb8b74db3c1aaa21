-- ===== src/Queue/Concurrent/Moves.antt =====
-- The invariant of the work-stealing queue under the kinds of change that its steps make.
use mathlib.Core.Path.{subst}
use tiny_coro_build_your_own.Common.{
  Bool, true, false, ℕ, suc, ◌+◌, ◌-◌, ◌≤◌, ◌<◌, ◌≡◌, ap, ◌∙◌, ◌≢◌, [], ◌∷◌, ◌++◌, arith,
  if◌then◌else◌, ◌==◌, count, update,
}
use tiny_coro_build_your_own.Common.Int.{ℤ}
use tiny_coro_build_your_own.Queue.Array.Slots.{window, window-suc}
use tiny_coro_build_your_own.Queue.Steal.{compare_exchange}
use tiny_coro_build_your_own.Queue.Concurrent.{Owner, Thief, System, current}
use tiny_coro_build_your_own.Queue.Concurrent.Invariant.{
  View, view, entry, ThiefInv, OwnerInv, in_hand, entries, Inv, Unnoticed, ThiefInv-keeps,
}

-- What a fact on the owner says when it is known where the owner stands.
pub owner_at : {s : System} {o : Owner} → Inv s → s.owner ≡ o → OwnerInv o s.bottom (view s)
owner_at {s} v e = subst (λ o. OwnerInv o s.bottom (view s)) e v.owner

pub in_hand_at :
    (s : System) {o : Owner} → s.owner ≡ o → in_hand s.owner (current s) ≡ in_hand o (current s)
in_hand_at s e = ap (λ o. in_hand o (current s)) e

-- The owner moves on, with another `bottom` perhaps.
pub owner_moves :
    {s : System} (o : Owner) (z : ℤ)
    → Inv s
    → OwnerInv o z (view s)
    → in_hand o (current s) ≡ in_hand s.owner (current s)
    → Inv (record s { bottom = z; owner = o })
owner_moves {s} o z v h same = record {
  shape = v.shape;
  ordered = v.ordered;
  fits = v.fits;
  small = v.small;
  owner = h;
  thieves = v.thieves;
  balanced = λ p. omega (arith, v.balanced p, ap (count p) same);
}

if-either {ℓ κ} :
    {A : Type ℓ} (P : A → Type κ) (b : Bool) (x y : A) → P x → P y → P (if b then x else y)
if-either P true x y p q = p
if-either P false x y p q = q

pub update-ThiefInv :
    (f : ℕ → Thief) (i : ℕ) (th : Thief) (v : View)
    → ThiefInv th v
    → ((j : ℕ) → ThiefInv (f j) v)
    → (j : ℕ) → ThiefInv (update f i th j) v
update-ThiefInv f i th v h others j = if-either (λ x. ThiefInv x v) (i == j) th (f j) h (others j)

pub thief_moves :
    {s : System} (i : ℕ) (th : Thief)
    → Inv s
    → ThiefInv th (view s)
    → Inv (record s { thief = update s.thief i th })
thief_moves {s} i th v h = record {
  shape = v.shape;
  ordered = v.ordered;
  fits = v.fits;
  small = v.small;
  owner = v.owner;
  thieves = update-ThiefInv s.thief i th (view s) h v.thieves;
  balanced = v.balanced;
}

-- The front entry and the rest.
pub entries_front :
    (v : View) → v.top < v.back → entries v ≡ entry v v.top ∷ entries (record v { top = suc v.top })
unfolding window
entries_front v lt = ap (window (v.arrays v.array) v.top) counted
  where
    counted : v.back - v.top ≡ suc (v.back - suc v.top)
    counted = omega arith

-- The last entry and those before it.
pub entries_back :
    (v : View) (b : ℕ)
    → v.top ≤ b
    → entries (record v { back = suc b }) ≡ entries (record v { back = b }) ++ entry v b ∷ []
entries_back v b le =
    ap (window (v.arrays v.array) v.top) counted
    ∙ window-suc (v.arrays v.array) v.top (b - v.top)
    ∙ ap (λ i. entries (record v { back = b }) ++ entry v i ∷ []) (omega arith)
  where
    counted : suc b - v.top ≡ suc (b - v.top)
    counted = omega arith

pub top_passes : (v : View) → Unnoticed v (record v { top = suc v.top })
top_passes v = record {
  forward = omega arith;
  still_there = λ e. absurd (omega arith);
  same_entry = λ e. absurd (omega arith);
}

-- The thieves' local variables when `top` passes them.
pub passed :
    (v : View) (f : ℕ → Thief)
    → ((j : ℕ) → ThiefInv (f j) v)
    → (j : ℕ) → ThiefInv (f j) (record v { top = suc v.top })
passed v f h j =
    ThiefInv-keeps v (record v { top = suc v.top }) (f j) (top_passes v)
      (λ t a e same. absurd (omega arith)) (h j)

front_balance :
    (taken now' : ℕ) {all now hand hand' one one' : ℕ}
    → all ≡ taken + now + hand
    → now ≡ one' + now'
    → one ≡ one'
    → hand' ≡ hand
    → all ≡ one + taken + now' + hand'
front_balance taken now' a b c d = omega arith

-- Someone takes the front entry.
pub front_taken :
    {s : System} (o : Owner) (f : ℕ → Thief) (w : ℕ)
    → Inv s
    → s.top < s.back
    → w ≡ entry (view s) s.top
    → OwnerInv o s.bottom (record (view s) { top = suc s.top })
    → in_hand o (current s) ≡ in_hand s.owner (current s)
    → ((j : ℕ) → ThiefInv (f j) (view s))
    → Inv (record s { top = suc s.top; owner = o; thief = f; taken = w ∷ s.taken })
front_taken {s} o f w v lt right h same thieves = record {
  shape = v.shape;
  ordered = omega arith;
  fits = omega (arith, v.fits);
  small = v.small;
  owner = h;
  thieves = passed (view s) f thieves;
  balanced = λ p.
      front_balance (count p s.taken) (count p (entries (record (view s) { top = suc s.top })))
        (v.balanced p) (ap (count p) (entries_front (view s) lt))
        (ap {B = ℕ} (λ x. if p == x then 1 else 0) right) (ap (count p) same);
}

-- A system after a compare-exchange with this result.
abbrev pub exchanged : System → Owner → (ℕ → Thief) → ℕ → Bool × ℕ → System
exchanged s o f w r = record s {
  top = r.1;
  owner = o;
  thief = f;
  taken = if r.0 then w ∷ s.taken else s.taken;
}

pub exchange-won : (t now : ℕ) → t ≡ now → (true, suc now) ≡ compare_exchange t (t + 1) now
exchange-won t now e = ground arith

pub exchange-lost : (t now : ℕ) → t ≢ now → (false, now) ≡ compare_exchange t (t + 1) now
exchange-lost t now ne = ground arith
