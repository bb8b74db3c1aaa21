-- ===== src/Queue/Concurrent/Pushing.antt =====
-- The steps of `push` keep the invariant of the work-stealing queue.
use native.Mathlib.Nat.{pow-suc}
use tiny_coro_build_your_own.Common.{
  ℕ, suc, ◌+◌, ◌-◌, ◌*◌, ◌%◌, ◌^◌, ◌≤◌, ◌<◌, ◌≡◌, refl, sym, ap, ◌∙◌, ◌≢◌, [], ◌∷◌, true, false,
  arith, if◌then◌else◌, ◌==◌, count, count-append, update, ℕ_discrete,
}
use tiny_coro_build_your_own.Common.Int.{pos, ◌+ℤ◌, ◌-ℤ◌}
use tiny_coro_build_your_own.Queue.Array.{Array, get, put, resize}
use tiny_coro_build_your_own.Queue.Array.Slots.{
  IsArray, window-eq, put-IsArray, put-cap, cap_pos, get-put_self, get-put_apart, resize-IsArray,
  resize-get,
}
use tiny_coro_build_your_own.Queue.Concurrent.{
  Owner, idle, pushing, sized, roomy, written, has_array, System, current, Unheld, is_full,
}
use tiny_coro_build_your_own.Queue.Concurrent.Invariant.{
  View, view, entry, entries, in_hand, OwnerInv, Inv, index_small, ThiefInv-keeps,
}
use tiny_coro_build_your_own.Queue.Concurrent.Moves.{
  owner_moves, owner_at, in_hand_at, entries_back,
}

pub push_starts-Inv :
    {s : System} (b p : ℕ)
    → Inv s
    → s.owner ≡ idle
    → s.bottom ≡ pos b
    → suc b < 2 ^ 63
    → Inv (record s { owner = pushing b p })
push_starts-Inv {s} b p v e at small =
    owner_moves (pushing b p) s.bottom v (owner_at v e, ground (arith, owner_at v e), small)
      (sym (in_hand_at s e))

pub push_loads-Inv :
    {s : System} (b p : ℕ)
    → Inv s
    → s.owner ≡ pushing b p
    → Inv (record s { owner = sized b s.top p })
push_loads-Inv {s} b p v e =
    let (at, here, small) = owner_at v e in
    owner_moves (sized b s.top p) s.bottom v (at, here, small, omega arith, v.fits)
      (sym (in_hand_at s e))

pub push_fits-Inv :
    {s : System} (b t p : ℕ)
    → Inv s
    → s.owner ≡ sized b t p
    → is_full s b t ≡ false
    → Inv (record s { owner = roomy b p })
unfolding ◌-ℤ◌
push_fits-Inv {s} b t p v e spare =
    let (at, here, small, le, room) = owner_at v e in
    owner_moves (roomy b p) s.bottom v (at, here, small, ground arith) (sym (in_hand_at s e))

-- The arrays change, and the owner moves on.
arrays_move :
    {s : System} {k : ℕ} (o : Owner) (array' : ℕ) (arrays' : ℕ → Array)
    → Inv s
    → IsArray k (arrays' array')
    → suc s.back ≤ s.top + (arrays' array').cap
    → OwnerInv o s.bottom (record (view s) { array = array'; arrays = arrays' })
    → in_hand o (arrays' array') ≡ in_hand s.owner (current s)
    → ((j : ℕ) → s.top ≤ j → j < s.back → get j (arrays' array') ≡ entry (view s) j)
    → ((i t a : ℕ)
        → s.thief i ≡ has_array t a
        → s.top < s.back
        → get s.top (arrays' a) ≡ get s.top (s.arrays a))
    → Inv (record s { array = array'; arrays = arrays'; owner = o })
arrays_move {s} {k} o array' arrays' v shape fits h hand same held = record {
  shape = (k, shape);
  ordered = v.ordered;
  fits = fits;
  small = v.small;
  owner = h;
  thieves = λ j.
      ThiefInv-keeps (view s) v' (s.thief j)
        (record {
          forward = omega arith;
          still_there = λ _ lt. lt;
          same_entry = λ _ lt. same s.top (omega arith) lt;
        })
        (λ t a e _ lt. held j t a e lt) (v.thieves j);
  balanced = λ p.
      same_balance (count p s.taken) (v.balanced p)
        (ap (count p) (
          window-eq (arrays' array') (current s) s.top (s.back - s.top)
            (λ j le lt. same j le (omega (arith, v.ordered)))))
        (ap (count p) hand);
}
  where
    v' : View
    v' = record (view s) { array = array'; arrays = arrays' }

    same_balance :
        (taken : ℕ) {all now now' hand hand' : ℕ}
        → all ≡ taken + now + hand
        → now' ≡ now
        → hand' ≡ hand
        → all ≡ taken + now' + hand'
    same_balance taken a b c = omega arith

update_self : (f : ℕ → Array) (i : ℕ) (a : Array) → update f i a i ≡ a
update_self f i a = ground arith

update_other : (f : ℕ → Array) (i j : ℕ) (a : Array) → j ≢ i → update f i a j ≡ f j
update_other f i j a ne = ground arith

pub push_grows-Inv :
    {s : System} (b t p fresh : ℕ)
    → Inv s
    → s.owner ≡ sized b t p
    → is_full s b t ≡ true
    → Unheld fresh s
    → Inv (record s {
      arrays = update s.arrays fresh (resize fresh b t (current s));
      array = fresh;
      owner = roomy b p;
    })
push_grows-Inv {s} b t p fresh v e full unheld =
    let (at, here, small, le, room) = owner_at v e in
    let (k, shape) = v.shape in
    let bigger : Array = resize fresh b t (current s) in
    let placed : update s.arrays fresh bigger fresh ≡ bigger = update_self s.arrays fresh bigger in
    let grown : IsArray (suc k) bigger = resize-IsArray shape fresh b t in
    let capacity : bigger.cap ≡ 2 * (current s).cap =
      omega (arith, grown.capacity, shape.capacity, pow-suc 2 k) in
    let wide : suc (suc s.back) ≤ s.top + (update s.arrays fresh bigger fresh).cap =
      rw placed (omega (arith, capacity, cap_pos shape)) in
    arrays_move {k = suc k} (roomy b p) fresh (update s.arrays fresh bigger) v (rw placed grown)
      (rw placed (omega (arith, capacity))) (at, here, small, wide) (sym (in_hand_at s e))
      (λ j lo hi.
        ap (get j) placed ∙ resize-get shape fresh b t j (omega arith) (omega arith) (omega arith))
      (λ i t' a held _. ap (get s.top) (update_other s.arrays fresh a bigger (unheld i t' a held)))

pub push_writes-Inv :
    {s : System} (b p : ℕ)
    → Inv s
    → s.owner ≡ roomy b p
    → Inv (record s {
      arrays = update s.arrays s.array (put (b % 2 ^ 64) p (current s));
      owner = written b p;
    })
push_writes-Inv {s} b p v e =
    let (at, here, small, room) = owner_at v e in
    let (k, shape) = v.shape in
    let fuller : Array = put (b % 2 ^ 64) p (current s) in
    let index : b % 2 ^ 64 ≡ b = index_small b (omega arith) in
    let placed : update s.arrays s.array fuller s.array ≡ fuller =
      update_self s.arrays s.array fuller in
    let capacity : fuller.cap ≡ (current s).cap = put-cap (b % 2 ^ 64) p (current s) in
    let apart : (j : ℕ) → s.top ≤ j → j < s.back → get j fuller ≡ entry (view s) j =
      λ j lo hi. get-put_apart shape j (b % 2 ^ 64) p (omega arith) (omega arith) in
    let wide : suc (suc s.back) ≤ s.top + (update s.arrays s.array fuller s.array).cap =
      rw placed (omega (arith, capacity)) in
    arrays_move {k = k} (written b p) s.array (update s.arrays s.array fuller) v
      (rw placed (put-IsArray shape (b % 2 ^ 64) p)) (rw placed (omega (arith, capacity, v.fits)))
      (
        at,
        here,
        small,
        wide,
        ap (get s.back) placed
            ∙ ap (λ i. get i fuller) (sym here ∙ sym index)
            ∙ get-put_self shape (b % 2 ^ 64) p,
      )
      (sym (in_hand_at s e)) (λ j lo hi. ap (get j) placed ∙ apart j lo hi)
      (λ i t a held lt. elim (ℕ_discrete a s.array) [
        | yes own ↦
            ap (λ x. get s.top (update s.arrays s.array fuller x)) own
            ∙ ap (get s.top) placed
            ∙ apart s.top (omega arith) lt
            ∙ ap (λ x. get s.top (s.arrays x)) (sym own)
        | no other ↦ ap (get s.top) (update_other s.arrays s.array a fuller other)
      ])

pub push_ends-Inv :
    {s : System} (b p : ℕ)
    → Inv s
    → s.owner ≡ written b p
    → Inv (record s { bottom = pos b +ℤ pos 1; owner = idle; pushed = p ∷ s.pushed; back = suc b })
unfolding ◌+ℤ◌
push_ends-Inv {s} b p v e =
    let (at, here, small, room, there) = owner_at v e in
    record {
      shape = v.shape;
      ordered = omega (arith, v.ordered);
      fits = omega arith;
      small = small;
      owner = ground arith;
      thieves = λ j.
          ThiefInv-keeps (view s) (record (view s) { back = suc b }) (s.thief j)
            (record {
              forward = omega arith;
              still_there = λ _ _. omega arith;
              same_entry = λ _ _. refl;
            })
            (λ t a _ _ _. refl) (v.thieves j);
      balanced = λ q.
          pushed_balance (count q s.taken) (v.balanced q)
            (ap (λ i. count q (entries (record (view s) { back = i }))) here)
            (ap (count q) (entries_back (view s) b (omega (arith, v.ordered)))
              ∙ count-append q (entries (record (view s) { back = b })) (entry (view s) b ∷ []))
            (ap {B = ℕ} (λ i. if q == i then 1 else 0) (ap (entry (view s)) here ∙ there))
            (ap (count q) (in_hand_at s e));
    }
  where
    pushed_balance :
        (taken : ℕ) {all now now' now'' hand one one' : ℕ}
        → all ≡ taken + now + hand
        → now' ≡ now
        → now'' ≡ now' + (one + 0)
        → one ≡ one'
        → hand ≡ 0
        → one' + all ≡ taken + now'' + 0
    pushed_balance taken a b c d e = omega arith
