-- ===== src/Queue/Refinement.antt =====
-- The work-stealing queue against a plain list: the owner's end is the back, the thieves' the front.
pub mod Steps
use native.Mathlib.Nat.{mod-eq_of_lt, pow-suc}
use tiny_coro_build_your_own.Common.{
  ℕ, zero, suc, ◌+◌, ◌-◌, ◌*◌, ◌%◌, ◌^◌, ◌≤◌, ◌<◌, ◌≡◌, refl, sym, ap, ap₂, ◌∙◌, ◌⊎◌, inl, inr,
  Bool, true, false, Option, none, some, List, [], ◌∷◌, ◌++◌, arith, if◌then◌else◌, ◌==◌,
  Bool-cases, count, ◌≢◌, dec_lt, count, ◌≢◌,
}
use tiny_coro_build_your_own.Common.Int.{
  ℤ, pos, negsuc, pos_part, neg_part, ◌+ℤ◌, ◌-ℤ◌, leb_ℤ, ltb_ℤ,
}
use tiny_coro_build_your_own.Task.{Frames, Task, ◌>>=◌, to_address, from_address, destruct}
use tiny_coro_build_your_own.Task.Ownership.{Counted, to_address-destruct}
use tiny_coro_build_your_own.Queue.Refinement.Steps.{
  IsValid, contents, write_bottom-IsValid, write_bottom-contents, pop_empty, pop_last, pop_more,
  steal_empty, steal_more, contents_empty, contents_front, contents_back, make_room_full,
  make_room_spare, index,
}
use tiny_coro_build_your_own.Ebr.{EbrManager}
use tiny_coro_build_your_own.Queue.Array.{Array, new_array, put, get, resize}
use tiny_coro_build_your_own.Queue.Array.Slots.{
  IsArray, window, window-suc, window-eq, resize-IsArray, resize-window, put-IsArray, cap_pos,
  put-cap, get-put_self, get-put_apart,
}
use tiny_coro_build_your_own.Queue.Steal.{
  StealQueue, Shared, new_queue, to_size, make_room, write_bottom, push, pop, steal,
}

-- An operation that takes from a list: it finds the list empty and changes nothing, or it returns a
-- task from one end and leaves the rest, as `split` says.
abbrev pub Takes :
    (List ℕ → ℕ → List ℕ → Type 0) → ℕ → ℕ → StealQueue → StealQueue × Option Task → Type 0
Takes split k b q r =
    ((contents b q ≡ []) × (r ≡ (q, none)))
    ⊎ ((p b' : ℕ) × (r.1 ≡ some (from_address p))
        × IsValid k b' r.0
        × split (contents b q) p (contents b' r.0))

-- On a valid queue the owner finds nothing and changes nothing, or pops the newest pointer and leaves
-- the rest in a valid queue.
pub pop-Takes :
    {k b : ℕ} {q : StealQueue}
    → IsValid k b q
    → Takes (λ xs p rest. xs ≡ rest ++ p ∷ []) k b q (pop q)
pop-Takes {k} {b = zero} {q} v =
    let e : 0 ≡ q.top = omega (arith, v.ordered) in
    inl (contents_empty q e, pop_empty q v.at_bottom e)
pop-Takes {k} {b = suc b} {q} v = elim (dec_lt q.top b) [
  | yes more ↦ rw (pop_more q v.at_bottom (omega (arith, v.bounded)) more) (
      inr (
        get b q.array,
        b,
        refl,
        record {
          array_valid = v.array_valid;
          at_bottom = refl;
          ordered = omega arith;
          fits = omega (arith, v.fits);
          bounded = omega (arith, v.bounded);
        },
        contents_back q (omega arith),
      ))
  | no few ↦ elim (dec_lt q.top (suc b)) [
    | yes one ↦
        let q' : StealQueue = record q { top = q.top + 1 } in
        let x = get q.top q.array in
        let gone : contents (suc b) q' ≡ [] = contents_empty q' (omega arith) in
        rw (pop_last q v.at_bottom v.bounded (omega arith)) (
          inr (
            x,
            suc b,
            refl,
            record {
              array_valid = v.array_valid;
              at_bottom = v.at_bottom;
              ordered = omega arith;
              fits = omega (arith, v.fits);
              bounded = v.bounded;
            },
            contents_front q one ∙ ap (λ ys. x ∷ ys) gone ∙ sym (ap (λ ys. ys ++ x ∷ []) gone),
          ))
    | no none_left ↦
        let e : suc b ≡ q.top = omega (arith, v.ordered) in
        inl (contents_empty q e, pop_empty q v.at_bottom e)
  ]
]

-- On a valid queue a thief finds nothing and changes nothing, or steals the oldest pointer and leaves
-- the rest in a valid queue.
pub steal-Takes :
    {k b : ℕ} {q : StealQueue} → IsValid k b q → Takes (λ xs p rest. xs ≡ p ∷ rest) k b q (steal q)
steal-Takes {k} {b} {q} v = elim (dec_lt q.top b) [
  | yes more ↦ rw (steal_more q v.at_bottom v.bounded more) (
      inr (
        get q.top q.array,
        b,
        refl,
        record {
          array_valid = v.array_valid;
          at_bottom = v.at_bottom;
          ordered = omega arith;
          fits = omega (arith, v.fits);
          bounded = v.bounded;
        },
        contents_front q more,
      ))
  | no none_left ↦
      let e : b ≡ q.top = omega (arith, v.ordered) in
      inl (contents_empty q e, steal_empty q v.at_bottom e)
]

abbrev Roomy : ℕ → StealQueue → StealQueue → Type 0
Roomy b q q' =
    (k : ℕ) × IsValid k b q'
    × (suc (suc b) ≤ q'.top + q'.array.cap)
    × (contents b q' ≡ contents b q)

make_room-Roomy :
    {k b : ℕ} {q : StealQueue} (fresh : ℕ) (ebr : EbrManager)
    → IsValid k b q
    → Roomy b q (make_room fresh ebr q).0
make_room-Roomy {k} {b} {q} fresh ebr v = elim (dec_lt (suc b) (q.top + q.array.cap)) [
  | yes spare ↦ rw (make_room_spare fresh ebr q v.at_bottom v.ordered spare) (k, v, spare, refl)
  | no full ↦
      let grown = resize-IsArray v.array_valid fresh (to_size q.bottom) q.top in
      let capacity : (resize fresh (to_size q.bottom) q.top q.array).cap ≡ 2 * q.array.cap =
        omega (arith, grown.capacity, v.array_valid.capacity, pow-suc 2 k) in
      rw (make_room_full fresh ebr q v.at_bottom v.ordered (omega arith) (cap_pos v.array_valid)) (
        suc k,
        record {
          array_valid = grown;
          at_bottom = v.at_bottom;
          ordered = v.ordered;
          fits = omega (arith, v.fits, capacity);
          bounded = v.bounded;
        },
        omega (arith, v.fits, capacity, cap_pos v.array_valid),
        rw (index v) (resize-window v.array_valid fresh b q.top (omega (arith, v.fits))),
      )
]

-- With a reference to give, `push` replaces the array if it is full and writes the pointer.
pub push-runs :
    {owners : List ℕ} (fresh : ℕ) (item : Task) (sh : Shared) (q : StealQueue)
    → Counted sh.frames owners
    → item.handle ≢ 0
    → 0 < count item.handle owners
    → suc (count item.handle owners) < 2 ^ 31
    → (sh' : Shared) × (push fresh item sh q
        ≡ some (sh', write_bottom item.handle (make_room fresh sh.ebr q).0))
      × Counted sh'.frames owners
unfolding push
push-runs fresh item sh q counted nz held room =
    let (fs, fs', lent, dropped, counted') = to_address-destruct item counted nz held room in
    (
      record { frames = fs'; ebr = (make_room fresh sh.ebr q).1 },
      rw (lent, ◌>>=◌, dropped, ◌>>=◌),
      counted',
    )

-- The owner pushes a task that it holds a reference to, on a valid queue, while the counters are below
-- their limits. The call succeeds: the pointer joins the
-- back of the queue, in a new array of twice the size if the old one is full, no other entry changes,
-- and the caller's reference has become the queue's.
pub push_refines :
    {k b : ℕ} {q : StealQueue} {owners : List ℕ} (fresh : ℕ) (item : Task) (sh : Shared)
    → IsValid k b q
    → suc b < 2 ^ 63
    → Counted sh.frames owners
    → item.handle ≢ 0
    → 0 < count item.handle owners
    → suc (count item.handle owners) < 2 ^ 31
    → (sh' : Shared) × (q' : StealQueue) × (push fresh item sh q ≡ some (sh', q'))
      × ((k' : ℕ) × IsValid k' (suc b) q')
      × (contents (suc b) q' ≡ contents b q ++ item.handle ∷ [])
      × Counted sh'.frames owners
push_refines {k} {b} {q} {owners} fresh item sh v small counted nz held room =
    let (k', v', spare, same) = make_room-Roomy fresh sh.ebr v in
    let (sh', pushed, counted') = push-runs fresh item sh q counted nz held room in
    (
      sh',
      write_bottom item.handle (make_room fresh sh.ebr q).0,
      pushed,
      (k', write_bottom-IsValid item.handle v' spare small),
      write_bottom-contents item.handle v' ∙ ap (λ xs. xs ++ item.handle ∷ []) same,
      counted',
    )
