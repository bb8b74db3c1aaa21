-- ===== src/Task/Ownership.antt =====
-- Who holds a reference to which frame. `owners` lists the address of every `Task` that is not
-- null, and of every pointer that `detach` or `to_address` gave out and `from_address` has not taken.
use tiny_coro_build_your_own.Common.{
  ℕ, suc, ◌+◌, ◌-◌, ◌%◌, ◌^◌, ◌≤◌, ◌<◌, ◌≡◌, ◌≢◌, inl, inr, Option, none, some, List, [], ◌∷◌,
  arith, if◌then◌else◌, ◌==◌, Bool-cases, Option-cases, count, update,
}
use tiny_coro_build_your_own.Task.{
  Promise, Frames, Task, to_address, destruct, int_mod, get_return_object, add_ref, dec_ref,
}

-- A frame is allocated exactly when it has an owner, and then its count is the number of owners.
abbrev pub Counts : Option Promise → ℕ → Type 0
Counts none n = n ≡ 0
Counts (some p) n = (p.ref_count ≡ n) × (1 ≤ n) × (n < 2 ^ 31)

pub record Counted (fs : Frames) (owners : List ℕ) : Type 0 where
  pub counts : (a : ℕ) → a ≢ 0 → Counts (fs a) (count a owners)

unfoldable pub erase : ℕ → List ℕ → List ℕ
erase a [] = []
erase a (x ∷ xs) = if a == x then xs else x ∷ erase a xs

pub count-erase :
    (a b : ℕ) (xs : List ℕ)
    → 0 < count a xs
    → (if b == a then 1 else 0) + count b (erase a xs) ≡ count b xs
unfolding erase
count-erase a b [] h = absurd (omega arith)
count-erase a b (x ∷ xs) h = ground (arith, count-erase a b xs)

module _ {fs : Frames} {owners : List ℕ} (inv : Counted fs owners) where
  -- An address that has an owner is a live frame.
  pub owned_frame :
      (a : ℕ)
      → a ≢ 0
      → 0 < count a owners
      → (p : Promise) × (fs a ≡ some p) × (p.ref_count ≡ count a owners)
  owned_frame a nz h = elim (Option-cases (fs a)) [
    | inl e ↦ absurd (ground (arith, inv.counts a nz))
    | inr (p, e) ↦ (p, e, ground (arith, inv.counts a nz))
  ]

  pub get_return_object-Counted :
      (a : ℕ) → a ≢ 0 → fs a ≡ none → Counted (get_return_object a fs).0 (a ∷ owners)
  unfolding get_return_object
  get_return_object-Counted a nz free = record {
    counts = λ b bz. ground (arith, inv.counts a nz, inv.counts b bz);
  }

  pub add_ref-Counted :
      (a : ℕ)
      → a ≢ 0
      → 0 < count a owners
      → suc (count a owners) < 2 ^ 31
      → (fs' : Frames) × (add_ref a fs ≡ some fs') × Counted fs' (a ∷ owners)
  unfolding add_ref
  add_ref-Counted a nz h room =
      let (p, live, counted) = owned_frame a nz h in
      (
        update fs a (some (record p { ref_count = (p.ref_count + 1) % int_mod })),
        ground arith,
        record { counts = λ b bz. ground (arith, inv.counts b bz) },
      )

  pub dec_ref-Counted :
      (a : ℕ)
      → a ≢ 0
      → 0 < count a owners
      → (fs' : Frames) × (dec_ref a fs ≡ some fs') × Counted fs' (erase a owners)
  unfolding dec_ref
  dec_ref-Counted a nz h =
      let (p, live, counted) = owned_frame a nz h in
      elim (Bool-cases (p.ref_count == 1)) [
        | inl last ↦ (
          update fs a none,
          ground arith,
          record { counts = λ b bz. ground (arith, inv.counts b bz, count-erase a b owners h) },
        )
        | inr more ↦ (
          update fs a (some (record p { ref_count = (p.ref_count + int_mod - 1) % int_mod })),
          ground arith,
          record { counts = λ b bz. ground (arith, inv.counts b bz, count-erase a b owners h) },
        )
      ]

-- A reference that changes hands is still one reference.
pub moved-Counted :
    {fs : Frames} {owners : List ℕ} (a : ℕ)
    → Counted fs owners
    → 0 < count a owners
    → Counted fs (a ∷ erase a owners)
moved-Counted {owners} a inv h = record {
  counts = λ b bz. rw (count-erase a b owners h) (inv.counts b bz);
}

-- An address that nobody owns is not allocated.
pub unowned_freed :
    {fs : Frames} {owners : List ℕ}
    → Counted fs owners
    → (a : ℕ) → a ≢ 0
    → count a owners ≡ 0
    → fs a ≡ none
unowned_freed {fs} inv a nz h = elim (Option-cases (fs a)) [
  | inl e ↦ e
  | inr (p, e) ↦ absurd (ground (arith, inv.counts a nz))
]

erase-head : (a : ℕ) (owners : List ℕ) → erase a (a ∷ owners) ≡ owners
unfolding erase
erase-head a owners = ground arith

-- `to_address` and then the destructor of the same task: the pointer owns what the task owned.
pub to_address-destruct :
    {fs : Frames} {owners : List ℕ} (t : Task)
    → Counted fs owners
    → t.handle ≢ 0
    → 0 < count t.handle owners
    → suc (count t.handle owners) < 2 ^ 31
    → (fs' fs'' : Frames) × (to_address t fs ≡ some (fs', t.handle))
      × (destruct t fs' ≡ some fs'')
      × Counted fs'' owners
unfolding to_address destruct
to_address-destruct {fs} {owners} t counted nz held room =
    let (fs', lent, counted') = add_ref-Counted counted t.handle nz held room in
    let (fs'', dropped, counted'') = dec_ref-Counted counted' t.handle nz (ground arith) in
    (fs', fs'', ground arith, ground arith, rw (erase-head t.handle owners) at counted'')
