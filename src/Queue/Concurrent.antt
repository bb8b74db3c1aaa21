-- ===== src/Queue/Concurrent.antt =====
-- include/queue.h, `StealQueue<Task>` with its owner and any number of thieves, one access to the
-- shared variables at a time, in sequentially consistent memory.
pub mod Invariant
pub mod Moves
pub mod Pushing
pub mod Popping
pub mod Stealing
pub mod Conservation
pub mod Alone
mod Tests
use tiny_coro_build_your_own.Common.{
  ℕ, suc, ◌+◌, ◌-◌, ◌%◌, ◌^◌, ◌<◌, ◌≡◌, ◌≢◌, Bool, true, false, List, [], ◌∷◌, if◌then◌else◌, ◌==◌,
  update,
}
use tiny_coro_build_your_own.Common.Int.{ℤ, pos, ◌+ℤ◌, ◌-ℤ◌, leb_ℤ, ltb_ℤ, eqb_ℤ}
use tiny_coro_build_your_own.Queue.Array.{Array, new_array, put, get, resize}
use tiny_coro_build_your_own.Queue.Steal.{compare_exchange}

-- Where the owner stands, with its local variables: outside; in `push`, with `bottom` loaded, with `top`
-- too, with room in the array, with the pointer written; in `pop`, with `bottom` stored, before it
-- returns an entry that no thief can take, before it reads the last entry, before the compare-exchange,
-- before the last store.
pub data Owner : Type 0 where
  idle : Owner
  pushing : (b p : ℕ) → Owner
  sized : (b t p : ℕ) → Owner
  roomy written : (b p : ℕ) → Owner
  popping takes takes_last : (b : ℕ) → Owner
  casing : (t v : ℕ) → Owner
  restoring : (b : ℕ) → Owner

-- Where a thief stands in `steal`: outside; with `top` loaded, with `bottom` too, with the array, with
-- the value.
pub data Thief : Type 0 where
  out : Thief
  saw_top saw_work : (t : ℕ) → Thief
  has_array : (t address : ℕ) → Thief
  has_value : (t v : ℕ) → Thief

-- The last three are no variables of the program: the pointers whose `push` has ended, those that a
-- `pop` or a `steal` has taken, and the index behind the last entry that is not spoken for.
pub record System : Type 0 where
  pub top : ℕ
  pub bottom : ℤ
  pub array : ℕ
  pub arrays : ℕ → Array
  pub owner : Owner
  pub thief : ℕ → Thief
  pub pushed : List ℕ
  pub taken : List ℕ
  pub back : ℕ

abbrev pub current : System → Array
current s = s.arrays s.array

-- No thief uses the array at this address: the allocator does not give out one that the epochs protect.
abbrev pub Unheld : ℕ → System → Type 0
Unheld address s = (i t a : ℕ) → s.thief i ≡ has_array t a → a ≢ address

abbrev pub is_full : System → ℕ → ℕ → Bool
is_full s b t = leb_ℤ (pos (current s).cap -ℤ pos 1) (pos b -ℤ pos t)

pub data Step (s : System) : System → Type 0 where
  push_starts :
      (b p : ℕ)
      → s.owner ≡ idle
      → s.bottom ≡ pos b
      → suc b < 2 ^ 63
      → Step s (record s { owner = pushing b p })
  push_loads : (b p : ℕ) → s.owner ≡ pushing b p → Step s (record s { owner = sized b s.top p })
  push_fits :
      (b t p : ℕ)
      → s.owner ≡ sized b t p
      → is_full s b t ≡ false
      → Step s (record s { owner = roomy b p })
  push_grows :
      (b t p fresh : ℕ)
      → s.owner ≡ sized b t p
      → is_full s b t ≡ true
      → Unheld fresh s
      → Step s (record s {
        arrays = update s.arrays fresh (resize fresh b t (current s));
        array = fresh;
        owner = roomy b p;
      })
  push_writes :
      (b p : ℕ)
      → s.owner ≡ roomy b p
      → Step s (record s {
        arrays = update s.arrays s.array (put (b % 2 ^ 64) p (current s));
        owner = written b p;
      })
  push_ends :
      (b p : ℕ)
      → s.owner ≡ written b p
      → Step s
          (record s { bottom = pos b +ℤ pos 1; owner = idle; pushed = p ∷ s.pushed; back = suc b })
  pop_starts :
      (b : ℕ)
      → s.owner ≡ idle
      → s.bottom ≡ pos b
      → Step s (record s { bottom = pos b -ℤ pos 1; owner = popping b })
  pop_more :
      (b : ℕ)
      → s.owner ≡ popping b
      → leb_ℤ (pos s.top) (pos b -ℤ pos 1) ≡ true
      → eqb_ℤ (pos s.top) (pos b -ℤ pos 1) ≡ false
      → Step s (record s { owner = takes (b - 1); back = b - 1 })
  pop_last :
      (b : ℕ)
      → s.owner ≡ popping b
      → leb_ℤ (pos s.top) (pos b -ℤ pos 1) ≡ true
      → eqb_ℤ (pos s.top) (pos b -ℤ pos 1) ≡ true
      → Step s (record s { owner = takes_last (b - 1) })
  pop_reads :
      (t : ℕ)
      → s.owner ≡ takes_last t
      → Step s (record s { owner = casing t (get (t % 2 ^ 64) (current s)) })
  pop_misses :
      (b : ℕ)
      → s.owner ≡ popping b
      → leb_ℤ (pos s.top) (pos b -ℤ pos 1) ≡ false
      → Step s (record s { owner = restoring b })
  pop_takes :
      (b : ℕ)
      → s.owner ≡ takes b
      → Step s (record s { owner = idle; taken = get (b % 2 ^ 64) (current s) ∷ s.taken })
  pop_exchanges :
      (t v : ℕ)
      → s.owner ≡ casing t v
      → Step s (record s {
        top = (compare_exchange t (t + 1) s.top).1;
        owner = restoring (suc t);
        taken = if (compare_exchange t (t + 1) s.top).0 then v ∷ s.taken else s.taken;
      })
  pop_restores :
      (b : ℕ) → s.owner ≡ restoring b → Step s (record s { bottom = pos b; owner = idle })
  steal_starts :
      (i : ℕ) → s.thief i ≡ out → Step s (record s { thief = update s.thief i (saw_top s.top) })
  steal_loads :
      (i t : ℕ)
      → s.thief i ≡ saw_top t
      → Step s (record s {
        thief = update s.thief i (if ltb_ℤ (pos t) s.bottom then saw_work t else out);
      })
  steal_finds :
      (i t : ℕ)
      → s.thief i ≡ saw_work t
      → Step s (record s { thief = update s.thief i (has_array t s.array) })
  steal_reads :
      (i t a : ℕ)
      → s.thief i ≡ has_array t a
      → Step s (record s { thief = update s.thief i (has_value t (get (t % 2 ^ 64) (s.arrays a))) })
  steal_exchanges :
      (i t v : ℕ)
      → s.thief i ≡ has_value t v
      → Step s (record s {
        top = (compare_exchange t (t + 1) s.top).1;
        thief = update s.thief i out;
        taken = if (compare_exchange t (t + 1) s.top).0 then v ∷ s.taken else s.taken;
      })

-- A new queue, whose array stands at `address`.
abbrev pub new_system : ℕ → System
new_system address = record {
  top = 0;
  bottom = pos 0;
  array = address;
  arrays = λ a. new_array address 1024;
  owner = idle;
  thief = λ i. out;
  pushed = [];
  taken = [];
  back = 0;
}

pub data Reach (address : ℕ) : System → Type 0 where
  start : Reach address (new_system address)
  next : {s s' : System} → Reach address s → Step s s' → Reach address s'
