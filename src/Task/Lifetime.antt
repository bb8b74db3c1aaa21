-- ===== src/Task/Lifetime.antt =====
-- Programs over `Task` objects and raw pointers, and what they leave of the coroutine frames.
use mathlib.Core.Option
use mathlib.Core.Path.{subst}
use tiny_coro_build_your_own.Common.{
  ℕ, suc, ◌^◌, ◌<◌, ◌≡◌, refl, sym, ◌≢◌, Option, none, some, List, [], ◌∷◌, arith, count,
}
use tiny_coro_build_your_own.Task.{
  Frames, Task, ◌>>=◌, get_return_object, of_handle, copy, move, destruct, move_assign, detach,
  to_address, from_address,
}
use tiny_coro_build_your_own.Task.Ownership.{
  Counted, erase, get_return_object-Counted, add_ref-Counted, dec_ref-Counted, moved-Counted,
  unowned_freed,
}

-- The frames, and the handles of the program's task objects and raw pointers, those of null ones
-- included.
pub record Memory : Type 0 where
  pub frames : Frames
  pub owners : List ℕ

-- An operation on a reference to the frame at this address.
pub data Op : Type 0 where
  creates wraps copies moves drops hands_over lends : ℕ → Op
  assigns : ℕ → ℕ → Op

abbrev task : ℕ → Task
task a = record { handle = a }

-- The references after the call: those named here join the ones held before.
abbrev joined : List ℕ → Option (Frames × Task) → Option Memory
joined owners r = Option.map (λ p. record { frames = p.0; owners = p.1.handle ∷ owners }) r

unfoldable pub exec : Op → Memory → Option Memory
exec (creates a) m =
    let (fs, t) = get_return_object a m.frames in
    some (record { frames = fs; owners = t.handle ∷ m.owners })
exec (wraps a) m = joined m.owners (of_handle a m.frames)
exec (copies a) m = joined m.owners (copy (task a) m.frames)
exec (moves a) m =
    let (t, left) = move (task a) in
    some (record m { owners = t.handle ∷ left.handle ∷ erase a m.owners })
exec (drops a) m =
    Option.map (λ fs. record { frames = fs; owners = erase a m.owners })
      (destruct (task a) m.frames)
exec (hands_over a) m =
    let (p, left) = detach (task a) in
    some (record m { owners = (from_address p).handle ∷ left.handle ∷ erase a m.owners })
exec (lends a) m =
    joined m.owners (Option.map (λ p. (p.0, from_address p.1)) (to_address (task a) m.frames))
exec (assigns a b) m =
    Option.map
      (λ (fs, t, left). record {
        frames = fs;
        owners = t.handle ∷ left.handle ∷ erase b (erase a m.owners);
      })
      (move_assign (task a) (task b) m.frames)

-- What the program has to respect: it uses references that it holds, and the allocator returns
-- addresses that are free.
abbrev pub Permitted : Op → Memory → Type 0
Permitted (creates a) m = (a ≢ 0) × (m.frames a ≡ none)
Permitted (wraps a) m = (a ≢ 0) × (0 < count a m.owners) × (suc (count a m.owners) < 2 ^ 31)
Permitted (copies a) m = (a ≢ 0) × (0 < count a m.owners) × (suc (count a m.owners) < 2 ^ 31)
Permitted (moves a) m = (a ≢ 0) × (0 < count a m.owners)
Permitted (drops a) m = (a ≢ 0) × (0 < count a m.owners)
Permitted (hands_over a) m = (a ≢ 0) × (0 < count a m.owners)
Permitted (lends a) m = (a ≢ 0) × (0 < count a m.owners) × (suc (count a m.owners) < 2 ^ 31)
Permitted (assigns a b) m =
    (a ≢ 0) × (b ≢ 0) × (0 < count a m.owners) × (0 < count b (erase a m.owners))

abbrev pub Safe : Memory → Type 0
Safe m = Counted m.frames m.owners

abbrev pub Runs : Option Memory → Type 0
Runs r = (m : Memory) × (r ≡ some m) × Safe m

-- A null task is no reference.
with_null-Counted :
    {fs : Frames} {owners : List ℕ} (a : ℕ) → Counted fs (a ∷ owners) → Counted fs (a ∷ 0 ∷ owners)
with_null-Counted a inv = record { counts = λ b nz. let e = inv.counts b nz in ground (arith, e) }

pub exec-Runs : (o : Op) (m : Memory) → Safe m → Permitted o m → Runs (exec o m)
unfolding exec get_return_object of_handle copy move destruct detach to_address from_address
    move_assign
exec-Runs (creates a) m s p = (_, refl, get_return_object-Counted s a p.0 p.1)
exec-Runs (wraps a) m s p =
    let (fs, e, s') = add_ref-Counted s a p.0 p.1 p.2 in
    (record { frames = fs; owners = a ∷ m.owners }, ground arith, s')
exec-Runs (copies a) m s p =
    let (fs, e, s') = add_ref-Counted s a p.0 p.1 p.2 in
    (record { frames = fs; owners = a ∷ m.owners }, ground arith, s')
exec-Runs (moves a) m s p = (_, refl, with_null-Counted a (moved-Counted a s p.1))
exec-Runs (drops a) m s p =
    let (fs, e, s') = dec_ref-Counted s a p.0 p.1 in
    (record { frames = fs; owners = erase a m.owners }, ground arith, s')
exec-Runs (hands_over a) m s p = (
  record m { owners = a ∷ 0 ∷ erase a m.owners },
  ground arith,
  with_null-Counted a (moved-Counted a s p.1),
)
exec-Runs (lends a) m s p =
    let (fs, e, s') = add_ref-Counted s a p.0 p.1 p.2 in
    (record { frames = fs; owners = a ∷ m.owners }, ground arith, s')
exec-Runs (assigns a b) m s p =
    let (fs, e, s') = dec_ref-Counted s a p.0 p.2 in
    (
      record { frames = fs; owners = b ∷ 0 ∷ erase b (erase a m.owners) },
      ground arith,
      with_null-Counted b (moved-Counted b s' p.3),
    )

unfoldable pub run : List Op → Memory → Option Memory
run [] m = some m
run (o ∷ os) m = exec o m >>= run os

-- Each operation of the program is permitted where its turn comes.
abbrev pub AllPermitted : List Op → Memory → Type 0
AllPermitted [] m = Unit
AllPermitted (o ∷ os) m =
    Permitted o m × elim (exec o m) [ none ↦ Unit {0} | some m' ↦ AllPermitted os m' ]

-- A permitted program never touches a frame that is gone (`run` gives a memory, not `none`), and
-- afterwards a frame is allocated exactly when a reference to it is held, with that count.
pub run-Runs : (os : List Op) (m : Memory) → Safe m → AllPermitted os m → Runs (run os m)
unfolding run
run-Runs [] m s p = (m, refl, s)
run-Runs (o ∷ os) m s p =
    let (m', e, s') = exec-Runs o m s p.0 in rw e (run-Runs os m' s' (rw e at p.1))

-- A permitted program that ends with no handle left that is not null has freed every frame.
pub run_leaks_nothing :
    (os : List Op) (m m' : Memory)
    → Safe m
    → AllPermitted os m
    → run os m ≡ some m'
    → ((a : ℕ) → a ≢ 0 → count a m'.owners ≡ 0)
    → (a : ℕ) → a ≢ 0
    → m'.frames a ≡ none
run_leaks_nothing os m m' s p e none_held a nz =
    let (n, e', s') = run-Runs os m s p in
    let q : m' ≡ n = cc in unowned_freed (subst Safe (sym q) s') a nz (none_held a nz)
