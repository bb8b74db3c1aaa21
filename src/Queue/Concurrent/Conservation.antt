-- ===== src/Queue/Concurrent/Conservation.antt =====
-- Every run of the work-stealing queue with its owner and its thieves gives out each pushed pointer once.
use mathlib.Core.Path.{subst}
use tiny_coro_build_your_own.Common.{
  ℕ, suc, ◌+◌, ◌-◌, ◌<◌, ◌≡◌, ◌↔◌, refl, sym, ap, false, ◌∙◌, List, [], ◌∷◌, ◌++◌, arith, count,
  length,
}
use tiny_coro_build_your_own.Common.Int.{pos, ◌-ℤ◌, leb_ℤ}
use tiny_coro_build_your_own.Queue.Array.{new_array, get}
use tiny_coro_build_your_own.Queue.Array.Slots.{window, new_array-IsArray}
use tiny_coro_build_your_own.Queue.Concurrent.{
  System, Step, push_starts, push_loads, push_fits, push_grows, push_writes, push_ends, pop_starts,
  pop_more, pop_last, pop_reads, pop_misses, pop_takes, pop_exchanges, pop_restores, steal_starts,
  steal_loads, steal_finds, steal_reads, steal_exchanges, Reach, start, next, new_system, current,
  has_value, popping,
}
use tiny_coro_build_your_own.Queue.Concurrent.Invariant.{Inv, view, entries, in_hand, ThiefInv}
use tiny_coro_build_your_own.Queue.Concurrent.Moves.{entries_front, entries_back, owner_at}
use tiny_coro_build_your_own.Queue.Concurrent.Pushing.{
  push_starts-Inv, push_loads-Inv, push_fits-Inv, push_grows-Inv, push_writes-Inv, push_ends-Inv,
}
use tiny_coro_build_your_own.Queue.Concurrent.Popping.{
  pop_starts-Inv, pop_more-Inv, pop_last-Inv, pop_reads-Inv, pop_misses-Inv, pop_takes-Inv,
  pop_exchanges-Inv, pop_restores-Inv,
}
use tiny_coro_build_your_own.Queue.Concurrent.Stealing.{
  steal_starts-Inv, steal_loads-Inv, steal_finds-Inv, steal_reads-Inv, steal_exchanges-Inv,
}

Step-Inv : {s s' : System} → Inv s → Step s s' → Inv s'
Step-Inv v (push_starts b p e at small) = push_starts-Inv b p v e at small
Step-Inv v (push_loads b p e) = push_loads-Inv b p v e
Step-Inv v (push_fits b t p e spare) = push_fits-Inv b t p v e spare
Step-Inv v (push_grows b t p fresh e full unheld) = push_grows-Inv b t p fresh v e full unheld
Step-Inv v (push_writes b p e) = push_writes-Inv b p v e
Step-Inv v (push_ends b p e) = push_ends-Inv b p v e
Step-Inv v (pop_starts b e at) = pop_starts-Inv b v e at
Step-Inv v (pop_more b e le ne) = pop_more-Inv b v e le ne
Step-Inv v (pop_last b e le eq) = pop_last-Inv b v e eq
Step-Inv v (pop_reads t e) = pop_reads-Inv t v e
Step-Inv v (pop_misses b e gt) = pop_misses-Inv b v e gt
Step-Inv v (pop_takes b e) = pop_takes-Inv b v e
Step-Inv v (pop_exchanges t w e) = pop_exchanges-Inv t w v e
Step-Inv v (pop_restores b e) = pop_restores-Inv b v e
Step-Inv v (steal_starts i e) = steal_starts-Inv i v
Step-Inv v (steal_loads i t e) = steal_loads-Inv i t v e
Step-Inv v (steal_finds i t e) = steal_finds-Inv i t v e
Step-Inv v (steal_reads i t a e) = steal_reads-Inv i t a v e
Step-Inv v (steal_exchanges i t w e) = steal_exchanges-Inv i t w v e

new_system-Inv : (address : ℕ) → Inv (new_system address)
unfolding window new_array
new_system-Inv address = record {
  shape = (10, new_array-IsArray 10 address);
  ordered = omega arith;
  fits = omega arith;
  small = omega arith;
  owner = refl;
  thieves = λ i. tt;
  balanced = λ p. omega arith;
}

pub Reach-Inv : {address : ℕ} {s : System} → Reach address s → Inv s
Reach-Inv {address} start = new_system-Inv address
Reach-Inv (next before step) = Step-Inv (Reach-Inv before) step

-- In every reachable state, whatever the owner and any number of thieves have done between their
-- accesses, each pointer was pushed as often as it was taken, stands in the queue, or is about to be returned by
-- a `pop` that no thief can forestall: none is lost and none is given out twice, also when the array
-- grows while thieves read the old one.
pub conserved :
    {address : ℕ} {s : System}
    → Reach address s
    → (p : ℕ)
    → count p s.pushed
      ≡ count p s.taken + count p (entries (view s)) + count p (in_hand s.owner (current s))
conserved r p = (Reach-Inv r).balanced p

-- In every reachable state, a thief whose compare-exchange will succeed, since `top` is still what it
-- loaded, has read the oldest pointer of the queue, from whichever array it holds.
winner_takes_oldest :
    {address : ℕ} {s : System}
    → Reach address s
    → (i t w : ℕ) → s.thief i ≡ has_value t w
    → t ≡ s.top
    → (rest : List ℕ) × (entries (view s) ≡ w ∷ rest)
winner_takes_oldest {s} r i t w e now =
    let v = Reach-Inv r in
    let (le, good) = subst (λ th. ThiefInv th (view s)) e (v.thieves i) in
    let (lt, right) = good now in
    (
      entries (record (view s) { top = suc s.top }),
      entries_front (view s) (omega arith)
          ∙ ap (λ x. x ∷ entries (record (view s) { top = suc s.top })) (sym right),
    )

-- In every reachable state, a `pop` that has stored `bottom` finds the queue empty exactly if it is, and if two or more
-- pointers are left, the one that it takes without a compare-exchange is the newest.
pub pop_decides :
    {address : ℕ} {s : System}
    → Reach address s
    → (b : ℕ) → s.owner ≡ popping b
    → ((leb_ℤ (pos s.top) (pos b -ℤ pos 1) ≡ false) ↔ (entries (view s) ≡ []))
      × (suc s.top < b
          → entries (view s)
            ≡ entries (record (view s) { back = b - 1 }) ++ get (b - 1) (current s) ∷ [])
unfolding ◌-ℤ◌ window
pop_decides {s} r b e =
    let v = Reach-Inv r in
    let (at, here) = owner_at v e in
    let empty : s.back ≡ s.top → entries (view s) ≡ [] = λ same.
      let none_left : s.back - s.top ≡ 0 = omega arith in ap (window (current s) s.top) none_left in
    let gone : entries (view s) ≡ [] → ¬ (s.top < s.back) =
      λ no_entries lt. omega (arith, ap length (sym (entries_front (view s) lt) ∙ no_entries)) in
    (
      (
        λ miss. empty (ground (arith, v.ordered)),
        λ no_entries. ground (arith, v.ordered, gone no_entries),
      ),
      λ more.
          ap (λ i. entries (record (view s) { back = i })) (whole here more)
          ∙ entries_back (view s) (b - 1) (omega arith),
    )
  where
    whole : b ≡ s.back → suc s.top < b → s.back ≡ suc (b - 1)
    whole here more = omega arith
