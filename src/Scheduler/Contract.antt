-- ===== src/Scheduler/Contract.antt =====
-- include/scheduler.h: what a `Scheduler` promises to those who give it tasks and to its workers: it is
-- a bag of tasks.
pub mod Refinement
mod Tests
use tiny_coro_build_your_own.Common.{
  ℕ, ◌+◌, ◌<◌, ◌≡◌, sym, ap, ◌∙◌, Option, none, some, List, [], ◌∷◌, ◌++◌, arith, count,
  count-append, if◌then◌else◌, ◌==◌,
}
use tiny_coro_build_your_own.Common.Bag.{Bag, bag, put, put_all, occurrences, occurrences-put_all}
use tiny_coro_build_your_own.Task.{Task}
use tiny_coro_build_your_own.Scheduler.{Scheduler, spawn, pop_global, find_task}
use tiny_coro_build_your_own.Scheduler.Ownership.{refs, taken}

-- A call: a new task, the search of worker i with the random number `start`, or a look at the global
-- queue in the polling loop.
pub data Op : Type 0 where
  spawns : Task → Op
  searches : (i start : ℕ) → Op
  polls : Op

unfoldable pub perform : Op → Scheduler → Scheduler × Option Task
perform (spawns t) s = (spawn t s, none)
perform (searches i start) s = find_task i start s
perform polls s = pop_global s

-- The tasks in the queues.
abbrev pub tasks : Scheduler → Bag
tasks s = bag (refs s)

abbrev pub spawned_by : Op → List ℕ
spawned_by (spawns t) = if t.handle == 0 then [] else t.handle ∷ []
spawned_by _ = []

-- What a call may do to the bag, given what it returns: `spawn` puts the task in, unless it is null; a
-- search takes one out, and fails only if the bag is empty; so does a look at the global queue, which
-- may fail at any time.
abbrev pub Allowed : Op → Bag → Option Task → Bag → Type 0
Allowed (spawns t) b r b' = (r ≡ none) × (b' ≡ put_all (spawned_by (spawns t)) b)
Allowed (searches i start) b none b' = (b ≡ bag []) × (b' ≡ b)
Allowed (searches i start) b (some t) b' = b ≡ put t.handle b'
Allowed polls b none b' = b' ≡ b
Allowed polls b (some t) b' = b ≡ put t.handle b'

-- The call names one of n workers.
abbrev pub Fits : ℕ → Op → Type 0
Fits n (searches i start) = (i < n) × (start < n)
Fits n _ = Unit

-- A history of calls: what they return, and the scheduler after them.
unfoldable pub history : List Op → Scheduler → List (Option Task) × Scheduler
history [] s = ([], s)
history (o ∷ os) s =
    let (s', task) = perform o s in let (given, end) = history os s' in (task ∷ given, end)

-- The contract lets a history of calls return these tasks and lead from one bag to another.
abbrev pub Runs : List Op → Bag → List (Option Task) → Bag → Type 0
Runs [] b [] b' = b' ≡ b
Runs (o ∷ os) b (task ∷ given) b' = (b₁ : Bag) × Allowed o b task b₁ × Runs os b₁ given b'
Runs _ b _ b' = ⊥

-- The tasks given to the scheduler, and those that calls return.
abbrev pub spawned : List Op → List ℕ
spawned [] = []
spawned (o ∷ os) = spawned_by o ++ spawned os

abbrev pub returned : List (Option Task) → List ℕ
returned [] = []
returned (task ∷ given) = taken task ++ returned given

Allowed-balance :
    (o : Op) (b b' : Bag) (task : Option Task)
    → Allowed o b task b'
    → put_all (spawned_by o) b ≡ put_all (taken task) b'
unfolding put_all
Allowed-balance (spawns t) b b' none (e, put_in) = sym put_in
Allowed-balance (spawns t) b b' (some u) (e, put_in) = absurd (let e' = e in cc)
Allowed-balance (searches i start) b b' none (empty, same) = sym same
Allowed-balance (searches i start) b b' (some t) took = took
Allowed-balance polls b b' none same = sym same
Allowed-balance polls b b' (some t) took = took

count-balance :
    (a : ℕ) (o : Op) (b b' : Bag) (task : Option Task)
    → Allowed o b task b'
    → count a (spawned_by o) + occurrences a b ≡ count a (taken task) + occurrences a b'
count-balance a o b b' task allowed =
    sym (occurrences-put_all a (spawned_by o) b)
    ∙ ap (occurrences a) (Allowed-balance o b b' task allowed)
    ∙ occurrences-put_all a (taken task) b'

-- The contract alone says that no task is lost and none is given out twice.
pub Runs-balance :
    (a : ℕ) (os : List Op) (b b' : Bag) (given : List (Option Task))
    → Runs os b given b'
    → count a (spawned os) + occurrences a b ≡ count a (returned given) + occurrences a b'
Runs-balance a [] b b' [] same = omega (arith, ap (occurrences a) same)
Runs-balance a [] b b' (task ∷ given) r = elim r [ ]
Runs-balance a (o ∷ os) b b' [] r = elim r [ ]
Runs-balance a (o ∷ os) b b' (task ∷ given) (b₁, allowed, runs) = omega (
  arith,
  count-balance a o b b₁ task allowed,
  Runs-balance a os b₁ b' given runs,
  count-append a (spawned_by o) (spawned os),
  count-append a (taken task) (returned given),
)
