-- ===== src/Queue/Steal.antt =====
-- include/queue.h, `StealQueue<Task>`: the Chase-Lev deque. The owner pushes and pops at `bottom`,
-- thieves take at `top`. Each operation is given here as it runs with no other thread in between.
use tiny_coro_build_your_own.Common.{
  ℕ, ◌+◌, ◌-◌, ◌%◌, ◌^◌, Bool, true, false, Option, none, some, if◌then◌else◌, ◌==◌,
}
use tiny_coro_build_your_own.Common.Int.{ℤ, pos, negsuc, ◌+ℤ◌, ◌-ℤ◌, leb_ℤ, ltb_ℤ, eqb_ℤ}
use tiny_coro_build_your_own.Task.{Frames, Task, ◌>>=◌, to_address, from_address, destruct}
use tiny_coro_build_your_own.Ebr
use tiny_coro_build_your_own.Ebr.{EbrManager}
use tiny_coro_build_your_own.Queue.Array.{Array, new_array, put, get, resize}

-- `top` never falls below 0; `bottom` is one less for a moment in `pop`.
pub record StealQueue : Type 0 where
  pub top : ℕ
  pub bottom : ℤ
  pub array : Array
  pub local_state : ℕ

-- What the queue shares with the rest of the program.
pub record Shared : Type 0 where
  pub frames : Frames
  pub ebr : EbrManager

unfoldable pub new_queue : ℕ → ℕ → StealQueue
unfolding new_array
new_queue address ls = record {
  top = 0;
  bottom = pos 0;
  array = new_array address 1024;
  local_state = ls;
}

-- A `long` as an index of type `size_t`.
abbrev pub to_size : ℤ → ℕ
to_size (pos n) = n % 2 ^ 64
to_size (negsuc n) = 2 ^ 64 - 1 - n % 2 ^ 64

-- The array to write to, after it was replaced if it is full: the queue and the manager then.
-- `fresh` is the address that the allocator has for a new array.
unfoldable pub make_room : ℕ → EbrManager → StealQueue → StealQueue × EbrManager
unfolding ◌-ℤ◌
make_room fresh ebr q =
    if leb_ℤ (pos q.array.cap -ℤ pos 1) (q.bottom -ℤ pos q.top)
    then (
      record q { array = resize fresh (to_size q.bottom) q.top q.array },
      Ebr.retire q.local_state q.array.address ebr,
    )
    else (q, ebr)

abbrev pub write_bottom : ℕ → StealQueue → StealQueue
write_bottom p q = record q { bottom = q.bottom +ℤ pos 1; array = put (to_size q.bottom) p q.array }

-- `push`, to the end of its parameter's life: `to_address` adds a reference for the queue, and the
-- destructor of `item` gives back the caller's.
unfoldable pub push : ℕ → Task → Shared → StealQueue → Option (Shared × StealQueue)
push fresh item sh q = do
  let (q', ebr') = make_room fresh sh.ebr q
  (frames', p) ← to_address item sh.frames
  frames'' ← destruct item frames'
  some (record { frames = frames''; ebr = ebr' }, write_bottom p q')

-- `compare_exchange_strong`: whether it was won, and the value afterwards.
abbrev pub compare_exchange : ℕ → ℕ → ℕ → Bool × ℕ
compare_exchange expected desired now = if now == expected then (true, desired) else (false, now)

unfoldable pub pop : StealQueue → StealQueue × Option Task
unfolding ◌-ℤ◌ ◌+ℤ◌
pop q =
    let b = q.bottom -ℤ pos 1 in
    let t = q.top in
    let val = get (to_size b) q.array in
    let (won, top') = compare_exchange t (t + 1) q.top in
    if leb_ℤ (pos t) b
    then (if eqb_ℤ (pos t) b
        then (if won
            then (record q { top = top'; bottom = b +ℤ pos 1 }, some (from_address val))
            else (record q { bottom = b +ℤ pos 1 }, none))
        else (record q { bottom = b }, some (from_address val)))
    else (record q { bottom = b +ℤ pos 1 }, none)

unfoldable pub steal : StealQueue → StealQueue × Option Task
steal q =
    let t = q.top in
    let b = q.bottom in
    let val = get (t % 2 ^ 64) q.array in
    let (won, top') = compare_exchange t (t + 1) q.top in
    if ltb_ℤ (pos t) b
    then (if won then (record q { top = top' }, some (from_address val)) else (q, none))
    else (q, none)
