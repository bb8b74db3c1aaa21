-- ===== src/Task.antt =====
-- include/task.h: coroutine frames, their reference counts, and the `Task` handle.
-- A `void*` is a number, 0 is `nullptr`. A frame that is not allocated is `none`, and an access to
-- one gives `none`: a use after free.
pub mod Lifetime
pub mod Ownership
pub mod Resuming
mod Tests
use tiny_coro_build_your_own.Common.{
  ℕ, ◌+◌, ◌-◌, ◌%◌, ◌^◌, Bool, true, false, not, ◌||◌, Option, none, some, if◌then◌else◌, ◌==◌,
  update,
}

pub record Promise : Type 0 where
  pub ref_count : ℕ  -- the bit pattern of an `int`
  pub is_running : Bool
  pub continuation : ℕ
  pub at_end : Bool  -- suspended at its final suspend point, what `handle.done()` reads

-- The coroutine frames in memory.
abbrev pub Frames : Type 0
Frames = ℕ → Option Promise

pub record Task : Type 0 where
  pub handle : ℕ

infixl 5 ◌>>=◌
abbrev pub ◌>>=◌ {ℓ κ} : {A : Type ℓ} {B : Type κ} → Option A → (A → Option B) → Option B
none >>= f = none
some a >>= f = f a

abbrev pub int_mod : ℕ
int_mod = 2 ^ 32

-- `fetch_add(1)` and `fetch_sub(1)`, which wrap.
abbrev pub incremented : Promise → Promise
incremented p = record p { ref_count = (p.ref_count + 1) % int_mod }

abbrev pub decremented : Promise → Promise
decremented p = record p { ref_count = (p.ref_count + int_mod - 1) % int_mod }

-- A new coroutine: `ref_count{1}`, and a handle that adopts that count.
unfoldable pub get_return_object : ℕ → Frames → Frames × Task
get_return_object a fs = (
  update fs a
      (some (record { ref_count = 1; is_running = false; continuation = 0; at_end = false })),
  record { handle = a },
)

-- `Task()`
abbrev pub null_task : Task
null_task = record { handle = 0 }

unfoldable pub add_ref : ℕ → Frames → Option Frames
add_ref a fs = do p ← fs a; some (update fs a (some (incremented p)))

-- `explicit Task(h)`
unfoldable pub of_handle : ℕ → Frames → Option (Frames × Task)
unfolding add_ref
of_handle a fs =
    if a == 0
    then some (fs, record { handle = 0 })
    else do fs' ← add_ref a fs; some (fs', record { handle = a })

-- `Task(h, AdoptTag)`
unfoldable pub adopt : ℕ → Task
adopt a = record { handle = a }

-- the copy constructor
unfoldable pub copy : Task → Frames → Option (Frames × Task)
unfolding add_ref
copy o fs =
    if o.handle == 0
    then some (fs, record { handle = o.handle })
    else do fs' ← add_ref o.handle fs; some (fs', record { handle = o.handle })

-- The move constructor: the new task, and what is left of the old one.
unfoldable pub move : Task → Task × Task
move o = (record { handle = o.handle }, record { handle = 0 })

-- `dec_ref`: the last reference destroys the frame.
unfoldable pub dec_ref : ℕ → Frames → Option Frames
dec_ref a fs = do
  p ← fs a
  if p.ref_count == 1 then some (update fs a none) else some (update fs a (some (decremented p)))

-- `~Task()`
unfoldable pub destruct : Task → Frames → Option Frames
destruct t fs = if t.handle == 0 then some fs else dec_ref t.handle fs

-- Move assignment between two task objects that are not the same: frames, target and source.
unfoldable pub move_assign : Task → Task → Frames → Option (Frames × Task × Task)
unfolding destruct
move_assign t o fs = do
  fs' ← destruct t fs
  some (fs', record { handle = o.handle }, record { handle = 0 })

unfoldable pub detach : Task → ℕ × Task
detach t = (t.handle, record { handle = 0 })

unfoldable pub to_address : Task → Frames → Option (Frames × ℕ)
to_address t fs =
    if t.handle == 0 then some (fs, 0) else do fs' ← add_ref t.handle fs; some (fs', t.handle)

unfoldable pub from_address : ℕ → Task
unfolding adopt
from_address p = if p == 0 then null_task else adopt p

unfoldable pub done : Task → Frames → Option Bool
done t fs = if t.handle == 0 then some true else do p ← fs t.handle; some p.at_end

-- The first half of `resume`: `false` where it returns at once, because there is nothing to run or
-- because the compare-exchange finds that the coroutine is running.
unfoldable pub begin_resume : Task → Frames → Option (Frames × Bool)
begin_resume t fs = if t.handle == 0 then some (fs, false) else do
  p ← fs t.handle
  if p.at_end || p.is_running
      then some (fs, false)
      else some (update fs t.handle (some (record p { is_running = true })), true)

-- The second half, after `handle.resume()` has returned.
unfoldable pub end_resume : Task → Frames → Option Frames
end_resume t fs = if t.handle == 0 then some fs else do
  p ← fs t.handle
  if p.at_end then some fs else some (update fs t.handle (some (record p { is_running = false })))

-- `resume`. The coroutine's own code, `handle.resume()`, is the parameter `body`: it runs up to the
-- next suspend point and may change all of the program's state, of which the frames are a part.
unfoldable pub resume {ℓ} :
    {S : Type ℓ} → (S → Frames) → (Frames → S → S) → (ℕ → S → Option S) → Task → S → Option S
resume frames with_frames body t s = do
  (fs, runs) ← begin_resume t (frames s)
  if runs
      then (do
        s' ← body t.handle (with_frames fs s)
        fs' ← end_resume t (frames s')
        some (with_frames fs' s'))
      else some (with_frames fs s)

-- `FinalAwaiter::await_suspend`: the handle to go on with, 0 for `noop_coroutine()`.
unfoldable pub final_suspend : ℕ → Frames → Option (Frames × ℕ)
final_suspend a fs = do
  p ← fs a
  some (update fs a (some (record p { is_running = false; at_end = true })), p.continuation)
