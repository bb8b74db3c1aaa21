-- ===== src/Scheduler/Ownership/State.antt =====
-- include/scheduler.h: states of the program in which each reference is accounted for.
use tiny_coro_build_your_own.Common.{
  ℕ, ◌<◌, ◌≡◌, ◌≢◌, Option, some, List, [], ◌∷◌, ◌++◌, arith, All, count, count-append,
}
use tiny_coro_build_your_own.Task.{Frames, Task, destruct}
use tiny_coro_build_your_own.Task.Ownership.{Counted, erase, count-erase}
use tiny_coro_build_your_own.Task.Resuming.{same_counts-Counted, destruct-Counted}
use tiny_coro_build_your_own.Ebr.{EbrManager}
use tiny_coro_build_your_own.Scheduler.{Scheduler, World, with_frames, with_ebr}
use tiny_coro_build_your_own.Timer.{Timers}
use tiny_coro_build_your_own.Scheduler.Search.{Valid}
use tiny_coro_build_your_own.Scheduler.Ownership.{refs, taken}
use tiny_coro_build_your_own.Scheduler.Ownership.Handing.{Hands}

-- The references that timers hold.
abbrev pub timer_refs : Timers → List ℕ
timer_refs [] = []
timer_refs (t ∷ ts) = t.handle ∷ timer_refs ts

-- The queues are valid, and a frame is allocated exactly if a queue or one of `ext` refers to it, with
-- as many references as its count says.
pub record Accounted (ext : List ℕ) (w : World) : Type 0 where
  pub counted : Counted w.shared.frames (refs w.scheduler ++ ext)
  pub queues : All Valid w.scheduler.workers

-- In a sound state the timers hold references to their coroutines, and `ext` lists all others from
-- outside the queues.
abbrev pub Sound : List ℕ → World → Type 0
Sound ext w = Accounted (ext ++ timer_refs w.reactor.timers) w

-- A call that gives a sound state, in which `kept` is still held.
abbrev pub Safe : List ℕ → Option World → Type 0
Safe kept r = (w : World) × (ext : List ℕ) × (r ≡ some w) × Sound (kept ++ ext) w

pub ebr-Accounted :
    {ext : List ℕ} {w : World} (m : EbrManager) → Accounted ext w → Accounted ext (with_ebr m w)
ebr-Accounted m v = record { counted = v.counted; queues = v.queues }

-- The task that a queue has given is one of the references outside the queues.
pub hands-Accounted :
    {ext : List ℕ} (w : World) (r : Scheduler × Option Task)
    → Accounted ext w
    → Hands w.scheduler r
    → Accounted (taken r.1 ++ ext) (record w { scheduler = r.0 })
hands-Accounted {ext} w r v (queues, split, size) = record {
  counted = same_counts-Counted v.counted (λ a nz. omega (
    arith,
    split a,
    count-append a (refs w.scheduler) ext,
    count-append a (refs r.0) (taken r.1 ++ ext),
    count-append a (taken r.1) ext,
  ));
  queues = queues;
}

-- A null pointer is no reference.
pub null-Accounted : {ext : List ℕ} {w : World} → Accounted (0 ∷ ext) w → Accounted ext w
null-Accounted {ext} {w} v = record {
  counted = same_counts-Counted v.counted (λ b nz.
      ground (
        arith,
        count-append b (refs w.scheduler) (0 ∷ ext),
        count-append b (refs w.scheduler) ext,
      ));
  queues = v.queues;
}

module _ {ext : List ℕ} (a : ℕ) {w : World} (v : Accounted (a ∷ ext) w) where
  pub held : 0 < count a (refs w.scheduler ++ a ∷ ext)
  held = ground (arith, count-append a (refs w.scheduler) (a ∷ ext))

  -- The reference is given back.
  dropped :
      (fs : Frames)
      → Counted fs (erase a (refs w.scheduler ++ a ∷ ext))
      → Accounted ext (with_frames fs w)
  dropped fs inv = record {
    counted = same_counts-Counted inv (λ b nz. omega (
      arith,
      count-erase a b (refs w.scheduler ++ a ∷ ext) held,
      count-append b (refs w.scheduler) (a ∷ ext),
      count-append b (refs w.scheduler) ext,
    ));
    queues = v.queues;
  }

  -- The end of a task's life.
  pub ends :
      a ≢ 0
      → (fs : Frames) × (destruct (record { handle = a }) w.shared.frames ≡ some fs)
        × Accounted ext (with_frames fs w)
  ends nz =
      let (fs, e, inv) = destruct-Counted v.counted (record { handle = a }) nz held in
      (fs, e, dropped fs inv)

-- References in another order.
pub reordered-Accounted :
    {xs ys : List ℕ} {w : World}
    → ((a : ℕ) → count a xs ≡ count a ys)
    → Accounted xs w
    → Accounted ys w
reordered-Accounted {xs} {ys} {w} same v = record {
  counted = same_counts-Counted v.counted (λ a nz.
      omega (
        arith,
        same a,
        count-append a (refs w.scheduler) xs,
        count-append a (refs w.scheduler) ys,
      ));
  queues = v.queues;
}
