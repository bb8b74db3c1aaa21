-- ===== src/Scheduler/Lifetimes.antt =====
-- A coroutine frame across one turn of a worker: who keeps it alive while it is suspended.
use tiny_coro_build_your_own.Common.{
  ℕ, ◌≡◌, refl, ap, fun_ext, ◌≢◌, ◌∙◌, true, false, Option, none, some, arith, update,
}
use tiny_coro_build_your_own.Task.{
  Promise, Frames, ◌>>=◌, begin_resume, end_resume, resume, destruct, dec_ref,
}
use tiny_coro_build_your_own.Scheduler.{World, with_frames, run_task}

-- The frame at `a` is at a suspend point where it may be resumed, and one reference to it is held.
pub record Suspended (a refs : ℕ) (fs : Frames) : Type 0 where
  pub promise : Promise
  pub live : fs a ≡ some promise
  pub not_done : promise.at_end ≡ false
  pub counted : promise.ref_count ≡ refs

-- A task whose frame is gone cannot be run: the first access is a use after free.
pub run_task-dangling :
    (body : ℕ → World → Option World) (a : ℕ) (w : World)
    → a ≢ 0
    → w.shared.frames a ≡ none
    → run_task body (record { handle = a }) w ≡ none
unfolding run_task resume begin_resume
run_task-dangling body a w nz gone = ground arith

abbrev pub running : Promise → Promise
running p = record p { is_running = true }

abbrev idle : Promise → Promise
idle p = record p { is_running = false }

update-update :
    (fs : Frames) (a : ℕ) (x y : Option Promise) → update (update fs a x) a y ≡ update fs a y
update-update fs a x y = fun_ext λ b. ground arith

pub update_self : (fs : Frames) (a : ℕ) (x : Option Promise) → update fs a x a ≡ x
update_self fs a x = ground arith

module _ (a : ℕ) (nz : a ≢ 0) (fs : Frames) {p : Promise} (live : fs a ≡ some p)
    (unfinished : p.at_end ≡ false) where
  pub begin_resume-idle :
      p.is_running ≡ false
      → begin_resume (record { handle = a }) fs ≡ some (update fs a (some (running p)), true)
  unfolding begin_resume
  begin_resume-idle rest = ground arith

  begin_resume-running :
      p.is_running ≡ true → begin_resume (record { handle = a }) fs ≡ some (fs, false)
  unfolding begin_resume
  begin_resume-running busy = ground arith

  end_resume-suspended : end_resume (record { handle = a }) fs ≡ some (update fs a (some (idle p)))
  unfolding end_resume
  end_resume-suspended = ground arith

  destruct-last : p.ref_count ≡ 1 → destruct (record { handle = a }) fs ≡ some (update fs a none)
  unfolding destruct dec_ref
  destruct-last one = ground arith

  destruct-shared :
      p.ref_count ≡ 2
      → destruct (record { handle = a }) fs ≡ some (update fs a (some (record p { ref_count = 1 })))
  unfolding destruct dec_ref
  destruct-shared two = ground arith

-- The parts of a worker's turn, put together.
run_task-runs :
    (body : ℕ → World → Option World) (a : ℕ) (w w' : World) (fs fs' fs'' : Frames)
    → begin_resume (record { handle = a }) w.shared.frames ≡ some (fs, true)
    → body a (with_frames fs w) ≡ some w'
    → end_resume (record { handle = a }) w'.shared.frames ≡ some fs'
    → destruct (record { handle = a }) fs' ≡ some fs''
    → run_task body (record { handle = a }) w ≡ some (with_frames fs'' w')
unfolding run_task resume
run_task-runs body a w w' fs fs' fs'' begun ran ended dropped =
    rw (begun, ◌>>=◌, ran, ◌>>=◌, ended, ◌>>=◌, dropped, ◌>>=◌)

-- A worker runs the task with the only reference to a suspended coroutine. `ran` says what the
-- coroutine's code does up to its next suspend point.
module _ (body : ℕ → World → Option World) (a : ℕ) (nz : a ≢ 0) (w w' : World)
    (s : Suspended a 1 w.shared.frames) (rest : s.promise.is_running ≡ false)
    (ran : body a (with_frames (update w.shared.frames a (some (running s.promise))) w)
      ≡ some w') where
  -- A worker runs the task with the only reference to an idle, suspended coroutine. If the coroutine
  -- suspends again and its code has taken no reference, the worker destroys the frame on the way out.
  pub run_task-frees :
      Suspended a 1 w'.shared.frames
      → run_task body (record { handle = a }) w
        ≡ some (with_frames (update w'.shared.frames a none) w')
  run_task-frees s' =
      run_task-runs body a w w' _ left _
        (begin_resume-idle a nz w.shared.frames s.live s.not_done rest) ran
        (end_resume-suspended a nz w'.shared.frames s'.live s'.not_done)
        (destruct-last a nz left (update_self w'.shared.frames a _) s'.not_done s'.counted)
      ∙ ap (λ fs. some (with_frames fs w'))
          (update-update w'.shared.frames a (some (idle s'.promise)) none)
    where
      left : Frames
      left = update w'.shared.frames a (some (idle s'.promise))

  -- If it has taken one, the frame survives with that reference, ready to be resumed.
  pub run_task-keeps :
      (s' : Suspended a 2 w'.shared.frames)
      → run_task body (record { handle = a }) w
        ≡ some (
            with_frames
              (update w'.shared.frames a
                (some (record (s'.promise) { is_running = false; ref_count = 1 })))
              w')
  run_task-keeps s' =
      run_task-runs body a w w' _ left _
        (begin_resume-idle a nz w.shared.frames s.live s.not_done rest) ran
        (end_resume-suspended a nz w'.shared.frames s'.live s'.not_done)
        (destruct-shared a nz left (update_self w'.shared.frames a _) s'.not_done s'.counted)
      ∙ ap (λ fs. some (with_frames fs w'))
          (update-update w'.shared.frames a (some (idle s'.promise)) _)
    where
      left : Frames
      left = update w'.shared.frames a (some (idle s'.promise))

-- A worker takes the task of a suspended coroutine with two references while another worker is still
-- inside `resume` of it. Whatever the coroutine's code is, it is not run, since the scheduler and the
-- reactor are unchanged; and when the other worker leaves, the suspended coroutine is destroyed.
pub resume_lost :
    (body : ℕ → World → Option World) (a : ℕ) (w : World)
    → a ≢ 0
    → (s : Suspended a 2 w.shared.frames) → s.promise.is_running ≡ true
    → (w' : World) × (run_task body (record { handle = a }) w ≡ some w')
      × (w'.scheduler ≡ w.scheduler)
      × (w'.reactor ≡ w.reactor)
      × ((fs fs' : Frames) × (end_resume (record { handle = a }) w'.shared.frames ≡ some fs)
          × (destruct (record { handle = a }) fs ≡ some fs')
          × (fs' a ≡ none))
unfolding run_task resume
resume_lost body a w nz s busy = (
  with_frames after w,
  rw (
    begin_resume-running a nz w.shared.frames s.live s.not_done busy,
    ◌>>=◌,
    destruct-shared a nz w.shared.frames s.live s.not_done s.counted,
    ◌>>=◌,
  ),
  refl,
  refl,
  (
    left,
    update left a none,
    end_resume-suspended a nz after (update_self w.shared.frames a _) s.not_done,
    destruct-last a nz left (update_self after a _) s.not_done refl,
    update_self left a none,
  ),
)
  where
    after : Frames
    after = update w.shared.frames a (some (record (s.promise) { ref_count = 1 }))

    left : Frames
    left = update after a (some (idle (record (s.promise) { ref_count = 1 })))
