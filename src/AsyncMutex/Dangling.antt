-- ===== src/AsyncMutex/Dangling.antt =====
-- `co_await mutex.lock()` in a coroutine that a worker runs, while another holds the lock.
use tiny_coro_build_your_own.Common.{
  ℕ, ◌≡◌, refl, ap, ◌∙◌, ◌≢◌, true, false, Option, none, some, [], ◌∷◌, ◌++◌, arith, update,
  if◌then◌else◌, ◌==◌,
}
use tiny_coro_build_your_own.Scheduler.{Scheduler, World, with_frames, run_task}
use tiny_coro_build_your_own.Scheduler.Spawn.{spawn_address-queue}
use tiny_coro_build_your_own.Scheduler.Lifetimes.{
  Suspended, running, run_task-frees, run_task-dangling, update_self,
}
use tiny_coro_build_your_own.AsyncMutex.{AsyncMutex, await_suspend, unlock, unlock_with}

waits :
    (h : ℕ) (m : AsyncMutex)
    → m.locked ≡ true
    → await_suspend h m ≡ (record m { waiters = m.waiters ++ h ∷ [] }, true)
unfolding await_suspend
waits h m locked = rw locked refl

-- The unlock of the holder, when only this coroutine waits.
unlock-spawns :
    (h : ℕ) (m : AsyncMutex) (s : Scheduler)
    → h ≢ 0
    → m.waiters ≡ h ∷ []
    → (unlock m s).1.global_queue ≡ s.global_queue ++ record { handle = h } ∷ []
unfolding unlock unlock_with
unlock-spawns h m s nz e =
    let not_null : (h == 0) ≡ false = ground (arith, nz) in
    ap (λ hs. (unlock_with hs m s).1.global_queue) e
    ∙ spawn_address-queue h s
    ∙ ap (λ b. s.global_queue ++ (if b then [] else record { handle = h } ∷ [])) not_null

-- A worker that holds the only reference to an idle, suspended coroutine runs it, and it awaits a lock that another
-- holds and for which no one waits, its code having taken no reference. It is suspended in the wait queue, the
-- turn destroys its frame, the unlock of the holder makes its task the last of the global queue all the same, and a worker
-- that runs that task accesses the frame that is gone.
pub lock-dangles :
    (code : ℕ → World → Option World) (a : ℕ) (m : AsyncMutex) (w w' : World)
    → m.locked ≡ true
    → m.waiters ≡ []
    → a ≢ 0
    → (s : Suspended a 1 w.shared.frames) → s.promise.is_running ≡ false
    → code a (with_frames (update w.shared.frames a (some (running s.promise))) w) ≡ some w'
    → Suspended a 1 w'.shared.frames
    → (let (m', suspended) = await_suspend a m in
        (suspended ≡ true)
        × ((v : World) × (run_task code (record { handle = a }) w ≡ some v)
            × (let (m'', scheduler) = unlock m' v.scheduler in
                (scheduler.global_queue ≡ v.scheduler.global_queue ++ record { handle = a } ∷ [])
                × ((body : ℕ → World → Option World)
                    → run_task body (record { handle = a }) (record v { scheduler = scheduler })
                      ≡ none))))
lock-dangles code a m w w' locked empty nz s rest ran s' =
    let m' = (await_suspend a m).0 in
    let v : World = with_frames (update w'.shared.frames a none) w' in
    (
      ap (λ r. r.1) (waits a m locked),
      (
        v,
        run_task-frees code a nz w w' s rest ran s',
        (
          unlock-spawns a m' v.scheduler nz
              (ap (λ r. r.0.waiters) (waits a m locked) ∙ ap (λ hs. hs ++ a ∷ []) empty),
          λ body.
              run_task-dangling body a (record v { scheduler = (unlock m' v.scheduler).1 }) nz
                (update_self w'.shared.frames a none),
        ),
      ),
    )
