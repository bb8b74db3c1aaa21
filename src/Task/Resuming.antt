-- ===== src/Task/Resuming.antt =====
-- include/task.h: `resume` and the destructor of a task keep the counts of the frames.
use tiny_coro_build_your_own.Common.{
  ℕ, ◌<◌, ◌≡◌, refl, ◌≢◌, ◌⊎◌, inl, inr, Bool, true, false, ◌||◌, some, List, arith, Bool-cases,
  count, update,
}
use tiny_coro_build_your_own.Task.{Promise, Frames, Task, begin_resume, end_resume, destruct}
use tiny_coro_build_your_own.Task.Ownership.{Counted, erase, owned_frame, dec_ref-Counted}

-- The frame at `a` is live and its coroutine runs.
abbrev pub Running : ℕ → Frames → Type 0
Running a fs = (p : Promise) × (fs a ≡ some p) × (p.is_running ≡ true) × (p.at_end ≡ false)

pub same_counts-Counted :
    {fs : Frames} {xs ys : List ℕ}
    → Counted fs xs
    → ((a : ℕ) → a ≢ 0 → count a xs ≡ count a ys)
    → Counted fs ys
same_counts-Counted inv same = record { counts = λ a nz. rw (← same a nz) (inv.counts a nz) }

-- A write that leaves the count alone.
pub write-Counted :
    {fs : Frames} {owners : List ℕ} {p : Promise} (a : ℕ) (p' : Promise)
    → Counted fs owners
    → fs a ≡ some p
    → p'.ref_count ≡ p.ref_count
    → Counted (update fs a (some p')) owners
write-Counted a p' inv live same = record { counts = λ b nz. ground (arith, inv.counts b nz) }

module _ {fs : Frames} {owners : List ℕ} (inv : Counted fs owners) (t : Task) (nz : t.handle ≢ 0)
    (held : 0 < count t.handle owners) where
  -- It starts a coroutine that is not running, and no other.
  pub begin_resume-Counted :
      (fs' : Frames) × (runs : Bool) × (begin_resume t fs ≡ some (fs', runs))
      × Counted fs' owners
      × ((runs ≡ false) ⊎ ((runs ≡ true) × Running t.handle fs'))
  unfolding begin_resume
  begin_resume-Counted =
      let (p, live, counted) = owned_frame inv t.handle nz held in
      elim (Bool-cases (p.at_end || p.is_running)) [
        | inl stays ↦ (fs, false, ground arith, inv, inl refl)
        | inr starts ↦
            let p' : Promise = record p { is_running = true } in
            (
              update fs t.handle (some p'),
              true,
              ground arith,
              write-Counted t.handle p' inv live refl,
              inr (refl, (p', ground arith, refl, ground arith)),
            )
      ]

  pub end_resume-Counted : (fs' : Frames) × (end_resume t fs ≡ some fs') × Counted fs' owners
  unfolding end_resume
  end_resume-Counted =
      let (p, live, counted) = owned_frame inv t.handle nz held in
      elim (Bool-cases p.at_end) [
        | inl ended ↦ (fs, ground arith, inv)
        | inr suspended ↦ (
          update fs t.handle (some (record p { is_running = false })),
          ground arith,
          write-Counted t.handle (record p { is_running = false }) inv live refl,
        )
      ]

  pub destruct-Counted :
      (fs' : Frames) × (destruct t fs ≡ some fs') × Counted fs' (erase t.handle owners)
  unfolding destruct
  destruct-Counted =
      let (fs', dropped, inv') = dec_ref-Counted inv t.handle nz held in
      (fs', ground (arith, dropped), inv')
