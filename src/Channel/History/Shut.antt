-- ===== src/Channel/History/Shut.antt =====
-- A channel that is closed stays closed and takes no value.
use tiny_coro_build_your_own.Common.{
  ℕ, ◌≡◌, refl, ap, ap₂, ◌∙◌, Bool, true, false, inl, inr, List, [], ◌∷◌, ◌++◌, arith,
  if◌then◌else◌, Bool-cases,
}
use tiny_coro_build_your_own.Channel.{
  SenderWaiter, Channel, State, send, recv, recv_suspend, close, take, take_direct, refill,
}
use tiny_coro_build_your_own.Channel.Branches.{send_suspend-closed, close-closed, close-chan}
use tiny_coro_build_your_own.Channel.History.{
  Op, sends, recvs, closes, step, accepted, dropped, total,
}

module _ {ℓ} {T : Type ℓ} where
  pub pick : {b : Bool} (xs ys : List T) → b ≡ true → (if b then xs else ys) ≡ xs
  pick xs ys e = ap (λ b. if b then xs else ys) e

  pub pass : {b : Bool} (xs ys : List T) → b ≡ false → (if b then xs else ys) ≡ ys
  pass xs ys e = ap (λ b. if b then xs else ys) e

  take_direct-shut :
      (ws : List SenderWaiter) (this h : ℕ) (s : State T)
      → s.chan.closed ≡ true
      → (take_direct ws this h s).0.chan.closed ≡ true
  take_direct-shut [] this h s shut = ground arith
  take_direct-shut (w ∷ ws) this h s shut = shut

  refill-shut : (ws : List SenderWaiter) (s : State T) → (refill ws s).chan.closed ≡ s.chan.closed
  refill-shut [] s = refl
  refill-shut (w ∷ ws) s = refl

  take-shut :
      (xs : List T) (this h : ℕ) (s : State T)
      → s.chan.closed ≡ true
      → (take xs this h s).0.chan.closed ≡ true
  take-shut [] this h s shut = take_direct-shut s.chan.send_waiters this h s shut
  take-shut (x ∷ xs) this h s shut = refill-shut s.chan.send_waiters _ ∙ shut

  -- A closed channel stays closed.
  step-shut : (o : Op T) (s : State T) → s.chan.closed ≡ true → (step o s).chan.closed ≡ true
  unfolding step send recv recv_suspend
  step-shut (sends this h v) s shut =
      ap (λ (r : State T × Bool). r.0.chan.closed) (send_suspend-closed this h (send this v s) shut)
      ∙ shut
  step-shut (recvs this h) s shut = take-shut s.chan.buffer this h (recv this s) shut
  step-shut closes s shut = ap (λ (t : State T). t.chan.closed) (close-closed s shut) ∙ shut

  pub close-shut : (s : State T) → (close s).chan.closed ≡ true
  close-shut s = elim (Bool-cases s.chan.closed) [
    | inl shut ↦ ap (λ (t : State T). t.chan.closed) (close-closed s shut) ∙ shut
    | inr o ↦ ap (λ (c : Channel T). c.closed) (close-chan s o)
  ]

  -- A closed channel takes no value and drops none.
  pub total-shut :
      (os : List (Op T)) (s : State T)
      → s.chan.closed ≡ true
      → (total accepted os s ≡ []) × (total dropped os s ≡ [])
  total-shut [] s shut = (refl, refl)
  total-shut (o ∷ os) s shut =
      let rest = total-shut os (step o s) (step-shut o s shut) in
      (ap₂ (λ xs ys. xs ++ ys) (takes_none o) rest.0, ap₂ (λ xs ys. xs ++ ys) (drops_none o) rest.1)
    where
      takes_none : (o : Op T) → accepted o s ≡ []
      takes_none (sends this h v) = pick [] (v ∷ []) shut
      takes_none (recvs this h) = refl
      takes_none closes = refl

      drops_none : (o : Op T) → dropped o s ≡ []
      drops_none (sends this h v) = refl
      drops_none (recvs this h) = refl
      drops_none closes = pick [] _ shut
