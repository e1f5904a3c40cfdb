-- ===== src/Ui/Login/Lockout.antt =====
-- The lockout of App.cpp lasts its time, and the PIN holds six digits at most.
use epic_1bit2qbit.Prelude.{
  ℕ, zero, suc, ◌-◌, ◌≤◌, ◌≡◌, refl, ap, ◌∙◌, true, false, not, ltb, lt→ltb, arith, if-true,
  if-false,
}
use epic_1bit2qbit.Ui.App.{App, push_status}
use epic_1bit2qbit.Ui.Login.{login_btn, start_lockout, lockout_round}

-- After k rounds of the lockout thread.
unfoldable pub rounds : ℕ → App → App
rounds zero a = a
rounds (suc k) a = lockout_round (rounds k a)

-- How a window stands in a lockout with so many seconds left.
abbrev Waits : ℕ → App → Type 0
Waits left a = (a.lockout_active ≡ true) × (a.lockout_remaining ≡ left)

round-Waits : (left : ℕ) (a : App) → Waits (suc left) a → Waits left (lockout_round a)
unfolding lockout_round push_status
round-Waits left a h =
    let e =
      if-false (not a.lockout_active) _ _ (ap not h.0)
      ∙ if-true (ltb 0 a.lockout_remaining) _ _
          (lt→ltb 0 a.lockout_remaining (omega (arith, h.1))) in
    (
      ap (λ (b : App). b.lockout_active) e ∙ h.0,
      ap (λ (b : App). b.lockout_remaining) e ∙ omega (arith, h.1),
    )

last_round : (a : App) → Waits 0 a → (lockout_round a).lockout_active ≡ false
unfolding lockout_round push_status
last_round a h =
    ap (λ (b : App). b.lockout_active)
      (if-false (not a.lockout_active) _ _ (ap not h.0)
        ∙ if-false (ltb 0 a.lockout_remaining) _ _ (ground (arith, h.1)))

rounds-Waits :
    (k seconds : ℕ) (a : App) → Waits seconds a → k ≤ seconds → Waits (seconds - k) (rounds k a)
unfolding rounds
rounds-Waits zero seconds a h small = (h.0, omega (arith, h.1))
rounds-Waits (suc k) seconds a h small =
    let earlier = rounds-Waits k seconds a h (omega arith) in
    round-Waits (seconds - suc k) (rounds k a) (earlier.0, omega (arith, earlier.1))

-- In each second of a lockout the login button does nothing, whatever has been entered, and the
-- lockout has ended a second after the last.
pub lockout_lem :
    (k seconds : ℕ) (a : App)
    → k ≤ seconds
    → (login_btn (rounds k (start_lockout seconds a)) ≡ rounds k (start_lockout seconds a))
      × ((rounds (suc seconds) (start_lockout seconds a)).lockout_active ≡ false)
unfolding rounds
lockout_lem k seconds a small =
    let b = start_lockout seconds a in
    let begun : Waits seconds b = unfold start_lockout in (refl, refl) in
    let during = rounds-Waits k seconds b begun small in
    let after = rounds-Waits seconds seconds b begun (omega arith) in
    (
      unfold login_btn in if-true ((rounds k b).lockout_active) _ _ during.0,
      last_round (rounds seconds b) (after.0, omega (arith, after.1)),
    )
