-- ===== src/Client/Unlock/Lockout.antt =====
-- The lockout of Client.cpp after wrong PINs.
use epic_1bit2qbit.Prelude.{
  ℕ, suc, ◌+◌, ◌-◌, ◌*◌, ◌^◌, ◌<◌, ◌≤◌, ◌≡◌, refl, ap, sym, ◌∙◌, true, false, ltb, arith,
}
use Prim.Native.Nat.{min}
use epic_1bit2qbit.Prelude.Int.{pos_part}
use epic_1bit2qbit.Connection.Bits.{table, below}
use epic_1bit2qbit.Ui.Login.{start_lockout}
use epic_1bit2qbit.Client.State.{Client, on_app}
use epic_1bit2qbit.Client.Session.{Env}
use epic_1bit2qbit.Client.Unlock.{lockout_delay, pin_rejected, pin_rejected_at}

-- min(5 * 2^(fails - 3), 300)
abbrev pub intended_delay : ℕ → ℕ
intended_delay fails = min (5 * 2 ^ (fails - 3)) 300

delays : (k : ℕ) → k < 29 → pos_part (lockout_delay (k + 3)) ≡ intended_delay (k + 3)
unfolding lockout_delay table
delays = below 29 (λ k. pos_part (lockout_delay (k + 3))) (λ k. intended_delay (k + 3)) refl

delay_of : (n : ℕ) → 2 ≤ n → n ≤ 30 → pos_part (lockout_delay (suc n)) ≡ intended_delay (suc n)
delay_of n many few =
    let e : n - 2 + 3 ≡ suc n = omega arith in
    sym (ap (λ k. pos_part (lockout_delay k)) e)
    ∙ delays (n - 2) (omega arith)
    ∙ ap (λ k. intended_delay k) e

-- The third wrong PIN locks the login for 5 seconds and each later one for twice the time, up to 300
-- seconds; this holds up to the 31st.
pub pin_rejected-delay :
    {J : Type 0} (env : Env J) (c : Client J)
    → 2 ≤ c.pin_fail_count
    → c.pin_fail_count ≤ 30
    → let after = (pin_rejected env c).1 in
      (after.pin_fail_count ≡ suc c.pin_fail_count)
      × (after.app ≡ start_lockout (intended_delay (suc c.pin_fail_count)) c.app)
      × (after.abort_posted ≡ true)
unfolding pin_rejected pin_rejected_at on_app
pin_rejected-delay env c many few =
    rw (third, delay_of c.pin_fail_count many few) (refl, refl, refl)
  where
    third : ltb (suc c.pin_fail_count) 3 ≡ false
    third = ground arith

-- The 32nd wrong PIN in a row brings no lockout: 5 * (1 << 29) does not fit an int and is negative.
pub pin_rejected-overflow :
    {J : Type 0} (env : Env J) (c : Client J)
    → c.pin_fail_count ≡ 31
    → (pin_rejected env c).1.app ≡ start_lockout 0 c.app
unfolding pin_rejected pin_rejected_at on_app lockout_delay
pin_rejected-overflow env c many = rw many refl
