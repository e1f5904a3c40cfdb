-- ===== src/Client/Register/Refused.antt =====
-- A registration that the server does not confirm, in do_register of Client.cpp.
use epic_1bit2qbit.Prelude.{
  ℕ, suc, All, ◌≡◌, ◌≢◌, refl, true, false, [], ◌∷◌, ◌++◌, none, ◌==◌, bytes_eq, bytes_beq_iff,
  arith, Bool-cases, inl, inr, ◌⊎◌, if◌then◌else◌,
}
use epic_1bit2qbit.Prelude.Int.{ℤ, pos, negsuc}
use epic_1bit2qbit.Prelude.Text.{Bytes, codes, includes, find, starts_with, to_string}
use epic_1bit2qbit.Prelude.Text.Decimal.{IsDecimal, is_digit, to_string-IsDecimal}
use epic_1bit2qbit.Prelude.Result.{Result, ok, err}
use epic_1bit2qbit.Messaging.Store.{MessageStore}
use epic_1bit2qbit.Ui.App.{push_status}
use epic_1bit2qbit.Client.State.{Client, on_app, try_catch, handled}
use epic_1bit2qbit.Client.Session.{Env}
use epic_1bit2qbit.Client.Https.{Exchange, HttpResponse, https_post}
use epic_1bit2qbit.Client.Login.{Connecting}
use epic_1bit2qbit.Client.Register.{
  do_register, register_steps, log_in, register_failure, reg_body, is_status, int_to_string,
  same_secret,
}

-- The text that the window shows for an answer that is no confirmation.
abbrev pub refusal : Result HttpResponse → Bytes
refusal (err e) = register_failure e
refusal (ok resp) =
    if is_status 409 resp.status
    then register_failure (codes "username already taken")
    else codes "Registration failed: server error. Try again later."

-- A text without the letter "a" does not say "already taken".
absent : (ps s : Bytes) → All (λ c. c ≢ 97) s → find (97 ∷ ps) s ≡ none
unfolding find starts_with
absent ps [] h = refl
absent ps (c ∷ s) h = rw (absent ps s h.1) (ground (arith, h.0))

not_included : (ps s : Bytes) → All (λ c. c ≢ 97) s → includes (97 ∷ ps) s ≡ false
unfolding includes
not_included ps s h = rw (absent ps s h, includes) refl

digits_absent : (s : Bytes) → All (λ d. is_digit d ≡ true) s → All (λ c. c ≢ 97) s
digits_absent [] h = tt
digits_absent (c ∷ s) h = (λ e. ground (arith, e, h.0), digits_absent s h.1)

decimal_absent : (s : Bytes) → IsDecimal s → All (λ c. c ≢ 97) s
decimal_absent [] h = absurd h
decimal_absent (c ∷ s) h = digits_absent (c ∷ s) h

int_absent : (z : ℤ) → All (λ c. c ≢ 97) (int_to_string z)
int_absent (pos n) = decimal_absent (to_string n) (to_string-IsDecimal n)
int_absent (negsuc n) = (
  λ e. absurd (omega (arith, e)),
  decimal_absent (to_string (suc n)) (to_string-IsDecimal (suc n)),
)

prefixed :
    (s : Bytes) → All (λ c. c ≢ 97) s → All (λ c. c ≢ 97) (codes "server returned HTTP " ++ s)
prefixed s h = ground (arith, h)

-- The message for a status that is neither 201 nor 409.
status_failure :
    (z : ℤ)
    → register_failure (codes "server returned HTTP " ++ int_to_string z)
      ≡ codes "Registration failed: server error. Try again later."
status_failure z =
    let text = codes "server returned HTTP " ++ int_to_string z in
    let http : includes (codes "HTTP") text ≡ true = unfold includes find starts_with in refl in
    let other : includes (codes "already taken") text ≡ false =
      not_included (codes "lready taken") text (prefixed (int_to_string z) (int_absent z)) in
    rw (other, http) refl

module _ {J : Type 0} (env : Env J) where
  -- The answer of the server to the request of do_register.
  abbrev pub answer_to : {C : Type 0} → Exchange C → Bytes → Bytes → Bytes → Result HttpResponse
  answer_to x host username auth_password =
      (https_post x host (codes "/backend/register") (reg_body env username auth_password)).1

  -- The server confirms the registration with the status 201, and with no other.
  abbrev pub Confirms : Result HttpResponse → Type 0
  Confirms (err e) = ⊥
  Confirms (ok resp) = resp.status ≡ pos 201

  is_status-eq : (n : ℕ) (z : ℤ) → is_status n z ≡ true → z ≡ pos n
  is_status-eq n (pos m) h = ground (arith, h)
  is_status-eq n (negsuc m) h = absurd (cc h)

  -- How do_register goes on from an answer.
  refused_answer :
      (r : Result HttpResponse) (opened : Result MessageStore) (username key_pin : Bytes)
      (c : Client J)
      → ¬ Confirms r
      → (e : Bytes) × (register_steps env r opened username key_pin c ≡ (err e, c))
        × (register_failure e ≡ refusal r)
  unfolding register_steps
  refused_answer (err e) opened username key_pin c denied = (e, refl, refl)
  refused_answer (ok resp) opened username key_pin c denied =
      elim (Bool-cases (is_status 409 resp.status)) [
        | inl taken ↦ (codes "username already taken", rw taken refl, rw taken refl)
        | inr other ↦ elim (Bool-cases (is_status 201 resp.status)) [
          | inl created ↦ absurd (denied (is_status-eq 201 resp.status created))
          | inr failed ↦ (
            codes "server returned HTTP " ++ int_to_string resp.status,
            rw (other, failed) refl,
            rw other (status_failure resp.status),
          )
        ]
      ]

  -- Where the password and the PIN are the same, or the server's answer is no confirmation, or there
  -- is no answer, do_register shows a message and changes nothing else of the client: no key is made,
  -- no store kept, and no login follows. The message is that of the equal secrets, of a taken name for
  -- the status 409, of a server error for the other statuses, or the one for the exception.
  pub do_register-refused :
      {C : Type 0} (x : Exchange C) (host : Bytes) (opened : Result MessageStore)
      (connect : Connecting env) (username auth_password key_pin : Bytes) (c : Client J)
      → (auth_password ≡ key_pin) ⊎ (¬ Confirms (answer_to x host username auth_password))
      → do_register env host x opened connect username auth_password key_pin c ≡ (
        ok tt,
        record c {
          app =
              push_status
                (if auth_password == key_pin
                  then same_secret
                  else refusal (answer_to x host username auth_password))
                c.app;
        },
      )
  unfolding do_register try_catch handled on_app log_in
  do_register-refused x host opened connect username auth_password key_pin c why =
      elim (Bool-cases (auth_password == key_pin)) [
        | inl same ↦ rw same refl
        | inr differ ↦
            let denied = not_confirmed differ why in
            let (e, steps, text) =
              refused_answer (answer_to x host username auth_password) opened username key_pin c
                denied in
            rw (differ, steps, ← text) refl
      ]
    where
      not_confirmed :
          (auth_password == key_pin) ≡ false
          → (auth_password ≡ key_pin) ⊎ (¬ Confirms (answer_to x host username auth_password))
          → ¬ Confirms (answer_to x host username auth_password)
      not_confirmed differ (inl same) =
          absurd (cc (differ, (bytes_beq_iff auth_password key_pin).1 same))
      not_confirmed differ (inr denied) = denied
