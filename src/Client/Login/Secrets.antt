-- ===== src/Client/Login/Secrets.antt =====
-- What do_login of Client.cpp does with the PIN and the key material.
use epic_1bit2qbit.Prelude.{ℕ, ◌≡◌, refl, ap, sym, ◌∙◌, Option, none, some, is_empty}
use epic_1bit2qbit.Prelude.Text.{Bytes}
use epic_1bit2qbit.Prelude.Result.{Result, ok, err, Exec, bind_result, lift, modify, pure, ◌>>◌}
use epic_1bit2qbit.Messaging.Store.{
  MessageStore, save_server_cert, load_server_cert, load_dek, load_encrypted_state,
}
use epic_1bit2qbit.Ui.App.{push_status}
use epic_1bit2qbit.Crypto.Pipe.{Pipe}
use epic_1bit2qbit.Client.State.{
  Client, Session, on_app, on_store, change_store, from_store, ask_store, on_connection, send_over,
}
use epic_1bit2qbit.Connection.Frame.{send_text}
use epic_1bit2qbit.Client.Steps.{Holds, bind-Holds, try_catch-Holds, if-Holds}
use epic_1bit2qbit.Client.Session.{Env}
use epic_1bit2qbit.Client.Login.{
  do_login, login_steps, bring_up, keep_pin, recall, send_login_frame, Connecting, login_failure,
  pin_of,
}

module _ {J : Type 0} (env : Env J) (p : Pipe) (fails : ℕ) (dek : Option J) where
  -- The subprocess has not been used, no PIN has been counted as wrong, and key material that was
  -- in memory is what it was.
  pub record Untouched (c : Client J) : Type 0 where
    pub pipe : c.crypto ≡ p
    pub count : c.pin_fail_count ≡ fails
    pub kept : (d : J) → dek ≡ some d → c.encrypted_dek ≡ some d

  -- A change of other members.
  pub elsewhere :
      (c d : Client J)
      → Untouched c
      → d.crypto ≡ c.crypto
      → d.pin_fail_count ≡ c.pin_fail_count
      → d.encrypted_dek ≡ c.encrypted_dek
      → Untouched d
  elsewhere c d h e f g = record {
    pipe = e ∙ h.pipe;
    count = f ∙ h.count;
    kept = λ j was. g ∙ h.kept j was;
  }

  finished-Holds {ℓ} :
      {A : Type ℓ} (r : Result A) (c d : Client J)
      → Untouched c
      → d.crypto ≡ c.crypto
      → d.pin_fail_count ≡ c.pin_fail_count
      → d.encrypted_dek ≡ c.encrypted_dek
      → Holds Untouched (r, d)
  finished-Holds (ok a) c d h e f g = elsewhere c d h e f g
  finished-Holds (err x) c d h e f g = elsewhere c d h e f g

  on_store-Holds :
      (change : MessageStore → MessageStore) (c : Client J)
      → Untouched c
      → Holds Untouched (on_store change c)
  unfolding on_store change_store
  on_store-Holds change c h = step c.store
    where
      step : (o : Option MessageStore) → Holds Untouched (change_store change o c)
      step none = h
      step (some s) = elsewhere c _ h refl refl refl

  from_store-Holds :
      (ask : MessageStore → Option Bytes × MessageStore) (c : Client J)
      → Untouched c
      → Holds Untouched (from_store ask c)
  unfolding from_store ask_store
  from_store-Holds ask c h = step c.store
    where
      step : (o : Option MessageStore) → Holds Untouched (ask_store ask o c)
      step none = h
      step (some s) = elsewhere c _ h refl refl refl

  on_connection-Holds :
      (text : Bytes) (c : Client J) → Untouched c → Holds Untouched (on_connection text c)
  unfolding on_connection send_over
  on_connection-Holds text c h = step c.connection
    where
      step : (o : Option Session) → Holds Untouched (send_over text o c)
      step none = h
      step (some s) = finished-Holds (send_text s.connected text s.channel).0 c _ h refl refl refl

  lift-Holds {ℓ} :
      {A : Type ℓ} (r : Result A) (c : Client J) → Untouched c → Holds Untouched (lift r c)
  lift-Holds r c h = finished-Holds r c c h refl refl refl

  bring_up-Holds :
      (host : Bytes) (connect : Connecting env) (c : Client J)
      → Untouched c
      → Holds Untouched (bring_up env host connect c)
  unfolding bring_up keep_pin
  bring_up-Holds host connect c h =
      bind-Holds Untouched _ _ (from_store-Holds (λ s. (load_server_cert host s, s)) c h)
        λ stored c1 h1.
          let c2 : Client J = record c1 {
            server_cert_pin = pin_of env c1.server_cert_pin stored;
          } in
          bind-Holds Untouched _ _
            (lift-Holds (connect c2.server_cert_pin) c2 (elsewhere c1 c2 h1 refl refl refl))
            λ link c3 h3.
              let c4 : Client J = record c3 { connection = some link.0 } in
              let h4 : Untouched c4 = elsewhere c3 c4 h3 refl refl refl in
              let c5 : Client J = record c4 { server_cert_pin = link.1 } in
              if-Holds Untouched (is_empty c4.server_cert_pin)
                (modify (λ d. record d { server_cert_pin = link.1 })
                  >> on_store (save_server_cert host link.1))
                (pure tt) c4
                (on_store-Holds (save_server_cert host link.1) c5
                  (elsewhere c4 c5 h4 refl refl refl))
                h4

  recall-kept :
      (c : Client J) (stored : Option Bytes) (o : Option J)
      → Untouched c
      → recall env c.encrypted_dek stored ≡ ok o
      → (d : J) → dek ≡ some d
      → o ≡ some d
  unfolding recall
  recall-kept c stored o h e d was =
      ok_injective (sym e ∙ ap (λ (k : Option J). recall env k stored) (h.kept d was))
    where
      ok_injective : {x y : Option J} → ◌≡◌ {A = Result (Option J)} (ok x) (ok y) → x ≡ y
      ok_injective q = ap (λ (r : Result (Option J)). elim r [ ok k ↦ k | err _ ↦ none ]) q

  remembered {ℓ} :
      {B : Type ℓ} (c : Client J) (stored : Option Bytes) (r : Result (Option J))
      (f : Option J → Exec (Client J) B)
      → Untouched c
      → recall env c.encrypted_dek stored ≡ r
      → ((o : Option J) → ((d : J) → dek ≡ some d → o ≡ some d) → Holds Untouched (f o c))
      → Holds Untouched (bind_result (r, c) f)
  remembered c stored (err e) f h same g = h
  remembered c stored (ok o) f h same g = g o (recall-kept c stored o h same)

  login_steps-Holds :
      (host : Bytes) (opened : Result MessageStore) (connect : Connecting env)
      (username auth_password key_pin : Bytes) (c : Client J)
      → Untouched c
      → Holds Untouched (login_steps env host opened connect username auth_password key_pin c)
  unfolding login_steps send_login_frame
  login_steps-Holds host opened connect username auth_password key_pin c h =
      bind-Holds Untouched _ _ (lift-Holds opened c h) λ store c1 h1.
        let c2 : Client J = record c1 { store = some store } in
        let h2 : Untouched c2 = elsewhere c1 c2 h1 refl refl refl in
        remembered c2 (load_dek username store) _ _ h2 refl λ o kept.
          let c3 : Client J = record c2 { encrypted_dek = o; pending_key_pin = key_pin } in
          let h3 : Untouched c3 = record { pipe = h2.pipe; count = h2.count; kept = kept } in
          bind-Holds Untouched _ _
            (lift-Holds (recall env c3.encrypted_state (load_encrypted_state username store)) c3 h3)
            λ state c4 h4.
              let c5 : Client J = record c4 { encrypted_state = state; current_user = username } in
              bind-Holds Untouched _ _
                (bring_up-Holds host connect c5 (elsewhere c4 c5 h4 refl refl refl))
                λ _ c6 h6. on_connection-Holds _ c6 h6

  failed-Holds :
      (e : Bytes) (c : Client J)
      → Untouched c
      → Holds Untouched (
          (on_app (push_status (login_failure env e)) >> modify λ d. record d { connection = none })
            c)
  unfolding on_app
  failed-Holds e c h = elsewhere c _ h refl refl refl

  to-Untouched : {A : Type 0} (r : Result A × Client J) → Holds Untouched r → Untouched r.1
  to-Untouched (ok a, d) h = h
  to-Untouched (err e, d) h = h

  do_login-Untouched :
      (host : Bytes) (opened : Result MessageStore) (connect : Connecting env)
      (username auth_password key_pin : Bytes) (c : Client J)
      → Untouched c
      → Untouched (do_login env host opened connect username auth_password key_pin c).1
  unfolding do_login
  do_login-Untouched host opened connect username auth_password key_pin c h = to-Untouched _ (
      try_catch-Holds Untouched _ _ c
        (login_steps-Holds host opened connect username auth_password key_pin c h) failed-Holds)

-- do_login never asks the crypto subprocess for anything and counts no PIN as wrong, whatever of it
-- fails.
pub do_login-secrets :
    {J : Type 0} (env : Env J) (host : Bytes) (opened : Result MessageStore)
    (connect : Connecting env) (username auth_password key_pin : Bytes) (c : Client J)
    → let after = (do_login env host opened connect username auth_password key_pin c).1 in
      (after.crypto ≡ c.crypto) × (after.pin_fail_count ≡ c.pin_fail_count)
do_login-secrets env host opened connect username auth_password key_pin c =
    let h =
      do_login-Untouched env c.crypto c.pin_fail_count c.encrypted_dek host opened connect username
        auth_password key_pin c (record { pipe = refl; count = refl; kept = λ d e. e }) in
    (h.pipe, h.count)

-- Where a DEK is in memory from an earlier attempt, do_login keeps it, also for a user of another
-- name, whose own stored DEK is then not used.
pub do_login-dek :
    {J : Type 0} (env : Env J) (host : Bytes) (opened : Result MessageStore)
    (connect : Connecting env) (username auth_password key_pin : Bytes) (c : Client J) (dek : J)
    → c.encrypted_dek ≡ some dek
    → (do_login env host opened connect username auth_password key_pin c).1.encrypted_dek ≡ some dek
do_login-dek env host opened connect username auth_password key_pin c dek present =
    let h =
      do_login-Untouched env c.crypto c.pin_fail_count c.encrypted_dek host opened connect username
        auth_password key_pin c (record { pipe = refl; count = refl; kept = λ d e. e }) in
    h.kept dek present
