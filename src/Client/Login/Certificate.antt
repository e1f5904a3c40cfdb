-- ===== src/Client/Login/Certificate.antt =====
-- A server's certificate that has changed across a restart, in do_login of Client.cpp.
use epic_1bit2qbit.Prelude.{
  ◌≡◌, ◌≢◌, refl, false, [], ◌∷◌, ◌++◌, Option, none, some, is_empty, ◌==◌, bytes_eq, bytes_beq_iff,
  Bool-cases, inl, inr, nat_eq,
}
use epic_1bit2qbit.Prelude.Text.{Bytes, codes, includes, find, starts_with}
use epic_1bit2qbit.Prelude.Result.{ok}
use epic_1bit2qbit.Messaging.Store.{MessageStore, load_dek, load_encrypted_state, load_server_cert}
use epic_1bit2qbit.Connection.Tls.{to_hex}
use epic_1bit2qbit.Connection.Tls.Pin.{pin_mismatch}
use epic_1bit2qbit.Connection.Connect.{Attempt}
use epic_1bit2qbit.Connection.Connect.Accepted.{IsNegotiated, connect_changed}
use epic_1bit2qbit.Ui.App.{push_status}
use epic_1bit2qbit.Client.State.{Client, from_store, ask_store, on_app, try_catch, handled}
use epic_1bit2qbit.Client.Session.{Env, as_value}
use epic_1bit2qbit.Client.Login.{do_login, login_steps, bring_up, recall, connecting, login_failure}

abbrev pub changed_text : Bytes
changed_text =
    codes "Server certificate has changed "
    ++ (0xe2 ∷ 0x80 ∷ 0x94 ∷ [])
    ++ codes " contact your administrator."

module _ {J : Type 0} (env : Env J) {C : Type 0} (x509_digest : C → Option Bytes)
    (sha1 encode_block : Bytes → Bytes) where
  pin_mismatch-login_failure :
      (host : Bytes) → login_failure env (pin_mismatch x509_digest host) ≡ changed_text
  unfolding includes find starts_with
  pin_mismatch-login_failure host = refl

  -- After a restart, with nothing in memory: where the server's verified certificate, which is read
  -- and digested, is not the one that was pinned for the host in an earlier run, do_login of a user
  -- whose stored keys can be read leaves the client without a connection and with the old pin, the
  -- user's store as it was opened, and the message that the certificate has changed.
  pub do_login-changed_certificate :
      (host username password pin : Bytes) (a : Attempt C) (s : MessageStore) (c : Client J)
      (cert : C) (digest pinned dek_text state_text : Bytes) (dek state : J)
      → a.tcp ≡ ok tt
      → IsNegotiated x509_digest a.negotiation
      → a.negotiation.peer.verify_result ≡ 0
      → a.negotiation.peer.certificate ≡ some cert
      → x509_digest cert ≡ some digest
      → load_server_cert host s ≡ some pinned
      → is_empty pinned ≡ false
      → to_hex digest ≢ pinned
      → load_dek username s ≡ some dek_text
      → env.lib.parse dek_text ≡ ok dek
      → load_encrypted_state username s ≡ some state_text
      → env.lib.parse state_text ≡ ok state
      → c.encrypted_dek ≡ none
      → c.encrypted_state ≡ none
      → c.server_cert_pin ≡ []
      → do_login env host
          (ok s)
          (connecting env x509_digest sha1 encode_block 443 a host)
          username
          password
          pin
          c
        ≡ (
          ok tt,
          record c {
            store = some s;
            encrypted_dek = as_value env dek;
            pending_key_pin = pin;
            encrypted_state = as_value env state;
            current_user = username;
            server_cert_pin = pinned;
            connection = none;
            app = push_status changed_text c.app;
          },
        )
  unfolding do_login login_steps bring_up recall from_store ask_store on_app try_catch handled
      connecting
  do_login-changed_certificate host username password pin a s c cert digest pinned dek_text
        state_text dek state tcp steps verified sent taken stored set differs has_dek dek_is
        has_state state_is no_dek no_state no_pin =
      let refused =
        connect_changed x509_digest sha1 encode_block a host pinned cert digest tcp steps verified
          sent taken set (ne_to_beq differs) in
      let text = pin_mismatch-login_failure host in
      rw (no_dek, no_state, no_pin, has_dek, dek_is, has_state, state_is, stored, refused, text)
        refl
    where
      ne_to_beq : to_hex digest ≢ pinned → (to_hex digest == pinned) ≡ false
      ne_to_beq ne = elim (Bool-cases (to_hex digest == pinned)) [
        | inl same ↦ absurd (ne ((bytes_beq_iff (to_hex digest) pinned).0 same))
        | inr other ↦ other
      ]
