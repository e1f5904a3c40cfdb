-- ===== src/Client/Login.antt =====
-- do_login of client/src/client/Client.cpp. The opening of the user's store and the attempt of
-- connect() are inputs.
pub mod Secrets
pub mod Certificate
use epic_1bit2qbit.Prelude.{
  ℕ, suc, ◌+◌, ◌-◌, ◌*◌, ◌%◌, ◌^◌, ◌≡◌, Bool, true, false, not, ◌&&◌, ◌||◌, List, [], ◌∷◌, ◌++◌,
  Option, none, some, is_empty, ltb, leb, ◌==◌, bytes_eq, nat_eq, if◌then◌else◌,
}
use epic_1bit2qbit.Prelude.Int.{ℤ, pos, negsuc, leb_ℤ, pos_part}
use epic_1bit2qbit.Prelude.Text.{Bytes, codes, to_string, includes}
use epic_1bit2qbit.Prelude.Result.{
  Result, ok, err, Exec, pure, throw, throw_if, gets, modify, lift, ◌>>=◌, ◌>>◌,
}
use epic_1bit2qbit.Messaging.Message.{Message}
use epic_1bit2qbit.Messaging.Conversation.{
  Conversation, open_conversation, add_message, set_ratchet_state, set_associated_data,
  set_pinned_ik_pub,
}
use epic_1bit2qbit.Messaging.Store.{
  MessageStore, list_peers, load_conversation, load_dek, load_encrypted_state, load_server_cert,
  save_dek, save_encrypted_state, save_server_cert,
}
use epic_1bit2qbit.Crypto.Json.{JsonLib}
use epic_1bit2qbit.Crypto.Call.{unlock_dek, get_bundle, create_dek, create_state}
use epic_1bit2qbit.Connection.Channel.{Channel}
use epic_1bit2qbit.Connection.Connect.{Attempt, connect}
use epic_1bit2qbit.Ui.App
use epic_1bit2qbit.Ui.App.{push_status, set_conversations, set_connected, advance_to_chat}
use epic_1bit2qbit.Ui.Login.{start_lockout}
use epic_1bit2qbit.Client.Maps.{Map, assign}
use epic_1bit2qbit.Client.State.{
  Client, Session, on_app, on_store, from_store, on_crypto, on_connection, try_catch,
}
use epic_1bit2qbit.Client.Content.{storage_decrypt, value_string}
use epic_1bit2qbit.Client.Session.{Env, as_value, to_json}
use epic_1bit2qbit.Client.Inbound.{send_key_bundle}

module _ {J : Type 0} (env : Env J) where
  -- The stored blob of a user, where there is none in memory yet.
  recall : Option J → Option Bytes → Result (Option J)
  recall (some j) stored = ok (some j)
  recall none none = ok none
  recall none (some text) = elim (env.lib.parse text) [ err e ↦ err e | ok j ↦ ok (as_value env j) ]

  unfoldable pub send_login_frame : Bytes → Bytes → Exec (Client J) (Unit {0})
  send_login_frame username password = on_connection (
      env.lib.dump (
        env.lib.object (
          (codes "username", env.lib.text username)
          ∷ (codes "password", env.lib.text password)
          ∷ [])))

  abbrev pub login_failure : Bytes → Bytes
  login_failure raw =
      if includes (codes "pin mismatch") raw
      then codes "Server certificate has changed "
        ++ (0xe2 ∷ 0x80 ∷ 0x94 ∷ [])
        ++ codes " contact your administrator."
      else if includes (codes "certificate verify") raw || includes (codes "cert verify") raw
      then codes "Could not verify server certificate."
      else if includes (codes "SSL") raw
      then codes "Could not establish a secure connection."
      else if includes (codes "refused") raw || includes (codes "ws_handshake") raw
      then codes "Could not reach server."
      else codes "Could not connect to server."

  abbrev pub pin_of : Bytes → Option Bytes → Bytes
  pin_of [] none = []
  pin_of [] (some stored) = stored
  pin_of (b ∷ bs) stored = b ∷ bs

  -- What connect() with a pin does: the session and the server's fingerprint, or an exception.
  abbrev pub Connecting : Type 0
  Connecting = Bytes → Result (Session × Bytes)

  -- connection_->connect(pin) of a Connection to the host, over TLS on port 443.
  abbrev session_of : Result (Channel × Bytes) → Result (Session × Bytes)
  session_of (err e) = err e
  session_of (ok (ch, fp)) = ok (record { connected = true; channel = ch }, fp)

  unfoldable pub connecting :
      {C : Type 0}
      → (C → Option Bytes)
      → (Bytes → Bytes)
      → (Bytes → Bytes)
      → ℕ
      → Attempt C
      → Bytes
      → Connecting
  connecting x509_digest sha1 encode_block port a host pin =
      session_of (connect x509_digest sha1 encode_block (port == 443) a host pin)

  keep_pin : Bytes → Bytes → Exec (Client J) (Unit {0})
  keep_pin host fp c =
      (if is_empty c.server_cert_pin
          then (modify (λ d. record d { server_cert_pin = fp })
              >> on_store (save_server_cert host fp))
          else pure tt)
        c

  bring_up : Bytes → Connecting → Exec (Client J) (Unit {0})
  unfolding keep_pin
  bring_up host connect = do
    stored ← from_store (λ s. (load_server_cert host s, s))
    _ ← modify (λ c. record c { server_cert_pin = pin_of c.server_cert_pin stored })
    pin ← gets (λ c. c.server_cert_pin)
    link ← lift (connect pin)
    _ ← modify (λ c. record c { connection = some link.0 })
    keep_pin host link.1

  login_steps :
      Bytes → Result MessageStore → Connecting → Bytes → Bytes → Bytes → Exec (Client J) (Unit {0})
  unfolding bring_up recall send_login_frame
  login_steps host opened connect username auth_password key_pin = do
    store ← lift opened
    _ ← modify (λ c. record c { store = some store })
    dek ← gets (λ c. recall c.encrypted_dek (load_dek username store))
    dek_value ← lift dek
    _ ← modify (λ c. record c { encrypted_dek = dek_value; pending_key_pin = key_pin })
    state ← gets (λ c. recall c.encrypted_state (load_encrypted_state username store))
    state_value ← lift state
    _ ← modify (λ c. record c { encrypted_state = state_value; current_user = username })
    _ ← bring_up host connect
    send_login_frame username auth_password

  unfoldable pub do_login :
      Bytes → Result MessageStore → Connecting → Bytes → Bytes → Bytes → Exec (Client J) (Unit {0})
  unfolding login_steps push_status
  do_login host opened connect username auth_password key_pin =
      try_catch (login_steps host opened connect username auth_password key_pin) (λ e.
        (on_app (push_status (login_failure e)) >> modify (λ c. record c { connection = none })))
