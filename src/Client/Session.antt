-- ===== src/Client/Session.antt =====
-- The crypto and session helpers of client/src/client/Client.cpp. A Conversation& is the entry of
-- conversations_ with its peer.
use epic_1bit2qbit.Prelude.{ℕ, [], ◌∷◌, Option, none, some, if◌then◌else◌}
use epic_1bit2qbit.Prelude.Int.{pos}
use epic_1bit2qbit.Prelude.Text.{Bytes, codes}
use epic_1bit2qbit.Prelude.Result.{Result, ok, err, Exec, pure, throw, gets, modify, lift, ◌>>=◌}
use epic_1bit2qbit.Messaging.Message.{MessageType, standard, blank_message}
use epic_1bit2qbit.Messaging.Conversation.{
  Conversation, open_conversation, add_message, set_ratchet_state, set_associated_data,
  set_pinned_ik_pub,
}
use epic_1bit2qbit.Messaging.Sqlite.{Sqlite}
use epic_1bit2qbit.Messaging.Store.{
  save_message, save_ratchet_state, save_associated_data, save_encrypted_state, pin_identity_key,
}
use epic_1bit2qbit.Crypto.Json.{JsonLib}
use epic_1bit2qbit.Crypto.Call.{encrypt_message, encrypt_initial_message, get_shared_secret_active}
use epic_1bit2qbit.Ui.App.{push_sent_message}
use epic_1bit2qbit.Client.Maps.{lookup, assign}
use epic_1bit2qbit.Client.State.{
  Client, on_app, on_store, from_store, on_crypto, on_connection, read_clock, null_pointer,
}
use epic_1bit2qbit.Client.Content.{
  Base64, content_to_message, storage_encrypt, new_mid, value_string, string_at,
}

-- What the client takes from outside: nlohmann::json, OpenSSL's base64, SQLite, and the readings of
-- the clock in milliseconds.
pub record Env (J : Type 0) : Type 0 where
  pub lib : JsonLib J
  pub codec : Base64
  pub db : Sqlite
  pub time : ℕ → ℕ

module _ {J : Type 0} (env : Env J) where
  unfoldable pub conv_or_throw : Option Conversation → Exec (Client J) Conversation
  conv_or_throw none = throw null_pointer
  conv_or_throw (some conv) = pure conv

  unfoldable pub conversation_of : Bytes → Exec (Client J) Conversation
  unfolding conv_or_throw lookup
  conversation_of peer c = conv_or_throw (lookup peer c.conversations) c

  abbrev pub or_new : Bytes → Option Conversation → Conversation
  or_new peer none = open_conversation peer
  or_new peer (some conv) = conv

  -- A change of the entry of a peer, which try_emplace makes where it is missing.
  unfoldable pub change_conversation :
      Bytes → (Conversation → Conversation) → Exec (Client J) (Unit {0})
  unfolding lookup assign
  change_conversation peer change = modify λ c. record c {
    conversations =
        assign peer (change (or_new peer (lookup peer c.conversations))) c.conversations;
  }

  -- A JSON value, which may be null.
  abbrev pub as_value : J → Option J
  as_value j = if env.lib.is_null j then none else some j

  abbrev pub to_json : Option J → J
  to_json none = env.lib.null
  to_json (some j) = j

  abbrev pub envelope : J → Option J → J
  envelope dr_message x3dh_header =
      env.lib.object ((codes "dr", dr_message) ∷ (codes "x3dh", to_json x3dh_header) ∷ [])

  abbrev pub chat_frame : Bytes → J → Option J → Bytes → J
  chat_frame recipient dr_message x3dh_header mid = env.lib.object (
      (codes "type", env.lib.text (codes "send_message"))
      ∷ (codes "recipient", env.lib.text recipient)
      ∷ (codes "ciphertext", env.lib.text (env.lib.dump (envelope dr_message x3dh_header)))
      ∷ (codes "mid", env.lib.text mid)
      ∷ [])

  unfoldable pub send_chat_frame : Bytes → J → Option J → Bytes → Exec (Client J) (Unit {0})
  send_chat_frame recipient dr_message x3dh_header mid =
      on_connection (env.lib.dump (chat_frame recipient dr_message x3dh_header mid))

  -- The Message that is stored, and then kept and shown with its plaintext.
  unfoldable pub record_sent :
      Bytes → Bytes → MessageType → Bytes → Bytes → Exec (Client J) (Unit {0})
  unfolding change_conversation add_message push_sent_message
  record_sent peer plaintext type wire_ct mid = do
    user ← gets (λ c. c.current_user)
    now ← read_clock env.time
    body ← storage_encrypt env.lib env.codec plaintext
    let sent_msg = record blank_message {
      peer = peer;
      sender = user;
      recipient = peer;
      timestamp_ms = pos now;
      type = type;
      wire_ciphertext = wire_ct;
      mid = mid;
      body = body;
    }
    id ← from_store (save_message env.db sent_msg)
    let shown = record sent_msg { id = id; body = plaintext }
    _ ← change_conversation peer (add_message shown)
    on_app (push_sent_message shown)

  -- The ratchet step: the new state is kept and stored before anything is sent.
  unfoldable pub ratchet_encrypt : Bytes → Bytes → Exec (Client J) J
  unfolding conversation_of change_conversation
  ratchet_encrypt peer content_b64 = do
    conv ← conversation_of peer
    rstate ← lift (env.lib.parse conv.ratchet_state)
    enc ← on_crypto (encrypt_message env.lib rstate content_b64 conv.associated_data)
    next ← lift (env.lib.at_key enc (codes "ratchet_state"))
    _ ← change_conversation peer (set_ratchet_state (env.lib.dump next))
    blob ← storage_encrypt env.lib env.codec (env.lib.dump next)
    _ ← on_store (save_ratchet_state peer blob)
    lift (env.lib.at_key enc (codes "encrypted_message"))

  unfoldable pub encrypt_and_send_typed : Bytes → Bytes → MessageType → Exec (Client J) (Unit {0})
  unfolding ratchet_encrypt send_chat_frame record_sent
  encrypt_and_send_typed peer plaintext type = do
    message ← ratchet_encrypt peer (content_to_message env.lib env.codec plaintext type [])
    mid ← new_mid env.lib env.codec env.time peer
    _ ← send_chat_frame peer message none mid
    record_sent peer plaintext type (env.lib.dump (envelope message none)) mid

  -- encrypt_and_send is the same text with MessageType::Standard.
  unfoldable pub encrypt_and_send : Bytes → Bytes → Exec (Client J) (Unit {0})
  unfolding encrypt_and_send_typed
  encrypt_and_send peer plaintext = encrypt_and_send_typed peer plaintext standard

  unfoldable pub send_ratchet_control : Bytes → Bytes → Exec (Client J) (Unit {0})
  unfolding ratchet_encrypt send_chat_frame
  send_ratchet_control peer content_b64 = do
    message ← ratchet_encrypt peer content_b64
    mid ← new_mid env.lib env.codec env.time peer
    send_chat_frame peer message none mid

  -- The one-time pre-key of the server's answer as a list, which is empty where it is absent or null.
  unfoldable pub one_time_keys : J → Result J
  one_time_keys bundle =
      if env.lib.contains bundle (codes "one_time_pre_key")
      then elim (env.lib.at_key bundle (codes "one_time_pre_key")) [
        | err e ↦ err e
        | ok key ↦
            if env.lib.is_null key then ok (env.lib.array []) else ok (env.lib.array (key ∷ []))
      ]
      else ok (env.lib.array [])

  -- What both ways of starting a session keep and store.
  unfoldable pub keep_session : Bytes → Bytes → J → Bytes → Exec (Client J) (Unit {0})
  unfolding change_conversation
  keep_session peer ad ratchet_state peer_ik = do
    _ ←
        change_conversation peer
          (λ conv. set_pinned_ik_pub peer_ik (set_ratchet_state (env.lib.dump ratchet_state) conv))
    _ ← on_store (pin_identity_key peer peer_ik)
    ad_blob ← storage_encrypt env.lib env.codec ad
    _ ← on_store (save_associated_data peer ad_blob)
    state_blob ← storage_encrypt env.lib env.codec (env.lib.dump ratchet_state)
    _ ← on_store (save_ratchet_state peer state_blob)
    user ← gets (λ c. c.current_user)
    state ← gets (λ c. to_json c.encrypted_state)
    on_store (save_encrypted_state user (env.lib.dump state))

  unfoldable pub start_session_and_send : Bytes → J → Bytes → Exec (Client J) (Unit {0})
  unfolding one_time_keys change_conversation keep_session send_chat_frame record_sent
  start_session_and_send peer bundle plaintext = do
    peer_ik ← lift (value_string env.lib env.codec bundle (codes "identity_key"))
    otpks ← lift (one_time_keys bundle)
    signed_pre_key ← lift (env.lib.at_key bundle (codes "signed_pre_key"))
    signature ← lift (env.lib.at_key bundle (codes "signed_pre_key_sig"))
    state ← gets (λ c. to_json c.encrypted_state)
    let bob_bundle = env.lib.object (
        (codes "identity_key", env.lib.text peer_ik)
        ∷ (codes "signed_pre_key", signed_pre_key)
        ∷ (codes "signed_pre_key_sig", signature)
        ∷ (codes "pre_keys", otpks)
        ∷ [])
    ss ← on_crypto (get_shared_secret_active env.lib state bob_bundle)
    next_state ← lift (env.lib.at_key ss (codes "encrypted_state"))
    _ ← modify (λ c. record c { encrypted_state = as_value next_state })
    secret ← lift (string_at env.lib env.codec ss (codes "shared_secret"))
    ratchet_pub ← lift (string_at env.lib env.codec ss (codes "bob_initial_ratchet_pub"))
    ad ← lift (string_at env.lib env.codec ss (codes "associated_data"))
    enc ← on_crypto (
        encrypt_initial_message env.lib secret ratchet_pub
          (content_to_message env.lib env.codec plaintext standard []) ad)
    _ ← change_conversation peer (set_associated_data ad)
    ratchet_state ← lift (env.lib.at_key enc (codes "ratchet_state"))
    _ ← keep_session peer ad ratchet_state peer_ik
    header ← lift (env.lib.at_key ss (codes "header"))
    message ← lift (env.lib.at_key enc (codes "encrypted_message"))
    mid ← new_mid env.lib env.codec env.time peer
    _ ← send_chat_frame peer message (some header) mid
    record_sent peer plaintext standard (env.lib.dump (envelope message (some header))) mid
