-- ===== src/Client/Inbound.antt =====
-- What the client does with the server's frames, in client/src/client/Client.cpp.
pub mod Identity
pub mod Remote
pub mod Delivery
pub mod FirstUse
use epic_1bit2qbit.Prelude.{
  ℕ, ◌+◌, ◌-◌, ◌≡◌, Bool, true, false, not, ◌&&◌, ◌||◌, List, [], ◌∷◌, ◌++◌, Option, none, some,
  is_empty, ◌==◌, bytes_eq, if◌then◌else◌,
}
use epic_1bit2qbit.Prelude.Int.{ℤ, pos}
use epic_1bit2qbit.Prelude.Text.{Bytes, codes}
use epic_1bit2qbit.Prelude.Result.{
  Result, ok, err, Exec, pure, throw, gets, modify, lift, ◌>>=◌, ◌>>◌,
}
use epic_1bit2qbit.Messaging.Message.{Message, MessageType, standard, edit, delete, blank_message}
use epic_1bit2qbit.Messaging.Conversation.{
  Conversation, open_conversation, add_message, set_ratchet_state, set_associated_data,
}
use epic_1bit2qbit.Messaging.Conversation
use epic_1bit2qbit.Messaging.Store
use epic_1bit2qbit.Crypto.Json.{JsonLib}
use epic_1bit2qbit.Crypto.Call.{get_shared_secret_passive, decrypt_initial_message, decrypt_message}
use epic_1bit2qbit.Ui.App
use epic_1bit2qbit.Ui.App.{push_status, push_message}
use epic_1bit2qbit.Client.Maps.{Map, lookup, assign, erase}
use epic_1bit2qbit.Client.State.{
  Client, on_app, on_store, from_store, on_crypto, on_connection, read_clock, try_catch,
}
use epic_1bit2qbit.Client.Content.{
  ParsedContent, message_to_content, storage_encrypt, value_string, string_at,
}
use epic_1bit2qbit.Client.Session.{
  Env, or_new, conversation_of, change_conversation, as_value, to_json, keep_session,
  encrypt_and_send, start_session_and_send,
}
use epic_1bit2qbit.Client.Outbound.{has_session}

abbrev pub key_warning : Bytes → Bytes
key_warning sender =
    codes "WARNING: identity key for '"
    ++ sender
    ++ codes "' changed "
    ++ (0xe2 ∷ 0x80 ∷ 0x94 ∷ [])
    ++ codes " possible impersonation. Message dropped."

module _ {J : Type 0} (env : Env J) where
  publish : J → J → Exec (Client J) (Unit {0})
  publish bundle otpks = do
    identity_key ← lift (env.lib.at_key bundle (codes "identity_key"))
    signed_pre_key ← lift (env.lib.at_key bundle (codes "signed_pre_key"))
    signature ← lift (env.lib.at_key bundle (codes "signed_pre_key_sig"))
    on_connection (
        env.lib.dump (
          env.lib.object (
            (codes "type", env.lib.text (codes "publish_key_bundle"))
            ∷ (codes "identity_key", identity_key)
            ∷ (codes "signed_pre_key", signed_pre_key)
            ∷ (codes "signed_pre_key_sig", signature)
            ∷ (codes "one_time_pre_keys", otpks)
            ∷ [])))

  -- The server requires at least one one-time pre-key.
  unfoldable pub send_key_bundle : J → Exec (Client J) (Unit {0})
  unfolding publish
  send_key_bundle bundle = lift (env.lib.at_key bundle (codes "pre_keys")) >>= λ otpks.
      (if env.lib.is_vacant otpks then pure tt else publish bundle otpks)

  -- The bundle that a passive agreement refreshed, where there is one.
  republish : J → Exec (Client J) (Unit {0})
  unfolding send_key_bundle
  republish ss =
      if env.lib.contains ss (codes "bundle")
      then (lift (env.lib.at_key ss (codes "bundle")) >>= send_key_bundle)
      else pure tt

  -- The first message of a peer: passive X3DH, and its plaintext in base64.
  unfoldable pub accept_session : Bytes → Bytes → J → J → Exec (Client J) Bytes
  unfolding keep_session change_conversation republish
  accept_session sender peer_ik x3dh dr = do
    state ← gets (λ c. to_json env c.encrypted_state)
    ss ← on_crypto (get_shared_secret_passive env.lib state x3dh)
    next_state ← lift (env.lib.at_key ss (codes "encrypted_state"))
    _ ← modify (λ c. record c { encrypted_state = as_value env next_state })
    _ ← republish ss
    secret ← lift (string_at env.lib env.codec ss (codes "shared_secret"))
    ratchet_priv ← lift (string_at env.lib env.codec ss (codes "own_ratchet_priv"))
    ad ← lift (string_at env.lib env.codec ss (codes "associated_data"))
    dec ← on_crypto (decrypt_initial_message env.lib secret ratchet_priv dr ad)
    _ ← change_conversation env sender (set_associated_data ad)
    ratchet_state ← lift (env.lib.at_key dec (codes "ratchet_state"))
    _ ← keep_session env sender ad ratchet_state peer_ik
    lift (string_at env.lib env.codec dec (codes "plaintext"))

  -- A message of an established session.
  unfoldable pub ratchet_decrypt : Bytes → J → Exec (Client J) Bytes
  unfolding conversation_of change_conversation
  ratchet_decrypt sender dr = do
    conv ← conversation_of env sender
    rstate ← lift (env.lib.parse conv.ratchet_state)
    dec ← on_crypto (decrypt_message env.lib rstate dr conv.associated_data)
    next ← lift (env.lib.at_key dec (codes "ratchet_state"))
    _ ← change_conversation env sender (set_ratchet_state (env.lib.dump next))
    blob ← storage_encrypt env.lib env.codec (env.lib.dump next)
    _ ← on_store (Store.save_ratchet_state sender blob)
    lift (string_at env.lib env.codec dec (codes "plaintext"))

  -- The header of passive X3DH, where the envelope has one.
  unfoldable pub x3dh_of : J → Result (Option J)
  x3dh_of envelope =
      if env.lib.contains envelope (codes "x3dh")
      then elim (env.lib.at_key envelope (codes "x3dh")) [
        | err e ↦ err e
        | ok j ↦ if env.lib.is_null j then ok none else ok (some j)
      ]
      else ok none

  open_session : Bytes → J → J → Bytes → Exec (Client J) (Option Bytes)
  unfolding accept_session conversation_of
  open_session sender x3dh dr peer_ik = conversation_of env sender >>= λ conv.
      (if not (is_empty conv.pinned_ik_pub) && not (conv.pinned_ik_pub == peer_ik)
        then (on_app (push_status (key_warning sender)) >> pure none)
        else (accept_session sender peer_ik x3dh dr >>= λ text. pure (some text)))

  no_way : Bytes → Exec (Client J) (Option Bytes)
  no_way sender =
      on_app (
        push_status
          (codes "Dropped message from '" ++ sender ++ codes "': no session and no X3DH header."))
      >> pure none

  choose_session : Bytes → J → Option J → Exec (Client J) (Option Bytes)
  unfolding open_session no_way has_session ratchet_decrypt
  choose_session sender dr none c =
      (if has_session env sender c
          then (ratchet_decrypt sender dr >>= λ text. pure (some text))
          else no_way sender)
        c
  choose_session sender dr (some x3dh) c =
      (if has_session env sender c
          then (ratchet_decrypt sender dr >>= λ text. pure (some text))
          else (lift (value_string env.lib env.codec x3dh (codes "identity_key")) >>= λ peer_ik.
              open_session sender x3dh dr peer_ik))
        c

  -- The plaintext of a message, in base64; `none` where it has been dropped with a warning.
  unfoldable pub decrypt_from : Bytes → J → Option J → Exec (Client J) (Option Bytes)
  unfolding choose_session change_conversation
  decrypt_from sender dr x3dh =
      change_conversation env sender (λ conv. conv) >> choose_session sender dr x3dh

  remote_edit : Bytes → ParsedContent → Exec (Client J) (Unit {0})
  unfolding change_conversation
  remote_edit sender content = do
    blob ← storage_encrypt env.lib env.codec content.body
    _ ← on_store (Store.update_message_body_by_mid content.target_mid blob)
    _ ←
        change_conversation env sender
          (Conversation.update_message_body_by_mid content.target_mid content.body)
    on_app (App.update_message_body_by_mid content.target_mid content.body)

  remote_delete : Bytes → ParsedContent → Exec (Client J) (Unit {0})
  unfolding change_conversation
  remote_delete sender content = do
    _ ← on_store (Store.mark_message_deleted_by_mid content.target_mid)
    _ ← change_conversation env sender (Conversation.mark_message_deleted_by_mid content.target_mid)
    on_app (App.mark_message_deleted_by_mid content.target_mid)

  remote_message : Bytes → ParsedContent → Bytes → Bytes → Exec (Client J) (Unit {0})
  unfolding change_conversation add_message push_message
  remote_message sender content wire_ct mid = do
    user ← gets (λ c. c.current_user)
    now ← read_clock env.time
    let msg = record blank_message {
      peer = sender;
      sender = sender;
      recipient = user;
      type = content.type;
      timestamp_ms = pos now;
      body = content.body;
      wire_ciphertext = wire_ct;
      mid = mid;
    }
    blob ← storage_encrypt env.lib env.codec content.body
    id ← from_store (Store.save_message env.db (record msg { body = blob }))
    let shown = record msg { id = id }
    _ ← change_conversation env sender (add_message shown)
    on_app (push_message shown)

  unfoldable pub apply_content : Bytes → ParsedContent → Bytes → Bytes → Exec (Client J) (Unit {0})
  unfolding remote_edit remote_delete remote_message
  apply_content sender content wire_ct mid = elim content.type [
    | edit ↦ remote_edit sender content
    | delete ↦ remote_delete sender content
    | _ ↦ remote_message sender content wire_ct mid
  ]

  take_plaintext : J → Bytes → Option Bytes → Exec (Client J) (Unit {0})
  unfolding apply_content
  take_plaintext frame sender none = pure tt
  take_plaintext frame sender (some plaintext_b64) = do
    content ← message_to_content env.lib env.codec plaintext_b64
    wire_ct ← lift (value_string env.lib env.codec frame (codes "ciphertext"))
    mid ← lift (value_string env.lib env.codec frame (codes "mid"))
    apply_content sender content wire_ct mid

  receive : J → Bytes → Exec (Client J) (Unit {0})
  unfolding x3dh_of decrypt_from take_plaintext
  receive frame sender = do
    text ← lift (string_at env.lib env.codec frame (codes "ciphertext"))
    envelope ← lift (env.lib.parse text)
    dr ← lift (env.lib.at_key envelope (codes "dr"))
    x3dh ← lift (x3dh_of envelope)
    plaintext ← decrypt_from sender dr x3dh
    take_plaintext frame sender plaintext

  unfoldable pub on_deliver_message : J → Exec (Client J) (Unit {0})
  unfolding receive
  on_deliver_message frame =
      lift (value_string env.lib env.codec frame (codes "sender")) >>= λ sender.
      try_catch (receive frame sender) (λ e.
        on_app
          (push_status (codes "Failed to decrypt message from '" ++ sender ++ codes "': " ++ e)))

  -- The queued texts, in their order: the first makes the session where there is none.
  unfoldable pub send_queued : Bytes → J → List Bytes → Exec (Client J) (Unit {0})
  unfolding has_session encrypt_and_send start_session_and_send
  send_queued peer frame [] = pure tt
  send_queued peer frame (text ∷ texts) =
      (λ c.
        (if has_session env peer c
            then encrypt_and_send env peer text
            else start_session_and_send env peer frame text)
          c)
      >> send_queued peer frame texts

  with_pending : Bytes → J → Option (List Bytes) → Exec (Client J) (Unit {0})
  unfolding send_queued erase
  with_pending peer frame none = pure tt
  with_pending peer frame (some texts) =
      modify (λ c. record c { pending_sends = erase peer c.pending_sends })
      >> try_catch (send_queued peer frame texts) (λ e.
        on_app (push_status (codes "Failed to start session with '" ++ peer ++ codes "': " ++ e)))

  unfoldable pub on_key_bundle_response : J → Exec (Client J) (Unit {0})
  unfolding with_pending lookup
  on_key_bundle_response frame =
      lift (value_string env.lib env.codec frame (codes "username")) >>= λ peer.
      (λ c. with_pending peer frame (lookup peer c.pending_sends) c)
