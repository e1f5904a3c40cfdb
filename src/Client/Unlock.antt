-- ===== src/Client/Unlock.antt =====
-- The server's confirmation of the password, in client/src/client/Client.cpp: the PIN, the lockout and
-- the loading of the user's conversations.
pub mod Lockout
use epic_1bit2qbit.Prelude.{
  ℕ, suc, ◌+◌, ◌-◌, ◌*◌, ◌%◌, ◌^◌, ◌≡◌, Bool, true, false, not, ◌&&◌, ◌||◌, List, [], ◌∷◌, ◌++◌,
  Option, none, some, is_empty, ltb, leb, ◌==◌, bytes_eq, nat_eq, if◌then◌else◌,
}
use epic_1bit2qbit.Prelude.Int.{ℤ, pos, negsuc, leb_ℤ, pos_part}
use epic_1bit2qbit.Prelude.Text.{Bytes, codes, to_string, includes}
use epic_1bit2qbit.Prelude.Result.{
  Result, ok, err, Exec, pure, throw, throw_if, gets, modify, lift, ◌>>=◌, ◌>>◌,
}
use epic_1bit2qbit.Messaging.Message.{Message}
use epic_1bit2qbit.Messaging.Conversation.{
  Conversation, open_conversation, add_message, set_ratchet_state, set_associated_data,
  set_pinned_ik_pub,
}
use epic_1bit2qbit.Messaging.Store.{
  MessageStore, list_peers, load_conversation, load_dek, load_encrypted_state, load_server_cert,
  save_dek, save_encrypted_state, save_server_cert,
}
use epic_1bit2qbit.Crypto.Json.{JsonLib}
use epic_1bit2qbit.Crypto.Call.{unlock_dek, get_bundle, create_dek, create_state}
use epic_1bit2qbit.Ui.App
use epic_1bit2qbit.Ui.App.{push_status, set_conversations, set_connected, advance_to_chat}
use epic_1bit2qbit.Ui.Login.{start_lockout}
use epic_1bit2qbit.Client.Maps.{Map, assign}
use epic_1bit2qbit.Client.State.{
  Client, Session, on_app, on_store, from_store, on_crypto, on_connection, try_catch,
}
use epic_1bit2qbit.Client.Content.{storage_decrypt, value_string}
use epic_1bit2qbit.Client.Session.{Env, as_value, to_json}
use epic_1bit2qbit.Client.Inbound.{send_key_bundle}

-- ── Wrong PINs ──

-- An unsigned 32-bit value as an int.
abbrev pub to_int32 : ℕ → ℤ
to_int32 n = if ltb n (2 ^ 31) then pos n else negsuc (2 ^ 32 - n - 1)

-- std::min(5 * (1 << (lockout_num - 1)), 300) with lockout_num = fails - 2, on 32-bit ints that wrap
-- around and shift counts taken modulo 32: the C++ standard leaves both undefined.
unfoldable pub lockout_delay : ℕ → ℤ
lockout_delay fails =
    let delay = to_int32 (5 * 2 ^ ((fails - 3) % 32) % 2 ^ 32) in
    if leb_ℤ delay (pos 300) then delay else pos 300

module _ {J : Type 0} (env : Env J) where
  abbrev pub post_abort : Exec (Client J) (Unit {0})
  post_abort = modify λ c. record c { abort_posted = true }

  pin_rejected_at : ℕ → Exec (Client J) (Unit {0})
  pin_rejected_at fails =
      (if ltb fails 3
        then on_app (
            push_status (
              codes "Incorrect PIN "
              ++ (0xe2 ∷ 0x80 ∷ 0x94 ∷ [])
              ++ codes " "
              ++ to_string (3 - fails)
              ++ codes " attempt(s) remaining before lockout."))
        else on_app (start_lockout (pos_part (lockout_delay fails))))
      >> post_abort

  -- A wrong PIN. start_lockout with a negative number ends at once, as with 0.
  unfoldable pub pin_rejected : Exec (Client J) (Unit {0})
  unfolding pin_rejected_at
  pin_rejected c =
      pin_rejected_at (suc c.pin_fail_count) (record c { pin_fail_count = suc c.pin_fail_count })

  -- ── Loading ──

  decrypt_messages : List Message → Conversation → Exec (Client J) Conversation
  unfolding add_message
  decrypt_messages [] conv = pure conv
  decrypt_messages (m ∷ ms) conv = storage_decrypt env.lib env.codec m.body >>= λ body.
      decrypt_messages ms (add_message (record m { body = body }) conv)

  decrypt_conversation : Bytes → Conversation → Exec (Client J) Conversation
  unfolding decrypt_messages
  decrypt_conversation peer raw = do
    ratchet_state ← storage_decrypt env.lib env.codec raw.ratchet_state
    ad ← storage_decrypt env.lib env.codec raw.associated_data
    decrypt_messages raw.messages (
        set_pinned_ik_pub raw.pinned_ik_pub
          (set_associated_data ad (set_ratchet_state ratchet_state (open_conversation peer))))

  load_peer : Bytes → Option Conversation → Exec (Client J) (List Conversation)
  unfolding decrypt_conversation assign
  load_peer peer none = pure []
  load_peer peer (some raw) = do
    conv ← decrypt_conversation peer raw
    _ ← modify (λ c. record c { conversations = assign peer conv c.conversations })
    pure (conv ∷ [])

  load_peers : MessageStore → List Bytes → Exec (Client J) (List Conversation)
  unfolding load_peer load_conversation
  load_peers s [] = pure []
  load_peers s (peer ∷ peers) = do
    conv ← load_peer peer (load_conversation env.db peer s)
    convs ← load_peers s peers
    pure (conv ++ convs)

  show_conversations : List Conversation → Exec (Client J) (Unit {0})
  unfolding set_conversations
  show_conversations convs = if is_empty convs then pure tt else on_app (set_conversations convs)

  load_from : Option MessageStore → Exec (Client J) (Unit {0})
  unfolding load_peers show_conversations list_peers
  load_from none = pure tt
  load_from (some s) = load_peers s (list_peers env.db s) >>= show_conversations

  unfoldable pub load_conversations : Exec (Client J) (Unit {0})
  unfolding load_from
  load_conversations c = load_from c.store c

  publish_state : Option J → Exec (Client J) (Unit {0})
  unfolding send_key_bundle
  publish_state none = pure tt
  publish_state (some state) = do
    result ← on_crypto (get_bundle env.lib state)
    bundle ← lift (env.lib.at_key result (codes "bundle"))
    next_state ← lift (env.lib.at_key result (codes "encrypted_state"))
    _ ← modify (λ c. record c { encrypted_state = as_value env next_state })
    user ← gets (λ c. c.current_user)
    _ ← on_store (save_encrypted_state user (env.lib.dump next_state))
    send_key_bundle env bundle

  unfoldable pub publish_key_bundle : Exec (Client J) (Unit {0})
  unfolding publish_state
  publish_key_bundle c = publish_state c.encrypted_state c

  -- ── The server's confirmation of the password ──

  pin_accepted : Exec (Client J) (Unit {0})
  unfolding load_conversations publish_key_bundle set_connected advance_to_chat push_status
  pin_accepted = do
    _ ← modify (λ c. record c { pin_fail_count = 0 })
    _ ← load_conversations
    _ ← publish_key_bundle
    _ ← on_app (set_connected true)
    user ← gets (λ c. c.current_user)
    _ ← on_app (advance_to_chat user)
    on_app (
        push_status (
          codes "Logged in as '"
          ++ user
          ++ codes "' "
          ++ (0xe2 ∷ 0x80 ∷ 0x94 ∷ [])
          ++ codes " session open."))

  no_key_material : Exec (Client J) (Unit {0})
  unfolding push_status
  no_key_material c =
      (post_abort
          >> on_app (
              push_status (
                codes "No local key material for '"
                ++ c.current_user
                ++ codes "'. Register on this device first.")))
        c

  -- The unlocking of the DEK: whether the PIN was right. The PIN is forgotten either way.
  try_pin : J → Exec (Client J) Bool
  try_pin dek c =
      (try_catch (on_crypto (unlock_dek env.lib c.pending_key_pin c.current_user dek) >> pure true)
            (λ _. pure false)
          >>= λ pin_ok. (modify (λ d. record d { pending_key_pin = [] }) >> pure pin_ok))
        c

  unlock : Option J → Exec (Client J) (Unit {0})
  unfolding no_key_material try_pin pin_accepted pin_rejected
  unlock none = modify (λ c. record c { pending_key_pin = [] }) >> no_key_material
  unlock (some dek) = try_pin dek >>= λ pin_ok. (if pin_ok then pin_accepted else pin_rejected)

  unfoldable pub login_confirmed : Bytes → Exec (Client J) (Unit {0})
  unfolding unlock
  login_confirmed username c =
      (if username == c.current_user then unlock c.encrypted_dek else pure tt) c
