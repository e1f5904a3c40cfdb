-- ===== src/Client/Outbound.antt =====
-- The actions of the user in client/src/client/Client.cpp: do_send, do_forward, do_edit, do_delete,
-- do_logout, and the ends of a session.
pub mod Ends
pub mod Pending
use epic_1bit2qbit.Prelude.{
  ℕ, ◌≡◌, Bool, true, false, not, ◌&&◌, ◌||◌, List, [], ◌∷◌, ◌++◌, Option, none, some, is_empty,
  if◌then◌else◌,
}
use epic_1bit2qbit.Prelude.Text.{Bytes, codes, includes}
use epic_1bit2qbit.Prelude.Result.{
  Result, ok, err, Exec, pure, throw, gets, modify, lift, ◌>>=◌, ◌>>◌,
}
use epic_1bit2qbit.Messaging.Message.{Message, MessageType, standard, edit, delete, forward}
use epic_1bit2qbit.Messaging.Conversation.{Conversation, get_message_mid}
use epic_1bit2qbit.Messaging.Conversation
use epic_1bit2qbit.Messaging.Store
use epic_1bit2qbit.Ui.App
use epic_1bit2qbit.Ui.App.{push_status, return_to_login, set_connected}
use epic_1bit2qbit.Client.Maps.{Map, lookup, assign, map_values}
use epic_1bit2qbit.Client.State.{
  Client, Session, on_app, on_store, on_connection, online, try_catch,
}
use epic_1bit2qbit.Client.Content.{content_to_message, storage_encrypt}
use epic_1bit2qbit.Client.Session.{
  Env, encrypt_and_send, encrypt_and_send_typed, send_ratchet_control,
}

module _ {J : Type 0} (env : Env J) where
  unfoldable pub has_session_in : Option Conversation → Bool
  has_session_in none = false
  has_session_in (some conv) = not (is_empty conv.ratchet_state)

  -- The peer has an entry with a ratchet state.
  unfoldable pub has_session : Bytes → Client J → Bool
  unfolding has_session_in lookup
  has_session peer c = has_session_in (lookup peer c.conversations)

  abbrev pub queued : Option (List Bytes) → List Bytes
  queued none = []
  queued (some texts) = texts

  -- pending_sends_[recipient].push_back(text), and the request for the key bundle.
  unfoldable pub queue_and_request : Bytes → Bytes → Exec (Client J) (Unit {0})
  unfolding lookup assign
  queue_and_request recipient text =
      modify (λ c. record c {
        pending_sends =
            assign recipient (queued (lookup recipient c.pending_sends) ++ text ∷ [])
              c.pending_sends;
      })
      >> on_connection (
          env.lib.dump (
            env.lib.object (
              (codes "type", env.lib.text (codes "request_key_bundle"))
              ∷ (codes "target_username", env.lib.text recipient)
              ∷ [])))

  unfoldable pub do_send : Bytes → Bytes → Exec (Client J) (Unit {0})
  unfolding has_session queue_and_request encrypt_and_send
  do_send recipient plaintext c =
      if not (online c)
      then on_app
          (push_status
            (codes "Not connected " ++ (0xe2 ∷ 0x80 ∷ 0x94 ∷ []) ++ codes " log in first."))
          c
      else try_catch
          (λ d.
            (if has_session recipient d
                then encrypt_and_send env recipient plaintext
                else queue_and_request recipient plaintext)
              d)
          (λ _. on_app (push_status (codes "Message could not be sent."))) c

  unfoldable pub do_forward : Bytes → Bytes → Exec (Client J) (Unit {0})
  unfolding has_session queue_and_request
  do_forward recipient body c =
      if not (online c)
      then on_app
          (push_status
            (codes "Not connected " ++ (0xe2 ∷ 0x80 ∷ 0x94 ∷ []) ++ codes " log in first."))
          c
      else try_catch
          (λ d.
            (if has_session recipient d
                then encrypt_and_send_typed env recipient body forward
                else queue_and_request recipient body)
              d)
          (λ _. on_app (push_status (codes "Message could not be forwarded."))) c

  -- The first conversation, in the order of the peers, that has a mid for the message.
  unfoldable pub find_target : ℕ → Map Conversation → Bytes × Bytes
  find_target id [] = ([], [])
  find_target id ((peer, conv) ∷ m) =
      let rest = find_target id m in
      if is_empty (get_message_mid id conv) then rest else (get_message_mid id conv, peer)

  -- Tell the other party, where there is a mid and a session.
  propagate : Bytes × Bytes → Bytes → MessageType → Exec (Client J) (Unit {0})
  unfolding has_session
  propagate (mid, peer) text type c =
      if is_empty mid || is_empty peer
      then (ok tt, c)
      else if has_session peer c
      then send_ratchet_control env peer (content_to_message env.lib env.codec text type mid) c
      else (ok tt, c)

  no_store : Option Store.MessageStore → Bool
  no_store none = true
  no_store (some s) = false

  unfoldable pub do_delete : ℕ → Exec (Client J) (Unit {0})
  unfolding find_target propagate no_store
  do_delete message_id c =
      if no_store c.store
      then (ok tt, c)
      else (let target = find_target message_id c.conversations in
            (on_store (Store.mark_message_deleted message_id)
              >> (modify (λ d. record d {
                conversations =
                    map_values (Conversation.mark_message_deleted message_id) d.conversations;
              })
                  >> (on_app (App.mark_message_deleted message_id) >> propagate target [] delete))))
          c

  unfoldable pub do_edit : ℕ → Bytes → Exec (Client J) (Unit {0})
  unfolding find_target propagate no_store
  do_edit message_id new_plaintext c =
      if no_store c.store
      then (ok tt, c)
      else (let target = find_target message_id c.conversations in
            (storage_encrypt env.lib env.codec new_plaintext >>= λ blob.
            (on_store (Store.update_message_body message_id blob)
              >> (modify (λ d. record d {
                conversations =
                    map_values (Conversation.update_message_body message_id new_plaintext)
                      d.conversations;
              })
                  >> (on_app (App.update_message_body message_id new_plaintext)
                      >> propagate target new_plaintext edit)))))
          c

-- ── The ends of a session ──

abbrev pub disconnect_text : Bytes → Bytes
disconnect_text reason =
    if includes (codes "4001") reason
    then codes "Incorrect password."
    else if includes (codes "4002") reason
    then codes "Already logged in from another device."
    else codes "Connection lost " ++ (0xe2 ∷ 0x80 ∷ 0x94 ∷ []) ++ codes " please log in again."

close_session : Option Session → Option Session
close_session none = none
close_session (some s) = some (record s { connected = false })

module _ {J : Type 0} where
  unfoldable pub do_logout : Client J → Client J
  do_logout c = record c {
    current_user = [];
    conversations = [];
    pending_sends = [];
    encrypted_dek = none;
    encrypted_state = none;
    server_cert_pin = [];
    store = none;
    pin_fail_count = 0;
    connection = none;
    app = return_to_login c.app;
  }

  -- It runs on the event loop; disconnect() calls no callback.
  unfoldable pub abort_login_session : Client J → Client J
  abort_login_session c = record c {
    current_user = [];
    conversations = [];
    pending_sends = [];
    encrypted_dek = none;
    encrypted_state = none;
    pending_key_pin = [];
    store = none;
    connection = none;
    abort_posted = false;
  }

  drop_session : Bytes → Client J → Client J
  unfolding close_session
  drop_session reason c = record c {
    connection = close_session c.connection;
    current_user = [];
    conversations = [];
    pending_sends = [];
    encrypted_dek = none;
    encrypted_state = none;
    store = none;
    pin_fail_count = 0;
    app = return_to_login (push_status (disconnect_text reason) (set_connected false c.app));
  }

  -- The callback for an unexpected drop, given to the connection by do_login.
  unfoldable pub on_disconnect : Bytes → Client J → Client J
  unfolding drop_session
  on_disconnect reason c =
      if c.quit
      then record c { app = set_connected false c.app; connection = close_session c.connection }
      else drop_session reason c
