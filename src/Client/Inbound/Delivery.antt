-- ===== src/Client/Inbound/Delivery.antt =====
-- A chat message from its frame at the sender to the receiver's window, in client/src/client/Client.cpp, over an
-- established session.
pub mod Frame
pub mod Ratchet
pub mod Taken
use mathlib.Core.Path.{subst}
use epic_1bit2qbit.Prelude.{
  ℕ, suc, ◌≡◌, refl, ap, ◌∙◌, ◌⊎◌, inl, inr, true, false, not, List, [], ◌∷◌, ◌++◌, Option, none,
  some, is_empty, ◌==◌, bytes_eq, bytes_beq, if◌then◌else◌, sym,
}
use epic_1bit2qbit.Prelude.Int.{pos}
use epic_1bit2qbit.Prelude.Text.{Bytes, codes}
use epic_1bit2qbit.Prelude.Result.{Result, ok, err, bind_result}
use epic_1bit2qbit.Messaging.Message.{
  Message, MessageType, standard, forward, blank_message, to_int, of_int,
}
use epic_1bit2qbit.Messaging.Conversation.{Conversation, add_message, set_ratchet_state}
use epic_1bit2qbit.Messaging.Store
use epic_1bit2qbit.Messaging.Store.{MessageStore, save_message, save_ratchet_state}
use epic_1bit2qbit.Crypto.Json.{JsonLib}
use epic_1bit2qbit.Crypto.Json.Laws.{IsJson, field_of, is_some}
use epic_1bit2qbit.Crypto.Pipe.{Pipe}
use epic_1bit2qbit.Crypto.Call.{decrypt_message, encrypt_for_storage}
use epic_1bit2qbit.Ui.App.{push_message}
use epic_1bit2qbit.Client.Maps.{lookup, assign, lookup-assign}
use epic_1bit2qbit.Connection.Channel.{Channel}
use epic_1bit2qbit.Connection.Frame.{send_text}
use epic_1bit2qbit.Client.State
use epic_1bit2qbit.Client.State.{
  Client, on_app, on_store, change_store, from_store, ask_store, on_crypto, read_clock, try_catch,
  handled,
}
use epic_1bit2qbit.Client.Content.{
  ParsedContent, b64_encode, content_to_message, message_to_content, storage_encrypt, value_string,
  string_at,
}
use epic_1bit2qbit.Client.Content.Codec.{IsBase64}
use epic_1bit2qbit.Client.Content.RoundTrip.{
  value_string-text, string_at-text, message_to_content-content_to_message,
}
use epic_1bit2qbit.Client.Session.{
  ratchet_encrypt, record_sent, encrypt_and_send_typed, Env, conversation_of, conv_or_throw,
  change_conversation, chat_frame, envelope, to_json,
}
use epic_1bit2qbit.Client.Outbound.{has_session, has_session_in}
use epic_1bit2qbit.Client.Inbound.Delivery.Frame.{
  delivered, relay, relay-chat_frame, mid_of, with_sent, encrypt_and_send_typed-sent,
}
use epic_1bit2qbit.Client.Inbound.Delivery.Ratchet.{
  Decrypts, decrypted, entered, no_x3dh, decrypt_from_established,
}
use epic_1bit2qbit.Client.Inbound.Delivery.Taken.{
  IsNew, IsNew-listed, arrived, taken_in, apply_content-taken_in,
}
use epic_1bit2qbit.Client.Inbound.{
  on_deliver_message, receive, take_plaintext, apply_content, remote_message, decrypt_from,
  choose_session, ratchet_decrypt, x3dh_of,
}

module _ {J : Type 0} (env : Env J) where
  -- The same libraries, with another clock.
  abbrev pub at_clock : (ℕ → ℕ) → Env J
  at_clock clock = record env { time = clock }

  -- The message as the receiver shows it.
  abbrev pub shown_as :
      Bytes → MessageType → Bytes → Bytes → J → J → J → MessageStore → Client J → Message
  shown_as sender type body mid dr sealed sealed_body s c =
      let make = arrived env sender type (env.lib.dump (envelope env dr none)) mid c in
      make
        (save_message env.db (make 0 (env.lib.dump sealed_body))
          (save_ratchet_state sender (env.lib.dump sealed) s)).0
        body

  -- The client after a delivery.
  pub after_delivery :
      Bytes
      → MessageType
      → Bytes
      → Bytes
      → J
      → J
      → J
      → J
      → Conversation
      → MessageStore
      → Pipe
      → Client J
      → Client J
  after_delivery sender type body mid dr next sealed sealed_body conv s p c =
      taken_in env sender type body (env.lib.dump (envelope env dr none)) mid sealed_body
        (set_ratchet_state (env.lib.dump next) conv)
        (save_ratchet_state sender (env.lib.dump sealed) s) p
        (decrypted env sender conv next sealed s p (entered env sender conv c))

module _ {J : Type 0} (env : Env J) (json : IsJson env.lib) (base64 : IsBase64 env.codec) where
  receive-after_delivery :
      (sender body mid : Bytes) (type : MessageType) (dr next sealed sealed_body : J)
      (conv : Conversation) (s : MessageStore) (p p' p'' : Pipe) (c : Client J)
      → IsNew type
      → Decrypts env dr conv
          (content_to_message env.lib env.codec body type [])
          next
          sealed
          c.crypto
          p
          p'
      → encrypt_for_storage env.lib (b64_encode env.codec body) p' ≡ (ok sealed_body, p'')
      → lookup sender c.conversations ≡ some conv
      → c.store ≡ some s
      → receive env
          (delivered env sender
            (env.lib.text (env.lib.dump (envelope env dr none)))
            (env.lib.text mid))
          sender
          c
        ≡ (ok tt, after_delivery env sender type body mid dr next sealed sealed_body conv s p'' c)
  unfolding receive take_plaintext after_delivery delivered decrypted entered taken_in bytes_beq
  receive-after_delivery sender body mid type dr next sealed sealed_body conv s p p' p'' c new h
        seals known stored =
      let c1 = decrypted env sender conv next sealed s p' (entered env sender conv c) in
      let kept = set_ratchet_state (env.lib.dump next) conv in
      let wire_ct = env.lib.dump (envelope env dr none) in
      rw
        (
          string_at-text env.lib env.codec json base64 _ (codes "ciphertext") wire_ct refl,
          json.parse-dump (envelope env dr none),
          json.at_key-object ((codes "dr", dr) ∷ (codes "x3dh", env.lib.null) ∷ []) (codes "dr") dr
              refl,
          no_x3dh env json base64 dr,
          decrypt_from_established env json base64 sender dr next sealed _ conv s p p' c h known
              stored,
          message_to_content-content_to_message env.lib env.codec json base64 body [] type c1
              (IsNew-listed type new),
          value_string-text env.lib env.codec json base64 _ (codes "ciphertext") wire_ct refl,
          value_string-text env.lib env.codec json base64 _ (codes "mid") mid refl,
        )
        (apply_content-taken_in env sender body [] wire_ct mid type sealed_body kept
          (save_ratchet_state sender (env.lib.dump sealed) s) p'' c1 new
          (lookup-assign sender kept (assign sender conv c.conversations)) refl seals)

  on_deliver_message-after_delivery :
      (sender body mid : Bytes) (type : MessageType) (dr next sealed sealed_body : J)
      (conv : Conversation) (s : MessageStore) (p p' p'' : Pipe) (c : Client J)
      → IsNew type
      → Decrypts env dr conv
          (content_to_message env.lib env.codec body type [])
          next
          sealed
          c.crypto
          p
          p'
      → encrypt_for_storage env.lib (b64_encode env.codec body) p' ≡ (ok sealed_body, p'')
      → lookup sender c.conversations ≡ some conv
      → c.store ≡ some s
      → on_deliver_message env
          (delivered env sender
            (env.lib.text (env.lib.dump (envelope env dr none)))
            (env.lib.text mid))
          c
        ≡ (ok tt, after_delivery env sender type body mid dr next sealed sealed_body conv s p'' c)
  unfolding on_deliver_message delivered try_catch handled bytes_beq
  on_deliver_message-after_delivery sender body mid type dr next sealed sealed_body conv s p p' p''
        c new h seals known stored =
      rw
        (
          value_string-text env.lib env.codec json base64 _ (codes "sender") sender refl,
          receive-after_delivery sender body mid type dr next sealed sealed_body conv s p p' p'' c
              new h seals known stored,
        )
        refl

  -- A message of type Standard or Forward that one client sends with encrypt_and_send_typed over an
  -- established session arrives whole at the other. Where the sender's ratchet answers with the
  -- ciphertext `dr` and its connection takes the frame, the frame on the connection, passed on by the
  -- server, makes the recipient's on_deliver_message end without an error; its window and its conversation then
  -- both show the message with the sender's body, type and mid, and the new ratchet state is kept. The
  -- recipient has an established session and a store, its subprocess opens `dr` to the content
  -- that was encrypted and seals what is stored, and its clock may differ from the sender's.
  pub on_deliver_message-encrypt_and_send_typed :
      (clock : ℕ → ℕ) (sender recipient body : Bytes) (type : MessageType)
      (dr next sealed sealed_body : J) (session : State.Session) (ch : Channel) (a a' : Client J)
      (conv : Conversation) (s : MessageStore) (p p' p'' : Pipe) (c : Client J)
      → IsNew type
      → ratchet_encrypt
          (at_clock env clock)
          recipient
          (content_to_message env.lib env.codec body type [])
          a
        ≡ (ok dr, a')
      → a'.connection ≡ some session
      → send_text session.connected
          (env.lib.dump
            (chat_frame env recipient dr none (mid_of (at_clock env clock) a' recipient)))
          session.channel
        ≡ (ok tt, ch)
      → Decrypts env dr conv
          (content_to_message env.lib env.codec body type [])
          next
          sealed
          c.crypto
          p
          p'
      → encrypt_for_storage env.lib (b64_encode env.codec body) p' ≡ (ok sealed_body, p'')
      → lookup sender c.conversations ≡ some conv
      → c.store ≡ some s
      → let mid = mid_of (at_clock env clock) a' recipient in
        let frame =
          delivered env sender
            (env.lib.text (env.lib.dump (envelope env dr none)))
            (env.lib.text mid) in
        let shown = shown_as env sender type body mid dr sealed sealed_body s c in
        let c' = after_delivery env sender type body mid dr next sealed sealed_body conv s p'' c in
        (encrypt_and_send_typed (at_clock env clock) recipient body type a
          ≡ record_sent
              (at_clock env clock)
              recipient
              body
              type
              (env.lib.dump (envelope env dr none))
              mid
              (with_sent (at_clock env clock) session ch a'))
        × (relay env sender (env.lib.dump (chat_frame env recipient dr none mid)) ≡ ok frame)
        × (on_deliver_message env frame c ≡ (ok tt, c'))
        × (c'.app ≡ push_message shown c.app)
        × (lookup sender c'.conversations
            ≡ some (add_message shown (set_ratchet_state (env.lib.dump next) conv)))
  unfolding after_delivery taken_in decrypted entered
  on_deliver_message-encrypt_and_send_typed clock sender recipient body type dr next sealed
        sealed_body session ch a a' conv s p p' p'' c new enc online sent h seals known stored =
      let mid = mid_of (at_clock env clock) a' recipient in
      let arrives =
        on_deliver_message-after_delivery sender body mid type dr next sealed sealed_body conv s p
          p' p'' c new h seals known stored in
      (
        encrypt_and_send_typed-sent (at_clock env clock) recipient body type dr session ch a a' enc
            online sent,
        relay-chat_frame env json base64 sender recipient mid dr none,
        arrives,
        refl,
        lookup-assign sender
            (add_message (shown_as env sender type body mid dr sealed sealed_body s c)
              (set_ratchet_state (env.lib.dump next) conv))
            _,
      )
