-- ===== src/Client/Inbound/Delivery/Ratchet.antt =====
-- The decryption of a message of an established session, in client/src/client/Client.cpp.
use epic_1bit2qbit.Prelude.{
  ◌≡◌, refl, false, List, [], ◌∷◌, none, some, is_empty, bytes_eq, bytes_beq,
}
use epic_1bit2qbit.Prelude.Text.{Bytes, codes}
use epic_1bit2qbit.Prelude.Result.{ok}
use epic_1bit2qbit.Messaging.Conversation.{Conversation, set_ratchet_state}
use epic_1bit2qbit.Messaging.Store.{MessageStore, save_ratchet_state}
use epic_1bit2qbit.Crypto.Json.Laws.{IsJson, field_of}
use epic_1bit2qbit.Crypto.Pipe.{Pipe}
use epic_1bit2qbit.Crypto.Call.{decrypt_message, encrypt_for_storage}
use epic_1bit2qbit.Client.Maps.{lookup, assign, lookup-assign}
use epic_1bit2qbit.Client.State.{Client, on_store, change_store, on_crypto}
use epic_1bit2qbit.Client.Content.{b64_encode, storage_encrypt}
use epic_1bit2qbit.Client.Content.Codec.{IsBase64}
use epic_1bit2qbit.Client.Content.RoundTrip.{string_at-text}
use epic_1bit2qbit.Client.Session.{
  Env, conversation_of, conv_or_throw, change_conversation, envelope,
}
use epic_1bit2qbit.Client.Outbound.{has_session, has_session_in}
use epic_1bit2qbit.Client.Inbound.{decrypt_from, choose_session, ratchet_decrypt, x3dh_of}

module _ {J : Type 0} (env : Env J) where
  -- What a subprocess has to answer for a message of an established session: the decryption with the
  -- next ratchet state and the content, and the sealing of that state for the store.
  pub record Decrypts (dr : J) (conv : Conversation) (content : Bytes) (next sealed : J)
      (p p' p'' : Pipe) : Type 0 where
    pub rstate : J
    pub dec : List (Bytes × J)
    pub live : is_empty conv.ratchet_state ≡ false
    pub state : env.lib.parse conv.ratchet_state ≡ ok rstate
    pub opens :
        decrypt_message env.lib rstate dr conv.associated_data p ≡ (ok (env.lib.object dec), p')
    pub has_next : field_of (codes "ratchet_state") dec ≡ some next
    pub has_content : field_of (codes "plaintext") dec ≡ some (env.lib.text content)
    pub seals :
        encrypt_for_storage env.lib (b64_encode env.codec (env.lib.dump next)) p' ≡ (ok sealed, p'')

  -- The client after the decryption.
  unfoldable pub decrypted :
      Bytes → Conversation → J → J → MessageStore → Pipe → Client J → Client J
  decrypted sender conv next sealed s p c = record c {
    conversations = assign sender (set_ratchet_state (env.lib.dump next) conv) c.conversations;
    crypto = p;
    store = some (save_ratchet_state sender (env.lib.dump sealed) s);
  }

  -- try_emplace of an entry that is there.
  unfoldable pub entered : Bytes → Conversation → Client J → Client J
  entered sender conv c = record c { conversations = assign sender conv c.conversations }

module _ {J : Type 0} (env : Env J) (json : IsJson env.lib) (base64 : IsBase64 env.codec) where
  pub no_x3dh : (dr : J) → x3dh_of env (envelope env dr none) ≡ ok none
  unfolding x3dh_of bytes_beq
  no_x3dh dr =
      rw
        (
          json.contains-object ((codes "dr", dr) ∷ (codes "x3dh", env.lib.null) ∷ [])
              (codes "x3dh"),
          json.at_key-object ((codes "dr", dr) ∷ (codes "x3dh", env.lib.null) ∷ []) (codes "x3dh")
              env.lib.null refl,
          json.is_null-null,
        )
        refl

  ratchet_decrypt_established :
      (sender : Bytes) (dr next sealed : J) (content : Bytes) (conv : Conversation)
      (s : MessageStore) (p' p'' : Pipe) (c : Client J)
      → Decrypts env dr conv content next sealed c.crypto p' p''
      → lookup sender c.conversations ≡ some conv
      → c.store ≡ some s
      → ratchet_decrypt env sender dr c
        ≡ (ok content, decrypted env sender conv next sealed s p'' c)
  unfolding decrypted ratchet_decrypt conversation_of conv_or_throw change_conversation on_crypto
      on_store change_store storage_encrypt
  ratchet_decrypt_established sender dr next sealed content conv s p' p'' c h known stored =
      rw
        (
          known,
          h.state,
          h.opens,
          json.at_key-object h.dec (codes "ratchet_state") next h.has_next,
          known,
          h.seals,
          stored,
          string_at-text env.lib env.codec json base64 h.dec (codes "plaintext") content
              h.has_content,
        )
        refl

  pub decrypt_from_established :
      (sender : Bytes) (dr next sealed : J) (content : Bytes) (conv : Conversation)
      (s : MessageStore) (p' p'' : Pipe) (c : Client J)
      → Decrypts env dr conv content next sealed c.crypto p' p''
      → lookup sender c.conversations ≡ some conv
      → c.store ≡ some s
      → decrypt_from env sender dr none c ≡ (
        ok (some content),
        decrypted env sender conv next sealed s p'' (entered env sender conv c),
      )
  unfolding decrypt_from choose_session change_conversation has_session has_session_in entered
  decrypt_from_established sender dr next sealed content conv s p' p'' c h known stored =
      let there = lookup-assign sender conv c.conversations in
      let step =
        ratchet_decrypt_established sender dr next sealed content conv s p' p''
          (entered env sender conv c) h there stored in
      rw (known, there, h.live, step) refl
