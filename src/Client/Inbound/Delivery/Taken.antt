-- ===== src/Client/Inbound/Delivery/Taken.antt =====
-- What the client keeps of a new message that it has decrypted, in client/src/client/Client.cpp.
use mathlib.Core.Path.{subst}
use epic_1bit2qbit.Prelude.{ℕ, suc, ◌≡◌, refl, ◌∙◌, ◌⊎◌, inl, inr, some, bytes_eq, sym}
use epic_1bit2qbit.Prelude.Int.{pos}
use epic_1bit2qbit.Prelude.Text.{Bytes}
use epic_1bit2qbit.Prelude.Result.{ok}
use epic_1bit2qbit.Messaging.Message.{
  Message, MessageType, standard, forward, blank_message, to_int, of_int,
}
use epic_1bit2qbit.Messaging.Conversation.{Conversation, add_message}
use epic_1bit2qbit.Messaging.Store.{MessageStore, save_message}
use epic_1bit2qbit.Crypto.Pipe.{Pipe}
use epic_1bit2qbit.Crypto.Call.{encrypt_for_storage}
use epic_1bit2qbit.Ui.App.{push_message}
use epic_1bit2qbit.Client.Maps.{lookup, assign}
use epic_1bit2qbit.Client.State.{Client, on_app, from_store, ask_store, on_crypto, read_clock}
use epic_1bit2qbit.Client.Content.{ParsedContent, b64_encode, storage_encrypt}
use epic_1bit2qbit.Client.Session.{Env, change_conversation}
use epic_1bit2qbit.Client.Inbound.{apply_content, remote_message}

-- A type that brings a new message, of those that the client sends.
abbrev pub IsNew : MessageType → Type 0
IsNew type = (type ≡ standard) ⊎ (type ≡ forward)

pub IsNew-listed : (type : MessageType) → IsNew type → of_int (to_int type) ≡ type
unfolding to_int of_int
IsNew-listed type (inl e) = rw e refl
IsNew-listed type (inr e) = rw e refl

abbrev pub brought : MessageType → Bytes → Bytes → ParsedContent
brought type body target_mid = record { type = type; body = body; target_mid = target_mid }

-- What stands for a type that brings a new message, at such a type.
at_new :
    (P : MessageType → Type 0) → P standard → P forward → (type : MessageType) → IsNew type → P type
at_new P p q type (inl e) = subst P (sym e) p
at_new P p q type (inr e) = subst P (sym e) q

module _ {J : Type 0} (env : Env J) where
  -- The message that the receiver keeps, with the id of its row and the body as it is shown or stored.
  abbrev pub arrived : Bytes → MessageType → Bytes → Bytes → Client J → ℕ → Bytes → Message
  arrived sender type wire_ct mid c id body = record blank_message {
    id = id;
    peer = sender;
    sender = sender;
    recipient = c.current_user;
    type = type;
    timestamp_ms = pos (env.time c.readings);
    body = body;
    wire_ciphertext = wire_ct;
    mid = mid;
  }

  -- The client after a message has been taken in.
  unfoldable pub taken_in :
      Bytes
      → MessageType
      → Bytes
      → Bytes
      → Bytes
      → J
      → Conversation
      → MessageStore
      → Pipe
      → Client J
      → Client J
  taken_in sender type body wire_ct mid sealed conv s p c =
      let make = arrived sender type wire_ct mid c in
      let (id, s') = save_message env.db (make 0 (env.lib.dump sealed)) s in
      record c {
        readings = suc c.readings;
        crypto = p;
        store = some s';
        conversations = assign sender (add_message (make id body) conv) c.conversations;
        app = push_message (make id body) c.app;
      }

  remote_message-taken_in :
      (sender body target_mid wire_ct mid : Bytes) (type : MessageType) (sealed : J)
      (conv : Conversation) (s : MessageStore) (p : Pipe) (c : Client J)
      → lookup sender c.conversations ≡ some conv
      → c.store ≡ some s
      → encrypt_for_storage env.lib (b64_encode env.codec body) c.crypto ≡ (ok sealed, p)
      → remote_message env sender
          (record { type = type; body = body; target_mid = target_mid })
          wire_ct
          mid
          c
        ≡ (ok tt, taken_in sender type body wire_ct mid sealed conv s p c)
  unfolding taken_in remote_message read_clock storage_encrypt from_store ask_store on_crypto
      change_conversation on_app
  remote_message-taken_in sender body target_mid wire_ct mid type sealed conv s p c known stored
        seals =
      rw (seals, stored, known) refl

  apply_content-new :
      (sender body target_mid wire_ct mid : Bytes) (type : MessageType) (c : Client J)
      → IsNew type
      → apply_content env sender (brought type body target_mid) wire_ct mid c
        ≡ remote_message env sender (brought type body target_mid) wire_ct mid c
  unfolding apply_content
  apply_content-new sender body target_mid wire_ct mid type c new =
      at_new
        (λ t.
          apply_content env sender (brought t body target_mid) wire_ct mid c
          ≡ remote_message env sender (brought t body target_mid) wire_ct mid c)
        refl refl type new

  pub apply_content-taken_in :
      (sender body target_mid wire_ct mid : Bytes) (type : MessageType) (sealed : J)
      (conv : Conversation) (s : MessageStore) (p : Pipe) (c : Client J)
      → IsNew type
      → lookup sender c.conversations ≡ some conv
      → c.store ≡ some s
      → encrypt_for_storage env.lib (b64_encode env.codec body) c.crypto ≡ (ok sealed, p)
      → apply_content env sender (brought type body target_mid) wire_ct mid c
        ≡ (ok tt, taken_in sender type body wire_ct mid sealed conv s p c)
  apply_content-taken_in sender body target_mid wire_ct mid type sealed conv s p c new known stored
        seals =
      apply_content-new sender body target_mid wire_ct mid type c new
      ∙ remote_message-taken_in sender body target_mid wire_ct mid type sealed conv s p c known
          stored seals
