-- ===== src/Messaging/Message.antt =====
-- client/src/messaging/Message.h.
pub mod Window
mod Examples
use epic_1bit2qbit.Prelude.{ℕ, Bool, false, Option, none, [], ◌&&◌, ◌*◌}
use epic_1bit2qbit.Prelude.Int.{ℤ, pos, negsuc, leb_ℤ, ltb_ℤ, ◌-ℤ◌}
use epic_1bit2qbit.Prelude.Text.{Bytes}

-- EDIT_WINDOW_MS
abbrev pub edit_window_ms : ℕ
edit_window_ms = 10 * 60 * 1000

-- An enum class over int holds any int: what has no enumerator is `unlisted`, by its value.
pub data MessageType : Type 0 where
  standard edit delete forward read_receipt delivery_receipt tamper_warning reply : MessageType
  unlisted : ℤ → MessageType

-- static_cast<int>(type)
unfoldable pub to_int : MessageType → ℤ
to_int standard = pos 0
to_int edit = pos 1
to_int delete = pos 2
to_int forward = pos 3
to_int read_receipt = pos 4
to_int delivery_receipt = pos 5
to_int tamper_warning = pos 6
to_int reply = pos 7
to_int (unlisted n) = n

-- static_cast<MessageType>(n)
unfoldable pub of_int : ℤ → MessageType
of_int (pos ℕ.zero) = standard
of_int (pos (ℕ.suc ℕ.zero)) = edit
of_int (pos (ℕ.suc (ℕ.suc ℕ.zero))) = delete
of_int (pos (ℕ.suc (ℕ.suc (ℕ.suc ℕ.zero)))) = forward
of_int (pos (ℕ.suc (ℕ.suc (ℕ.suc (ℕ.suc ℕ.zero))))) = read_receipt
of_int (pos (ℕ.suc (ℕ.suc (ℕ.suc (ℕ.suc (ℕ.suc ℕ.zero)))))) = delivery_receipt
of_int (pos (ℕ.suc (ℕ.suc (ℕ.suc (ℕ.suc (ℕ.suc (ℕ.suc ℕ.zero))))))) = tamper_warning
of_int (pos (ℕ.suc (ℕ.suc (ℕ.suc (ℕ.suc (ℕ.suc (ℕ.suc (ℕ.suc ℕ.zero)))))))) = reply
of_int n = unlisted n

-- The view of a message that is stored and shown.
pub record Message : Type 0 where
  pub id : ℕ
  pub peer : Bytes
  pub sender : Bytes
  pub recipient : Bytes
  pub timestamp_ms : ℤ
  pub type : MessageType
  pub body : Bytes
  pub edited : Bool
  pub deleted : Bool
  pub target_id : Option ℕ
  pub target_mid : Bytes
  pub wire_ciphertext : Bytes
  pub mid : Bytes

-- `Message m;`
abbrev pub blank_message : Message
blank_message = record {
  id = 0;
  peer = [];
  sender = [];
  recipient = [];
  timestamp_ms = pos 0;
  type = standard;
  body = [];
  edited = false;
  deleted = false;
  target_id = none;
  target_mid = [];
  wire_ciphertext = [];
  mid = [];
}

unfoldable pub is_editable : ℤ → ℤ → Bool
unfolding ◌-ℤ◌
is_editable message_timestamp_ms now_ms =
    leb_ℤ message_timestamp_ms now_ms && ltb_ℤ (now_ms -ℤ message_timestamp_ms) (pos edit_window_ms)
