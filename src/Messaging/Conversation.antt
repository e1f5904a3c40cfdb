-- ===== src/Messaging/Conversation.antt =====
-- client/src/messaging/Conversation.h and Conversation.cpp.
use epic_1bit2qbit.Prelude.{
  ℕ, ◌≡◌, Bool, true, not, List, [], ◌∷◌, ◌++◌, ◌==◌, nat_eq, bytes_eq, if◌then◌else◌, keep,
}
use epic_1bit2qbit.Prelude.Text.{Bytes}
use epic_1bit2qbit.Messaging.Message.{Message}
pub mod Edits
mod Examples

pub record Conversation : Type 0 where
  pub peer : Bytes
  pub messages : List Message
  pub ratchet_state : Bytes
  pub associated_data : Bytes
  pub pinned_ik_pub : Bytes

-- Conversation{peer}
abbrev pub open_conversation : Bytes → Conversation
open_conversation peer = record {
  peer = peer;
  messages = [];
  ratchet_state = [];
  associated_data = [];
  pinned_ik_pub = [];
}

-- The body of the loops, `if (test(m)) { change m; return; }`: the first hit alone is changed.
unfoldable pub update_first : (Message → Bool) → (Message → Message) → List Message → List Message
update_first test change [] = []
update_first test change (m ∷ ms) =
    let rest = update_first test change ms in if test m then change m ∷ ms else m ∷ rest

abbrev pub has_id : ℕ → Message → Bool
has_id id m = m.id == id

abbrev pub has_mid : Bytes → Message → Bool
has_mid mid m = m.mid == mid

-- m.body = new_body; m.edited = true
abbrev pub edit_message : Bytes → Message → Message
edit_message new_body m = record m { body = new_body; edited = true }

-- m.deleted = true; m.body.clear()
abbrev pub delete_message : Message → Message
delete_message m = record m { deleted = true; body = [] }

unfoldable pub add_message : Message → Conversation → Conversation
add_message msg c = record c { messages = c.messages ++ msg ∷ [] }

unfoldable pub update_message_body : ℕ → Bytes → Conversation → Conversation
update_message_body id new_body c = record c {
  messages = update_first (has_id id) (edit_message new_body) c.messages;
}

unfoldable pub update_message_body_by_mid : Bytes → Bytes → Conversation → Conversation
update_message_body_by_mid mid new_body c = record c {
  messages = update_first (has_mid mid) (edit_message new_body) c.messages;
}

unfoldable pub mark_message_deleted : ℕ → Conversation → Conversation
mark_message_deleted id c = record c {
  messages = update_first (has_id id) delete_message c.messages;
}

unfoldable pub mark_message_deleted_by_mid : Bytes → Conversation → Conversation
mark_message_deleted_by_mid mid c = record c {
  messages = update_first (has_mid mid) delete_message c.messages;
}

-- erase(remove_if(...)): every message with the id goes.
unfoldable pub remove_message : ℕ → Conversation → Conversation
remove_message id c = record c { messages = keep (λ m. not (has_id id m)) c.messages }

mid_of : ℕ → List Message → Bytes
mid_of id [] = []
mid_of id (m ∷ ms) = if has_id id m then m.mid else mid_of id ms

unfoldable pub get_message_mid : ℕ → Conversation → Bytes
unfolding mid_of
get_message_mid id c = mid_of id c.messages

abbrev pub set_ratchet_state : Bytes → Conversation → Conversation
set_ratchet_state s c = record c { ratchet_state = s }

abbrev pub set_associated_data : Bytes → Conversation → Conversation
set_associated_data ad c = record c { associated_data = ad }

abbrev pub set_pinned_ik_pub : Bytes → Conversation → Conversation
set_pinned_ik_pub ik c = record c { pinned_ik_pub = ik }
