-- ===== src/Ui/App.antt =====
-- The state of the window and the updates that the client pushes into it, of
-- client/src/ui/App.cpp. An update that is posted to the event loop is modelled where the loop runs
-- it, in the order of the posts.
pub mod Aligned
use epic_1bit2qbit.Prelude.{
  ℕ, zero, suc, ◌+◌, ◌-◌, ◌≡◌, Bool, true, false, not, List, [], ◌∷◌, ◌++◌, map, Option, none, some,
  length, leb, ◌==◌, bytes_eq, nat_eq, if◌then◌else◌, take, drop,
}
use epic_1bit2qbit.Prelude.Text.{Bytes, codes}
use epic_1bit2qbit.Messaging.Message.{Message}
use epic_1bit2qbit.Messaging.Conversation.{Conversation, open_conversation}
use epic_1bit2qbit.Messaging.Conversation

-- A call of one of the AppCallbacks.
pub data Call : Type 0 where
  on_register : Bytes → Bytes → Bytes → Call
  on_login : Bytes → Bytes → Bytes → Call
  on_send : Bytes → Bytes → Call
  on_delete : ℕ → Bool → Call
  on_edit : ℕ → Bytes → Call
  on_forward : Bytes → Bytes → Call
  on_logout : Call
  -- the command given to std::system
  shell : Bytes → Call

pub record App : Type 0 where
  pub status_msg : Bytes
  pub active_screen : ℕ
  pub local_username : Bytes
  pub login_username : Bytes
  pub login_password : Bytes
  pub login_key_pin : Bytes
  pub connected : Bool
  pub lockout_active : Bool
  pub lockout_remaining : ℕ
  pub conversations : List Conversation
  pub conv_names : List Bytes
  pub selected_conv : ℕ
  pub compose_text : Bytes
  pub new_peer : Bytes
  -- `none` is -1
  pub selected_msg : Option ℕ
  pub msg_options_open : Bool
  pub editing_msg : Bool
  pub editing_msg_id : ℕ
  pub forwarding_msg : Bool
  pub forwarding_body : Bytes
  -- the callbacks called, the oldest first
  pub calls : List Call

abbrev pub new_app : App
new_app = record {
  status_msg = [];
  active_screen = 0;
  local_username = [];
  login_username = [];
  login_password = [];
  login_key_pin = [];
  connected = false;
  lockout_active = false;
  lockout_remaining = 0;
  conversations = [];
  conv_names = [];
  selected_conv = 0;
  compose_text = [];
  new_peer = [];
  selected_msg = none;
  msg_options_open = false;
  editing_msg = false;
  editing_msg_id = 0;
  forwarding_msg = false;
  forwarding_body = [];
  calls = [];
}

abbrev pub add_call : Call → App → App
add_call c a = record a { calls = a.calls ++ c ∷ [] }

unfoldable pub set_connected : Bool → App → App
set_connected connected a = record a { connected = connected }

unfoldable pub push_status : Bytes → App → App
push_status msg a = record a { status_msg = msg }

-- find_if by the peer: the position of the conversation.
unfoldable pub index_of : Bytes → List Conversation → Option ℕ
index_of peer [] = none
index_of peer (c ∷ cs) =
    if c.peer == peer
    then some 0
    else elim (index_of peer cs) [ none ↦ none | some i ↦ some (suc i) ]

unfoldable pub update_at : ℕ → (Conversation → Conversation) → List Conversation → List Conversation
update_at i change [] = []
update_at zero change (c ∷ cs) = change c ∷ cs
update_at (suc i) change (c ∷ cs) = c ∷ update_at i change cs

push_at : Message → Option ℕ → App → App
unfolding update_at
push_at msg none a = record a {
  conversations = a.conversations ++ Conversation.add_message msg (open_conversation msg.peer) ∷ [];
  conv_names = a.conv_names ++ msg.peer ∷ [];
}
push_at msg (some i) a = record a {
  conversations = update_at i (Conversation.add_message msg) a.conversations;
}

unfoldable pub push_message : Message → App → App
unfolding push_at
push_message msg a = push_at msg (index_of msg.peer a.conversations) a

unfoldable pub push_sent_message : Message → App → App
unfolding push_at
push_sent_message msg a = push_at msg (index_of msg.peer a.conversations) a

unfoldable pub update_message_body : ℕ → Bytes → App → App
update_message_body id new_body a = record a {
  conversations = map (Conversation.update_message_body id new_body) a.conversations;
}

unfoldable pub update_message_body_by_mid : Bytes → Bytes → App → App
update_message_body_by_mid mid new_body a = record a {
  conversations = map (Conversation.update_message_body_by_mid mid new_body) a.conversations;
}

unfoldable pub mark_message_deleted : ℕ → App → App
mark_message_deleted id a = record a {
  conversations = map (Conversation.mark_message_deleted id) a.conversations;
  selected_msg = none;
  msg_options_open = false;
}

unfoldable pub mark_message_deleted_by_mid : Bytes → App → App
mark_message_deleted_by_mid mid a = record a {
  conversations = map (Conversation.mark_message_deleted_by_mid mid) a.conversations;
}

unfoldable pub remove_message : ℕ → App → App
remove_message id a = record a {
  conversations = map (Conversation.remove_message id) a.conversations;
  selected_msg = none;
  msg_options_open = false;
}

unfoldable pub set_conversations : List Conversation → App → App
set_conversations convs a = record a {
  conversations = convs;
  conv_names = map (λ (c : Conversation). c.peer) convs;
  selected_conv = 0;
}

unfoldable pub advance_to_chat : Bytes → App → App
advance_to_chat username a = record a {
  local_username = username;
  login_password = [];
  login_key_pin = [];
  active_screen = 1;
}

unfoldable pub return_to_login : App → App
return_to_login a = record a {
  conversations = [];
  conv_names = [];
  selected_conv = 0;
  compose_text = [];
  new_peer = [];
  local_username = [];
  status_msg = [];
  active_screen = 0;
}

abbrev pub erase_at {ℓ} : {A : Type ℓ} → ℕ → List A → List A
erase_at i [] = []
erase_at zero (x ∷ xs) = xs
erase_at (suc i) (x ∷ xs) = x ∷ erase_at i xs

-- std::max(0, size - 1) where the selection is at or past the end.
abbrev pub clamp : ℕ → ℕ → ℕ
clamp selected size = if leb size selected then size - 1 else selected

remove_at : Option ℕ → App → App
remove_at none a = a
remove_at (some i) a =
    let convs = erase_at i a.conversations in
    record a {
      conversations = convs;
      conv_names = erase_at i a.conv_names;
      selected_conv = clamp a.selected_conv (length convs);
    }

unfoldable pub remove_conversation : Bytes → App → App
unfolding remove_at
remove_conversation peer a = remove_at (index_of peer a.conversations) a

select_or_add : Option ℕ → App → App
select_or_add none a = record a {
  conversations = a.conversations ++ open_conversation a.new_peer ∷ [];
  conv_names = a.conv_names ++ a.new_peer ∷ [];
  selected_conv = length (a.conversations ++ open_conversation a.new_peer ∷ []) - 1;
}
select_or_add (some i) a = record a { selected_conv = i }

-- The "+" button and Enter in the field for a new chat.
unfoldable pub add_conversation : App → App
unfolding select_or_add
add_conversation a =
    if a.new_peer == []
    then a
    else record (select_or_add (index_of a.new_peer a.conversations) a) { new_peer = [] }
