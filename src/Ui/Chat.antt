-- ===== src/Ui/Chat.antt =====
-- The chat screen of client/src/ui/App.cpp: the field for a message and the keys, with the client's
-- callbacks set. `none` is the undefined behaviour of an index that is out of range.
pub mod Keys
pub mod Safe
pub mod Modes
use epic_1bit2qbit.Prelude.{
  ℕ, zero, suc, ◌+◌, ◌-◌, ◌≡◌, Bool, true, false, not, ◌&&◌, ◌||◌, List, [], ◌∷◌, ◌++◌, Option,
  none, some, length, get_elem?, leb, ltb, ◌==◌, nat_eq, bytes_eq, nat_beq, is_empty, if◌then◌else◌,
}
use epic_1bit2qbit.Prelude.Int.{ℤ}
use epic_1bit2qbit.Prelude.Text.{Bytes, codes}
use epic_1bit2qbit.Messaging.Message.{Message, is_editable}
use epic_1bit2qbit.Messaging.Conversation.{Conversation}
use epic_1bit2qbit.Ui.App.{
  App, Call, on_send, on_edit, on_forward, on_delete, on_logout, shell, add_call, push_status,
}
use epic_1bit2qbit.Ui.Url.{verify_command}

abbrev pub close_selection : App → App
close_selection a = record a { selected_msg = none; msg_options_open = false }

send_to : Option Conversation → App → Option App
send_to none a = none
send_to (some conv) a =
    some (record (add_call (on_send conv.peer a.compose_text) a) { compose_text = [] })

unfoldable pub do_send : App → Option App
unfolding send_to
do_send a =
    if is_empty a.compose_text
    then some a
    else if a.editing_msg
    then some (
        close_selection (record (add_call (on_edit a.editing_msg_id a.compose_text) a) {
          compose_text = [];
          editing_msg = false;
          editing_msg_id = 0;
        }))
    else if a.forwarding_msg
    then some (
        close_selection (record (add_call (on_forward a.compose_text a.forwarding_body) a) {
          compose_text = [];
          forwarding_msg = false;
          forwarding_body = [];
        }))
    else if is_empty a.conversations
    then some a
    else send_to (get_elem? a.conversations a.selected_conv) a

pub data Key : Type 0 where
  character : ℕ → Key
  enter escape arrow_up arrow_down : Key

abbrev pub leave_modes : App → App
leave_modes a = record a {
  compose_text = [];
  editing_msg = false;
  forwarding_msg = false;
  editing_msg_id = 0;
  forwarding_body = [];
}

-- The catch before the field for a message: whether the key is taken, and the window after it.
abbrev pub Handled : Type 0
Handled = Option (Bool × App)

select_last : Option Conversation → App → Handled
select_last none a = none
select_last (some conv) a =
    if is_empty conv.messages
    then some (true, a)
    else some (
      true,
      record a { selected_msg = some (length conv.messages - 1); msg_options_open = false },
    )

unfoldable pub taken : Option App → Handled
taken none = none
taken (some a) = some (true, a)

unfoldable pub compose_key : Key → App → Handled
unfolding do_send select_last taken
compose_key enter a = taken (do_send a)
compose_key escape a =
    if a.editing_msg || a.forwarding_msg then some (true, leave_modes a) else some (false, a)
compose_key arrow_up a =
    if is_empty a.compose_text
      && not a.editing_msg
      && not a.forwarding_msg
      && not (is_empty a.conversations)
    then select_last (get_elem? a.conversations a.selected_conv) a
    else some (false, a)
compose_key arrow_down a = some (false, a)
compose_key (character c) a = some (false, a)

-- The keys of the options menu, for the message selected.
abbrev pub is_sent : Message → App → Bool
is_sent sel a = not (sel.recipient == a.local_username)

abbrev pub close_options : App → App
close_options a = record a { msg_options_open = false }

edit_option : ℤ → Message → App → App
unfolding push_status
edit_option now sel a =
    if is_sent sel a && is_editable sel.timestamp_ms now
    then record a {
      compose_text = sel.body;
      editing_msg = true;
      editing_msg_id = sel.id;
      msg_options_open = false;
    }
    else if is_sent sel a
    then push_status (codes "Edit window has closed for this message.") a
    else a

delete_option : ℤ → Message → App → App
unfolding push_status
delete_option now sel a = close_options (
    if is_sent sel a
    then (if is_editable sel.timestamp_ms now
        then add_call (on_delete sel.id false) a
        else push_status (codes "Delete window has closed for this message.") a)
    else a)

verify_option : Message → App → App
unfolding push_status verify_command
verify_option sel a = close_options (
    if is_empty sel.mid
    then push_status
        (codes "Cannot verify: message ID unavailable (message predates this feature).") a
    else if not (is_empty sel.wire_ciphertext)
    then add_call (shell (verify_command sel.mid sel.wire_ciphertext)) a
    else push_status (codes "Cannot verify: no envelope stored for this message.") a)

abbrev pub letter : ℕ → ℕ → Bool
letter c lower = c == lower || c == lower - 32

-- e, d, f and v, in either case
unfoldable pub option_key : ℤ → ℕ → Message → App → Bool × App
unfolding edit_option delete_option verify_option
option_key now c sel a =
    if letter c 101
    then (true, edit_option now sel a)
    else if letter c 100
    then (true, delete_option now sel a)
    else if letter c 102
    then (
      true,
      record a {
        forwarding_body = sel.body;
        forwarding_msg = true;
        compose_text = [];
        msg_options_open = false;
      },
    )
    else if letter c 118
    then (true, verify_option sel a)
    else (false, a)

option_menu : ℤ → ℕ → List Message → Key → App → Handled
unfolding option_key
option_menu now i msgs key a =
    if not a.msg_options_open then some (false, a) else elim (get_elem? msgs i) [
      | none ↦ some (false, a)
      | some sel ↦ elim key [ character c ↦ some (option_key now c sel a) | _ ↦ some (false, a) ]
    ]

cancel : App → App
cancel a = close_selection (leave_modes a)

-- The keys that move the selection, outside the modes; the others go on.
selected_key : ℤ → ℕ → List Message → Key → App → Handled
unfolding option_menu cancel
selected_key now i msgs escape a = some (true, cancel a)
selected_key now i msgs (character c) a = option_menu now i msgs (character c) a
selected_key now i msgs arrow_up a =
    if not a.editing_msg && not a.forwarding_msg
    then some (true, record a { selected_msg = some (i - 1); msg_options_open = false })
    else option_menu now i msgs arrow_up a
selected_key now i msgs arrow_down a =
    if not a.editing_msg && not a.forwarding_msg
    then some (
      true,
      record a {
        selected_msg = if leb (length msgs - 1) i then none else some (suc i);
        msg_options_open = false;
      },
    )
    else option_menu now i msgs arrow_down a
selected_key now i msgs enter a =
    if not a.editing_msg && not a.forwarding_msg
    then some (true, record a { msg_options_open = not a.msg_options_open })
    else option_menu now i msgs enter a

with_selection : ℤ → Key → Option Conversation → App → Handled
unfolding selected_key
with_selection now key none a = none
with_selection now key (some conv) a =
    if is_empty conv.messages then some (false, a) else elim a.selected_msg [
      | none ↦ some (false, a)
      | some i ↦ selected_key now i conv.messages key a
    ]

-- The catch around the whole chat area; it comes before that of the field.
unfoldable pub chat_key : ℤ → Key → App → Handled
unfolding with_selection
chat_key now key a =
    if is_empty a.conversations
    then some (false, a)
    else with_selection now key (get_elem? a.conversations a.selected_conv) a

unfoldable pub logout_btn : App → App
logout_btn a = add_call on_logout a
