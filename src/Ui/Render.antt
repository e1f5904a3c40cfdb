-- ===== src/Ui/Render.antt =====
-- What the two screens of client/src/ui/App.cpp show: the texts with their styles, and the lines of
-- the messages. The layout around them is FTXUI's. `none` is the undefined behaviour of an index that
-- is out of range.
pub mod Shown
pub mod Bar
use epic_1bit2qbit.Prelude.{
  ℕ, suc, ◌/◌, ◌≡◌, Bool, true, false, not, ◌&&◌, ◌||◌, List, [], ◌∷◌, ◌++◌, Option, none, some,
  get_elem?, is_empty, ◌==◌, nat_eq, bytes_eq, if◌then◌else◌,
}
use epic_1bit2qbit.Prelude.Int.{ℤ, pos, negsuc, sub_ℕ}
use epic_1bit2qbit.Prelude.Text.{Bytes, codes}
use epic_1bit2qbit.Messaging.Message.{Message, MessageType, forward, is_editable}
use epic_1bit2qbit.Messaging.Conversation.{Conversation}
use epic_1bit2qbit.Ui.App.{App}
use epic_1bit2qbit.Ui.Chat.{is_sent}

pub data Style : Type 0 where
  plain dim bold bold_cyan cyan bold_red red blue white yellow : Style

pub record Text : Type 0 where
  pub style : Style
  pub shown : Bytes

abbrev pub text : Style → Bytes → Text
text style shown = record { style = style; shown = shown }

-- A line of the list of messages: inverted where it is selected, the last one in focus.
pub record Line : Type 0 where
  pub inverted : Bool
  pub focused : Bool
  pub pieces : List Text

pub record ChatScreen : Type 0 where
  pub header : List Text
  pub title : Bytes
  pub lines : List Line
  pub action_bar : Text
  pub compose_label : Text

-- ms / 1000, towards zero
abbrev pub seconds : ℤ → ℤ
seconds (pos n) = pos (n / 1000)
seconds (negsuc n) = sub_ℕ 0 (suc n / 1000)

-- m.type == MessageType::Forward
abbrev pub is_forward : MessageType → Bool
is_forward forward = true
is_forward _ = false

-- The sender, or, for a row of an old database, the recipient.
abbrev pub is_mine : Bytes → Message → Bool
is_mine username m =
    if is_empty m.sender then not (m.recipient == username) else m.sender == username

abbrev pub is_selected : ℕ → Option ℕ → Bool
is_selected i none = false
is_selected i (some j) = i == j

abbrev pub no_messages : List Line
no_messages =
    record { inverted = false; focused = false; pieces = text dim (codes "No messages yet.") ∷ [] }
    ∷ []

-- ── The bar ──

unfoldable pub options_hint : ℤ → Message → App → Bytes
options_hint now sel a =
    codes " Options:"
    ++ ((if is_sent sel a
          then (if is_editable sel.timestamp_ms now
              then codes "  [E]dit  [D]elete"
              else codes "  [E]dit(expired)  [D]elete(expired)")
          else [])
        ++ codes "  [F]orward  [V]erify  [Esc]=close")

abbrev pub navigation : Text
navigation = text dim (
    codes " [Enter]=options  ["
    ++ (0xe2 ∷ 0x86 ∷ 0x91 ∷ 0xe2 ∷ 0x86 ∷ 0x93 ∷ [])
    ++ codes "]=navigate  [Esc]=deselect")

selected_bar : ℤ → Option Message → App → Text
unfolding options_hint
selected_bar now none a = text plain []
selected_bar now (some sel) a =
    if a.msg_options_open then text yellow (options_hint now sel a) else navigation

-- `msgs` are the messages of the conversation that is shown, if there is one.
unfoldable pub action_bar : ℤ → Option (List Message) → App → Text
unfolding selected_bar
action_bar now msgs a =
    if a.editing_msg
    then text yellow
        (codes " Editing " ++ (0xe2 ∷ 0x80 ∷ 0x94 ∷ []) ++ codes " [Enter]=confirm  [Esc]=cancel")
    else if a.forwarding_msg
    then text yellow (codes " Forward to (type recipient, Enter to send, Esc to cancel)")
    else elim a.selected_msg [
      | none ↦ text plain []
      | some i ↦ elim msgs [ none ↦ text plain [] | some ms ↦ selected_bar now (get_elem? ms i) a ]
    ]

-- ── The screens ──

abbrev pub header_of : App → List Text
header_of a =
    text bold_cyan (codes "  EPIC")
    ∷ text cyan (codes " Secure Messenger")
    ∷ ((if a.connected
          then []
          else text bold_red (codes " " ++ (0xe2 ∷ 0x97 ∷ 0x8f ∷ []) ++ codes " NO CONNECTION")
            ∷ [])
        ++ text bold (codes " " ++ a.local_username ++ codes " ") ∷ [])

abbrev pub compose_label_of : App → Text
compose_label_of a = text (if a.editing_msg || a.forwarding_msg then yellow else white) (
    if a.editing_msg
    then codes " Edit > "
    else if a.forwarding_msg
    then codes " Fwd to > "
    else codes " > ")

abbrev pub screen_of : Bytes → List Line → Text → App → ChatScreen
screen_of title lines bar a = record {
  header = header_of a;
  title = title;
  lines = lines;
  action_bar = bar;
  compose_label = compose_label_of a;
}

-- `local_time` stands for localtime and strftime with "%H:%M".
module _ (local_time : ℤ → Bytes) where
  abbrev pub format_time : ℤ → Bytes
  format_time ms = local_time (seconds ms)

  abbrev pub label_of : Bool → Message → Bytes
  label_of sent m =
      codes "["
      ++ format_time m.timestamp_ms
      ++ codes "] "
      ++ (if sent then codes "you : " else m.peer ++ codes " : ")

  unfoldable pub message_row : Bytes → Bool → Message → List Text
  message_row username sel m =
      let sent = is_mine username m in
      text plain (if sel then codes " > " else codes "   ")
      ∷ text (if sent then blue else white) (label_of sent m)
      ∷ (if m.deleted then text dim (codes "(deleted)") else text plain m.body)
      ∷ (if not m.deleted && m.edited then text dim (codes " (edited)") else text plain [])
      ∷ (if is_forward m.type then text dim (codes " (forwarded)") else text plain [])
      ∷ []

  unfoldable pub message_lines : ℕ → List Message → App → List Line
  unfolding message_row
  message_lines i [] a = []
  message_lines i (m ∷ ms) a =
      record {
        inverted = is_selected i a.selected_msg;
        focused = is_empty ms;
        pieces = message_row a.local_username (is_selected i a.selected_msg) m;
      }
      ∷ message_lines (suc i) ms a

  abbrev pub lines_of : List Message → App → List Line
  lines_of ms a = if is_empty ms then no_messages else message_lines 0 ms a

  with_conversation : ℤ → Option Conversation → App → Option ChatScreen
  unfolding action_bar message_lines
  with_conversation now none a = none
  with_conversation now (some conv) a =
      some
        (screen_of conv.peer (lines_of conv.messages a) (action_bar now (some conv.messages) a) a)

  unfoldable pub chat_screen : ℤ → App → Option ChatScreen
  unfolding with_conversation
  chat_screen now a =
      if is_empty a.conversations
      then some (screen_of (codes "No conversations") no_messages (action_bar now none a) a)
      else with_conversation now (get_elem? a.conversations a.selected_conv) a

unfoldable pub login_status : App → Text
login_status a = if is_empty a.status_msg then text dim [] else text red (codes " " ++ a.status_msg)
