-- ===== src/Ui/Chat/Modes.antt =====
-- The modes of the field for a message in App.cpp: writing, editing, forwarding.
use epic_1bit2qbit.Prelude.{
  ℕ, ◌≡◌, refl, ap, ◌∙◌, Bool, true, false, arith, ◌&&◌, List, [], ◌∷◌, ◌++◌, Option, none, some,
  get_elem?, is_empty, if-true, if-false,
}
use epic_1bit2qbit.Prelude.Int.{ℤ}
use epic_1bit2qbit.Prelude.Text.{Bytes}
use epic_1bit2qbit.Messaging.Message.{Message, is_editable}
use epic_1bit2qbit.Messaging.Conversation.{Conversation}
use epic_1bit2qbit.Ui.App.{App, on_edit, add_call, return_to_login, advance_to_chat}
use epic_1bit2qbit.Ui.Chat.{
  do_send, option_key, edit_option, is_sent, letter, character, enter, chat_key, compose_key,
  close_selection, taken, Handled,
}
use epic_1bit2qbit.Ui.Chat.Safe.{act, pressed, unless_taken}

-- The window once an edit of a message has begun.
abbrev pub editing_of : Message → App → App
editing_of sel a = record a {
  compose_text = sel.body;
  editing_msg = true;
  editing_msg_id = sel.id;
  msg_options_open = false;
}

-- The message is the one selected, in the conversation that is shown.
abbrev pub IsChosen : Message → App → Type 0
IsChosen sel a =
    (conv : Conversation) × (i : ℕ) × (get_elem? a.conversations a.selected_conv ≡ some conv)
    × (a.selected_msg ≡ some i)
    × (get_elem? conv.messages i ≡ some sel)

pub nonempty :
    {A : Type 0} (xs : List A) (i : ℕ) (x : A) → get_elem? xs i ≡ some x → is_empty xs ≡ false
nonempty [] i x h = absurd (cc h)
nonempty (y ∷ xs) i x h = refl

editing :
    (now : ℤ) (c : ℕ) (sel : Message) (a : App)
    → letter c 101 ≡ true
    → is_sent sel a ≡ true
    → is_editable sel.timestamp_ms now ≡ true
    → option_key now c sel a ≡ (true, editing_of sel a)
unfolding option_key edit_option
editing now c sel a e mine open_window =
    if-true (letter c 101) _ _ e
    ∙ ap (λ (b : App). (true, b))
        (if-true (is_sent sel a && is_editable sel.timestamp_ms now) _ _ (cc (mine, open_window)))

-- While the options of a message are open, a character goes to them.
pub key_in_options :
    (now : ℤ) (c : ℕ) (a : App) (conv : Conversation) (i : ℕ) (sel : Message)
    → get_elem? a.conversations a.selected_conv ≡ some conv
    → a.selected_msg ≡ some i
    → get_elem? conv.messages i ≡ some sel
    → a.msg_options_open ≡ true
    → chat_key now (character c) a ≡ some (option_key now c sel a)
unfolding chat_key
key_in_options now c a conv i sel here selected at_i opened =
    let some_conversation = nonempty a.conversations a.selected_conv conv here in
    let some_message = nonempty conv.messages i sel at_i in
    simp (some_conversation, here, some_message, selected, opened, at_i) refl

press_e :
    (now : ℤ) (c : ℕ) (sel : Message) (a : App)
    → IsChosen sel a
    → a.msg_options_open ≡ true
    → letter c 101 ≡ true
    → is_sent sel a ≡ true
    → is_editable sel.timestamp_ms now ≡ true
    → act (pressed now (character c)) a ≡ some (editing_of sel a)
unfolding act unless_taken
press_e now c sel a (conv, i, here, selected, at_i) opened e mine open_window =
    ap (unless_taken (character c)) (
      key_in_options now c a conv i sel here selected at_i opened
      ∙ ap (λ (h : Bool × App). some h) (editing now c sel a e mine open_window))

-- The window once Enter has ended an edit.
abbrev edited : App → App
edited a = close_selection (record (add_call (on_edit a.editing_msg_id a.compose_text) a) {
  compose_text = [];
  editing_msg = false;
  editing_msg_id = 0;
})

-- In the mode, the key Enter is left to the field.
enter_passes :
    (now : ℤ) (sel : Message) (a : App)
    → IsChosen sel a
    → a.editing_msg ≡ true
    → a.msg_options_open ≡ false
    → chat_key now enter a ≡ some (false, a)
unfolding chat_key
enter_passes now sel a (conv, i, here, selected, at_i) edits closed =
    let some_conversation = nonempty a.conversations a.selected_conv conv here in
    let some_message = nonempty conv.messages i sel at_i in
    ground (arith, some_conversation, here, some_message, selected, edits, closed)

field_enter :
    (a : App)
    → a.editing_msg ≡ true
    → is_empty a.compose_text ≡ false
    → compose_key enter a ≡ some (true, edited a)
unfolding compose_key do_send
field_enter a edits written =
    ap taken (if-false (is_empty a.compose_text) _ _ written ∙ if-true a.editing_msg _ _ edits)

press_enter :
    (now : ℤ) (sel : Message) (a : App)
    → IsChosen sel a
    → a.editing_msg ≡ true
    → a.msg_options_open ≡ false
    → is_empty a.compose_text ≡ false
    → act (pressed now enter) a ≡ some (edited a)
unfolding act unless_taken
press_enter now sel a chosen edits closed written =
    ap (unless_taken enter) (enter_passes now sel a chosen edits closed)
    ∙ ap
        (λ (h : Handled). elim h as (λ _. Option App) [
          | none ↦ none
          | some (b, after) ↦ some after
        ])
        (field_enter a edits written)

-- An edit of the selected message, key by key: while its options are open, for a message that the
-- user has sent and that is still in its window, the key E (or e) puts the message's text into the
-- field; and the key Enter, pressed at any later time on the text that the user made of it, unless
-- that is empty, calls on_edit once, with the message's id and the new text, empties the field, and
-- leaves the mode and the selection with the options closed.
pub edit_lem :
    (now later : ℤ) (c : ℕ) (sel : Message) (a : App) (text : Bytes)
    → IsChosen sel a
    → a.msg_options_open ≡ true
    → letter c 101 ≡ true
    → is_sent sel a ≡ true
    → is_editable sel.timestamp_ms now ≡ true
    → is_empty text ≡ false
    → (b : App) × (act (pressed now (character c)) a ≡ some b)
      × (b.compose_text ≡ sel.body)
      × ((after : App) × (act (pressed later enter) (record b { compose_text = text }) ≡ some after)
          × (after.calls ≡ a.calls ++ on_edit sel.id text ∷ [])
          × (after.editing_msg ≡ false)
          × (after.compose_text ≡ [])
          × (after.selected_msg ≡ none)
          × (after.msg_options_open ≡ false))
edit_lem now later c sel a text chosen opened e mine open_window written = (
  editing_of sel a,
  press_e now c sel a chosen opened e mine open_window,
  refl,
  (
    _,
    press_enter later sel (record (editing_of sel a) { compose_text = text }) chosen refl refl
        written,
    refl,
    refl,
    refl,
    refl,
    refl,
  ),
)

-- Logging out in the middle of an edit and in again, perhaps as another user: the mode and the id
-- of the message are still there, so that the first text which the user then sends does not go to
-- on_send with the peer that is shown: the one callback is on_edit, with the old id and this text.
pub edit_survives_logout :
    (a : App) (username text : Bytes)
    → a.editing_msg ≡ true
    → is_empty text ≡ false
    → let b = advance_to_chat username (return_to_login a) in
      (after : App) × (do_send (record b { compose_text = text }) ≡ some after)
      × (after.calls ≡ a.calls ++ on_edit a.editing_msg_id text ∷ [])
unfolding do_send advance_to_chat return_to_login
edit_survives_logout a username text editing nonempty =
    (_, if-false (is_empty text) _ _ nonempty ∙ if-true a.editing_msg _ _ editing, refl)
