-- ===== src/Ui/Examples.antt =====
-- Concrete runs of App.cpp.
use epic_1bit2qbit.Prelude.{
  ◌≡◌, refl, true, false, List, [], ◌∷◌, ◌++◌, none, some, arith, All, bytes_beq,
}
use epic_1bit2qbit.Prelude.Int.{ℤ, pos, ◌-ℤ◌}
use epic_1bit2qbit.Prelude.Text.{Bytes, codes}
use epic_1bit2qbit.Messaging.Message.{Message, blank_message, is_editable}
use epic_1bit2qbit.Ui.App.{App, new_app, on_edit, advance_to_chat, return_to_login}
use epic_1bit2qbit.Ui.App.Aligned.{message, new_chat, menu, drop_conversation}
use epic_1bit2qbit.Ui.Chat.{arrow_up, enter, character, do_send}
use epic_1bit2qbit.Ui.Chat.Safe.{act, updated, pressed, Action}
use epic_1bit2qbit.Messaging.Conversation.{Conversation, open_conversation}
use epic_1bit2qbit.Ui.Chat.Modes.{edit_lem, edit_survives_logout}
use epic_1bit2qbit.Ui.Url.{verify_command}
use epic_1bit2qbit.Ui.Url.Quoting.{IsSafe, query_decode, verify_command_lem}

abbrev note : Message
note = record blank_message {
  id = 7;
  peer = codes "ada";
  recipient = codes "ada";
  timestamp_ms = pos 5;
  body = codes "hello";
}

abbrev at_noon : ℤ → Bytes
at_noon t = codes "12:00"

abbrev some_actions : List Action
some_actions =
    updated (message note)
    ∷ updated (new_chat (codes "bob"))
    ∷ pressed (pos 9) arrow_up
    ∷ updated (drop_conversation (codes "ada"))
    ∷ pressed (pos 9) enter
    ∷ updated (menu 0)
    ∷ []

abbrev mine : App
mine = record new_app { local_username = codes "me" }

abbrev to_ada : Conversation
to_ada = record (open_conversation (codes "ada")) { messages = note ∷ [] }

abbrev in_options : App
in_options = record mine {
  conversations = to_ada ∷ [];
  conv_names = codes "ada" ∷ [];
  selected_msg = some 0;
  msg_options_open = true;
}

edit_lem_example :
    (b : App) × (act (pressed (pos 6) (character 101)) in_options ≡ some b)
    × (b.compose_text ≡ codes "hello")
    × ((after : App) × (act (pressed (pos 9) enter) (record b { compose_text = codes "bye" })
          ≡ some after)
        × (after.calls ≡ [] ++ on_edit 7 (codes "bye") ∷ [])
        × (after.editing_msg ≡ false)
        × (after.compose_text ≡ [])
        × (after.selected_msg ≡ none)
        × (after.msg_options_open ≡ false))
edit_lem_example =
    edit_lem (pos 6) (pos 9) 101 note in_options (codes "bye") (to_ada, 0, refl, refl, refl) refl
      refl (unfold bytes_beq in refl) (unfold is_editable ◌-ℤ◌ in refl) refl

abbrev editing : App
editing = record mine { editing_msg = true; editing_msg_id = 7 }

edit_survives_logout_example :
    let b = advance_to_chat (codes "bob") (return_to_login editing) in
    (after : App) × (do_send (record b { compose_text = codes "hi" }) ≡ some after)
    × (after.calls ≡ [] ++ on_edit 7 (codes "hi") ∷ [])
edit_survives_logout_example = edit_survives_logout editing (codes "bob") (codes "hi") refl refl

verify_command_lem_example :
    (query : Bytes) × (verify_command (codes "m'") (codes "{")
      ≡ codes "xdg-open 'https://1bit2qbit.theburkenator.com/verify/?message="
        ++ query
        ++ codes "' &")
    × All IsSafe query
    × (query_decode query ≡ codes "m'" ++ codes ":" ++ codes "{")
verify_command_lem_example =
    verify_command_lem (codes "m'") (codes "{") (omega arith, (omega arith, tt)) (omega arith, tt)
