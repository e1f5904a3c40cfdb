-- ===== src/Ui/Render/Bar.antt =====
-- The bar of the chat screen of App.cpp promises what its keys do.
use epic_1bit2qbit.Prelude.{◌≡◌, ◌⊎◌, true, false, [], ◌++◌, some}
use epic_1bit2qbit.Prelude.Text.{Bytes, codes}
use epic_1bit2qbit.Messaging.Message.{Message}
use epic_1bit2qbit.Messaging.Conversation.{Conversation}
use epic_1bit2qbit.Ui.App.{App, on_delete, add_call, push_status}
use epic_1bit2qbit.Ui.Chat.{close_options, Handled}
use epic_1bit2qbit.Ui.Chat.Modes.{editing_of}
use epic_1bit2qbit.Ui.Render.{Text, text, yellow}

-- The bar of the options menu, with what it says of editing and deleting.
abbrev pub options_bar : Bytes → Text
options_bar offer =
    text yellow (codes " Options:" ++ (offer ++ codes "  [F]orward  [V]erify  [Esc]=close"))

-- What the bar says, and what the keys E and D do.
abbrev pub Promises : Text → Handled → Handled → Message → App → Type 0
Promises bar e d sel a =
    ((bar ≡ options_bar (codes "  [E]dit  [D]elete"))
      × (e ≡ some (true, editing_of sel a))
      × (d ≡ some (true, close_options (add_call (on_delete sel.id false) a))))
    ⊎ ((bar ≡ options_bar (codes "  [E]dit(expired)  [D]elete(expired)"))
        × (e ≡ some (true, push_status (codes "Edit window has closed for this message.") a))
        × (d
            ≡ some (
              true,
              close_options (push_status (codes "Delete window has closed for this message.") a),
            )))
    ⊎ ((bar ≡ options_bar []) × (e ≡ some (true, a)) × (d ≡ some (true, close_options a)))
