-- ===== src/Ui/Render/Shown.antt =====
-- The chat screen of App.cpp can always be drawn, and shows the conversation that is selected.
use epic_1bit2qbit.Prelude.{ℕ, suc, ◌≡◌, ◌⊎◌, List, [], ◌∷◌, map, some, get_elem?, if◌then◌else◌}
use epic_1bit2qbit.Prelude.Int.{ℤ}
use epic_1bit2qbit.Prelude.Text.{Bytes, codes}
use epic_1bit2qbit.Messaging.Message.{Message}
use epic_1bit2qbit.Messaging.Conversation.{Conversation}
use epic_1bit2qbit.Ui.App.{App}
use epic_1bit2qbit.Ui.Render.{
  ChatScreen, Line, Text, text, plain, dim, blue, white, is_mine, label_of, is_selected,
  no_messages, lines_of, chat_screen,
}

-- A message whose text has been forgotten, where it is deleted.
abbrev pub without_text : Message → Message
without_text m = record m { body = if m.deleted then [] else m.body }

module _ (local_time : ℤ → Bytes) where
  -- What a line shows of a message: whether it is the selected one, the arrow, who wrote it and when,
  -- and its text, or that it has been deleted.
  abbrev pub IsLineOf : App → ℕ → Message → Line → Type 0
  IsLineOf a i m line =
      (line.inverted ≡ is_selected i a.selected_msg)
      × ((arrow : Text) × (rest : List Text) × (line.pieces
            ≡ arrow
              ∷ text (if is_mine a.local_username m then blue else white)
                  (label_of local_time (is_mine a.local_username m) m)
              ∷ (if m.deleted then text dim (codes "(deleted)") else text plain m.body)
              ∷ rest))

  -- A line for each message, in their order, from the position i on.
  unfoldable pub AreLinesOf : App → ℕ → List Message → List Line → Type 0
  AreLinesOf a i [] [] = Unit {0}
  AreLinesOf a i [] (line ∷ lines) = ⊥
  AreLinesOf a i (m ∷ ms) [] = ⊥
  AreLinesOf a i (m ∷ ms) (line ∷ lines) = IsLineOf a i m line × AreLinesOf a (suc i) ms lines

  -- One line that says so where there is no message.
  abbrev pub Lists : App → List Message → List Line → Type 0
  Lists a ms lines = ((ms ≡ []) × (lines ≡ no_messages)) ⊎ AreLinesOf a 0 ms lines

  -- The conversation that is selected, with its peer as the title; or none, where there is none.
  abbrev pub Shows : App → ChatScreen → Type 0
  Shows a s =
      ((a.conversations ≡ []) × (s.title ≡ codes "No conversations") × (s.lines ≡ no_messages))
      ⊎ ((conv : Conversation) × (get_elem? a.conversations a.selected_conv ≡ some conv)
          × (s.title ≡ conv.peer)
          × Lists a conv.messages s.lines
          × (s.lines ≡ lines_of local_time (map without_text conv.messages) a))

  abbrev IsDrawn : ℤ → App → Type 0
  IsDrawn now a = (s : ChatScreen) × (chat_screen local_time now a ≡ some s) × Shows a s
