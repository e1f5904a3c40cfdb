-- ===== src/Messaging/Conversation/Examples.antt =====
-- Concrete runs of Conversation.cpp.
use epic_1bit2qbit.Prelude.{◌≡◌, refl, [], ◌∷◌, map}
use epic_1bit2qbit.Prelude.Text.{codes}
use epic_1bit2qbit.Messaging.Message.{Message, blank_message}
use epic_1bit2qbit.Messaging.Conversation.{
  Conversation, open_conversation, update_message_body, mark_message_deleted, get_message_mid,
}
use epic_1bit2qbit.Messaging.Conversation.Edits.{delete_is_final, visible}

abbrev first : Message
first = record blank_message { id = 1; body = codes "hi"; mid = codes "a:b:1" }

abbrev second : Message
second = record blank_message { id = 2; body = codes "yo"; mid = codes "a:b:2" }

abbrev chat : Conversation
chat = record (open_conversation (codes "bob")) { messages = first ∷ second ∷ [] }

delete_is_final_example :
    map visible (update_message_body 2 (codes "new") (mark_message_deleted 2 chat)).messages
    ≡ map visible (mark_message_deleted 2 chat).messages
delete_is_final_example = (delete_is_final chat 2 (codes "a:b:2") (codes "new")).0

mid_of_second : get_message_mid 2 chat ≡ codes "a:b:2"
unfolding get_message_mid
mid_of_second = refl
