-- ===== src/Client/Inbound/Remote.antt =====
-- What the contents of a message do on the side of its receiver, in on_deliver_message of
-- Client.cpp.
use epic_1bit2qbit.Prelude.{◌≡◌, ◌≢◌, ◌⊎◌, List, [], ◌∷◌, bytes_eq}
use epic_1bit2qbit.Prelude.Text.{Bytes}
use epic_1bit2qbit.Messaging.Message.{Message, MessageType}
use epic_1bit2qbit.Messaging.Conversation
use epic_1bit2qbit.Messaging.Conversation.{Conversation}
use epic_1bit2qbit.Messaging.Sqlite.{Row}
use epic_1bit2qbit.Messaging.Store
use epic_1bit2qbit.Ui.App
use epic_1bit2qbit.Client.State.{Client}
use epic_1bit2qbit.Client.Content.{ParsedContent}

abbrev pub content_is : MessageType → Bytes → Bytes → ParsedContent
content_is type body target_mid = record { type = type; body = body; target_mid = target_mid }

-- Each row with the mid has been changed, and no other: no row's peer or sender plays a part.
unfoldable pub EveryRow : Bytes → (Row → Row) → List Row → List Row → Type 0
EveryRow mid change [] [] = Unit {0}
EveryRow mid change [] (q ∷ qs) = ⊥
EveryRow mid change (r ∷ rs) [] = ⊥
EveryRow mid change (r ∷ rs) (q ∷ qs) =
    (((r.mid ≡ mid) × (q ≡ change r)) ⊎ ((r.mid ≢ mid) × (q ≡ r))) × EveryRow mid change rs qs

-- The first message with the mid has been changed, where there is one, and no other.
unfoldable pub FirstHit : Bytes → (Message → Message) → List Message → List Message → Type 0
FirstHit mid change [] [] = Unit {0}
FirstHit mid change [] (n ∷ ns) = ⊥
FirstHit mid change (m ∷ ms) [] = ⊥
FirstHit mid change (m ∷ ms) (n ∷ ns) =
    ((m.mid ≡ mid) × (n ≡ change m) × (ns ≡ ms))
    ⊎ ((m.mid ≢ mid) × (n ≡ m) × FirstHit mid change ms ns)

-- That holds of each conversation, whoever its peer is.
unfoldable pub EveryShown :
    Bytes → (Message → Message) → List Conversation → List Conversation → Type 0
unfolding FirstHit
EveryShown mid change [] [] = Unit {0}
EveryShown mid change [] (d ∷ ds) = ⊥
EveryShown mid change (c ∷ cs) [] = ⊥
EveryShown mid change (c ∷ cs) (d ∷ ds) =
    ((d.peer ≡ c.peer) × FirstHit mid change c.messages d.messages) × EveryShown mid change cs ds
