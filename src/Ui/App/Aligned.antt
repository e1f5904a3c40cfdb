-- ===== src/Ui/App/Aligned.antt =====
-- The window of App.cpp never shows a conversation that is not there.
use epic_1bit2qbit.Prelude.{
  ℕ, zero, suc, ◌-◌, ◌<◌, ◌≡◌, refl, ap, sym, ◌∙◌, Bool, true, false, List, [], ◌∷◌, ◌++◌, map,
  Option, none, some, length, length-append, ◌==◌, bytes_eq, arith, if◌then◌else◌, Bool-cases, inl,
  inr, ltb, ltb→lt,
}
use epic_1bit2qbit.Prelude.Text.{Bytes}
use epic_1bit2qbit.Messaging.Message.{Message}
use epic_1bit2qbit.Messaging.Conversation.{Conversation, open_conversation, update_first}
use epic_1bit2qbit.Messaging.Conversation
use epic_1bit2qbit.Ui.App.{
  App, index_of, update_at, erase_at, clamp, push_at, remove_at, select_or_add, push_message,
  push_sent_message, update_message_body, update_message_body_by_mid, mark_message_deleted,
  mark_message_deleted_by_mid, remove_message, set_conversations, advance_to_chat, return_to_login,
  remove_conversation, add_conversation, push_status, set_connected,
}

abbrev pub peer_of : Conversation → Bytes
peer_of c = c.peer

-- The menu lists the conversations by their peers, in their order, and its selection is one of
-- them, or the first place where there are none.
abbrev pub IsAligned : App → Type 0
IsAligned a =
    (a.conv_names ≡ map peer_of a.conversations)
    × (a.selected_conv < suc (length a.conversations - 1))

map-append_one :
    (cs : List Conversation) (c : Conversation)
    → map peer_of (cs ++ c ∷ []) ≡ map peer_of cs ++ c.peer ∷ []
map-append_one [] c = refl
map-append_one (d ∷ cs) c = ap (◌∷◌ d.peer) (map-append_one cs c)

map-update_at :
    (i : ℕ) (f : Conversation → Conversation) (cs : List Conversation)
    → ((c : Conversation) → (f c).peer ≡ c.peer)
    → map peer_of (update_at i f cs) ≡ map peer_of cs
unfolding update_at
map-update_at i f [] same = refl
map-update_at zero f (c ∷ cs) same = ap (λ p. p ∷ map peer_of cs) (same c)
map-update_at (suc i) f (c ∷ cs) same = ap (◌∷◌ c.peer) (map-update_at i f cs same)

length-update_at :
    (i : ℕ) (f : Conversation → Conversation) (cs : List Conversation)
    → length (update_at i f cs) ≡ length cs
unfolding update_at
length-update_at i f [] = refl
length-update_at zero f (c ∷ cs) = refl
length-update_at (suc i) f (c ∷ cs) = ap suc (length-update_at i f cs)

map-map_peer :
    (f : Conversation → Conversation) (cs : List Conversation)
    → ((c : Conversation) → (f c).peer ≡ c.peer)
    → map peer_of (map f cs) ≡ map peer_of cs
map-map_peer f [] same = refl
map-map_peer f (c ∷ cs) same = λ i. same c i ∷ map-map_peer f cs same i

length-map_conv :
    (f : Conversation → Conversation) (cs : List Conversation) → length (map f cs) ≡ length cs
length-map_conv f [] = refl
length-map_conv f (c ∷ cs) = ap suc (length-map_conv f cs)

map-erase_at :
    (i : ℕ) (cs : List Conversation) → map peer_of (erase_at i cs) ≡ erase_at i (map peer_of cs)
map-erase_at i [] = refl
map-erase_at zero (c ∷ cs) = refl
map-erase_at (suc i) (c ∷ cs) = ap (◌∷◌ c.peer) (map-erase_at i cs)

clamp-small : (selected size : ℕ) → clamp selected size < suc (size - 1)
clamp-small selected size = ground arith

index_of-small :
    (peer : Bytes) (cs : List Conversation) (i : ℕ) → index_of peer cs ≡ some i → i < length cs
unfolding index_of
index_of-small peer [] i h = absurd (cc h)
index_of-small peer (c ∷ cs) i h =
    step (c.peer == peer) (index_of peer cs) (index_of-small peer cs) i h
  where
    step :
        (b : Bool) (o : Option ℕ)
        → ((j : ℕ) → o ≡ some j → j < length cs)
        → (i : ℕ) → (if b then some 0 else elim o [ none ↦ none | some j ↦ some (suc j) ]) ≡ some i
        → i < suc (length cs)
    step true o ih i e = ground (arith, e)
    step false none ih i e = absurd (cc e)
    step false (some j) ih i e = ground (arith, e, ih j refl)

-- An update of the conversations that changes no peer.
keep_peers :
    (a : App) (cs : List Conversation) (names : List Bytes)
    → IsAligned a
    → names ≡ a.conv_names
    → map peer_of cs ≡ map peer_of a.conversations
    → length cs ≡ length a.conversations
    → (names ≡ map peer_of cs) × (a.selected_conv < suc (length cs - 1))
keep_peers a cs names h e p n = (e ∙ h.0 ∙ sym p, omega (arith, h.1, n))

push_at-IsAligned :
    (msg : Message) (o : Option ℕ) (a : App) → IsAligned a → IsAligned (push_at msg o a)
unfolding push_at Conversation.add_message
push_at-IsAligned msg none a h = (
  ap (λ (names : List Bytes). names ++ msg.peer ∷ []) h.0
      ∙ sym (
          map-append_one a.conversations
            (Conversation.add_message msg (open_conversation msg.peer))),
  omega (
    arith,
    h.1,
    length-append a.conversations (Conversation.add_message msg (open_conversation msg.peer) ∷ []),
  ),
)
push_at-IsAligned msg (some i) a h =
    let f = Conversation.add_message msg in
    keep_peers a (update_at i f a.conversations) a.conv_names h refl
      (map-update_at i f a.conversations λ c. refl) (length-update_at i f a.conversations)

-- A change of each conversation in its messages alone.
map_conversations :
    (f : Conversation → Conversation) (a : App)
    → ((c : Conversation) → (f c).peer ≡ c.peer)
    → IsAligned a
    → (a.conv_names ≡ map peer_of (map f a.conversations))
      × (a.selected_conv < suc (length (map f a.conversations) - 1))
map_conversations f a same h =
    keep_peers a (map f a.conversations) a.conv_names h refl (map-map_peer f a.conversations same)
      (length-map_conv f a.conversations)

remove_at-IsAligned : (o : Option ℕ) (a : App) → IsAligned a → IsAligned (remove_at o a)
unfolding remove_at
remove_at-IsAligned none a h = h
remove_at-IsAligned (some i) a h = (
  ap (erase_at i) h.0 ∙ sym (map-erase_at i a.conversations),
  clamp-small a.selected_conv (length (erase_at i a.conversations)),
)

add-IsAligned :
    (o : Option ℕ) (a : App)
    → IsAligned a
    → ((i : ℕ) → o ≡ some i → i < length a.conversations)
    → IsAligned (select_or_add o a)
unfolding select_or_add
add-IsAligned none a h found = (
  ap (λ (names : List Bytes). names ++ a.new_peer ∷ []) h.0
      ∙ sym (map-append_one a.conversations (open_conversation a.new_peer)),
  omega arith,
)
add-IsAligned (some i) a h found = (h.0, omega (arith, found i refl))

-- What the client and the field for a new chat do to the window.
pub data Update : Type 0 where
  status : Bytes → Update
  connection : Bool → Update
  message : Message → Update
  sent_message : Message → Update
  body : ℕ → Bytes → Update
  body_by_mid : Bytes → Bytes → Update
  deleted : ℕ → Update
  deleted_by_mid : Bytes → Update
  removed : ℕ → Update
  all_conversations : List Conversation → Update
  chat : Bytes → Update
  login : Update
  drop_conversation : Bytes → Update
  new_chat : Bytes → Update
  -- the menu of conversations: it selects one of its entries
  menu : ℕ → Update

unfoldable pub update : Update → App → App
unfolding push_status set_connected push_message push_sent_message update_message_body
    update_message_body_by_mid mark_message_deleted mark_message_deleted_by_mid remove_message
    set_conversations advance_to_chat return_to_login remove_conversation add_conversation
update (status msg) a = push_status msg a
update (connection c) a = set_connected c a
update (message m) a = push_message m a
update (sent_message m) a = push_sent_message m a
update (body id text) a = update_message_body id text a
update (body_by_mid mid text) a = update_message_body_by_mid mid text a
update (deleted id) a = mark_message_deleted id a
update (deleted_by_mid mid) a = mark_message_deleted_by_mid mid a
update (removed id) a = remove_message id a
update (all_conversations convs) a = set_conversations convs a
update (chat username) a = advance_to_chat username a
update login a = return_to_login a
update (drop_conversation peer) a = remove_conversation peer a
update (new_chat peer) a = add_conversation (record a { new_peer = peer })
update (menu i) a = if ltb i (length a.conv_names) then record a { selected_conv = i } else a

length-map_peer : (cs : List Conversation) → length (map peer_of cs) ≡ length cs
length-map_peer [] = refl
length-map_peer (c ∷ cs) = ap suc (length-map_peer cs)

pub update-IsAligned : (u : Update) (a : App) → IsAligned a → IsAligned (update u a)
unfolding update push_status set_connected push_message push_sent_message update_message_body
    update_message_body_by_mid mark_message_deleted mark_message_deleted_by_mid remove_message
    set_conversations advance_to_chat return_to_login remove_conversation add_conversation
    Conversation.update_message_body Conversation.update_message_body_by_mid
    Conversation.mark_message_deleted Conversation.mark_message_deleted_by_mid
    Conversation.remove_message
update-IsAligned (status msg) a h = h
update-IsAligned (connection c) a h = h
update-IsAligned (message m) a h = push_at-IsAligned m (index_of m.peer a.conversations) a h
update-IsAligned (sent_message m) a h = push_at-IsAligned m (index_of m.peer a.conversations) a h
update-IsAligned (body id text) a h =
    map_conversations (Conversation.update_message_body id text) a (λ c. refl) h
update-IsAligned (body_by_mid mid text) a h =
    map_conversations (Conversation.update_message_body_by_mid mid text) a (λ c. refl) h
update-IsAligned (deleted id) a h =
    map_conversations (Conversation.mark_message_deleted id) a (λ c. refl) h
update-IsAligned (deleted_by_mid mid) a h =
    map_conversations (Conversation.mark_message_deleted_by_mid mid) a (λ c. refl) h
update-IsAligned (removed id) a h =
    map_conversations (Conversation.remove_message id) a (λ c. refl) h
update-IsAligned (all_conversations convs) a h = (refl, omega arith)
update-IsAligned (chat username) a h = h
update-IsAligned login a h = (refl, omega arith)
update-IsAligned (drop_conversation peer) a h =
    remove_at-IsAligned (index_of peer a.conversations) a h
update-IsAligned (new_chat peer) a h = elim (Bool-cases (peer == [])) [
  | inl nothing ↦ rw nothing h
  | inr named ↦
      let b : App = record a { new_peer = peer } in
      rw named
        (add-IsAligned (index_of peer a.conversations) b h (index_of-small peer a.conversations))
]
update-IsAligned (menu i) a h = elim (Bool-cases (ltb i (length a.conv_names))) [
  | inl inside ↦ rw inside (
    h.0,
    omega (
      arith,
      ltb→lt i (length a.conv_names) inside,
      length-map_peer a.conversations,
      ap length h.0,
    ),
  )
  | inr outside ↦ rw outside h
]
