-- ===== src/Messaging/Conversation/Edits.antt =====
-- What the loops of Conversation.cpp change, and what they leave.
use epic_1bit2qbit.Prelude.{
  ℕ, ◌≡◌, refl, ap, Bool, true, false, not, List, [], ◌∷◌, ◌++◌, arith, if◌then◌else◌, keep, All,
  map,
}
use epic_1bit2qbit.Prelude.Text.{Bytes}
use epic_1bit2qbit.Messaging.Message.{Message}
use epic_1bit2qbit.Messaging.Conversation.{
  Conversation, update_first, has_id, has_mid, edit_message, delete_message, update_message_body,
  update_message_body_by_mid, mark_message_deleted, mark_message_deleted_by_mid, remove_message,
  get_message_mid, mid_of,
}

-- No message of the list passes the test.
abbrev pub NoneIs : (Message → Bool) → List Message → Type 0
NoneIs test = All (λ m. test m ≡ false)

pub update_first-miss :
    (test : Message → Bool) (change : Message → Message) (ms : List Message)
    → NoneIs test ms
    → update_first test change ms ≡ ms
unfolding update_first
update_first-miss test change [] h = refl
update_first-miss test change (m ∷ ms) h =
    rw h.0 (ap (◌∷◌ m) (update_first-miss test change ms h.1))

pub update_first-hit :
    (test : Message → Bool) (change : Message → Message) (before : List Message) (m : Message)
    (after : List Message)
    → NoneIs test before
    → test m ≡ true
    → update_first test change (before ++ m ∷ after) ≡ before ++ change m ∷ after
unfolding update_first
update_first-hit test change [] m after h hit = rw hit
update_first-hit test change (x ∷ before) m after h hit =
    rw h.0 (ap (◌∷◌ x) (update_first-hit test change before m after h.1 hit))

-- A projection that the change keeps is kept throughout.
pub map-update_first :
    (f : Message → Bytes) (test : Message → Bool) (change : Message → Message) (ms : List Message)
    → ((m : Message) → f (change m) ≡ f m)
    → map f (update_first test change ms) ≡ map f ms
unfolding update_first
map-update_first f test change [] same = refl
map-update_first f test change (m ∷ ms) same =
    ground (arith, same m, map-update_first f test change ms same)

mid_of-update_first :
    (id : ℕ) (test : Message → Bool) (change : Message → Message) (ms : List Message)
    → ((m : Message) → (change m).id ≡ m.id)
    → ((m : Message) → (change m).mid ≡ m.mid)
    → mid_of id (update_first test change ms) ≡ mid_of id ms
unfolding update_first mid_of
mid_of-update_first id test change [] ids mids = refl
mid_of-update_first id test change (m ∷ ms) ids mids =
    ground (arith, ids m, mids m, mid_of-update_first id test change ms ids mids)

-- Editing by id replaces the body and sets the edited flag of the first message with that id, and
-- changes nothing else of the conversation.
pub update_message_body-hit :
    (c : Conversation) (id : ℕ) (new_body : Bytes) (before : List Message) (m : Message)
    (after : List Message)
    → c.messages ≡ before ++ m ∷ after
    → NoneIs (has_id id) before
    → m.id ≡ id
    → update_message_body id new_body c
      ≡ record c { messages = before ++ edit_message new_body m ∷ after }
unfolding update_message_body
update_message_body-hit c id new_body before m after split none_before hit =
    ap (λ ms. record c { messages = ms })
      (rw split (
        update_first-hit (has_id id) (edit_message new_body) before m after none_before
          (ground arith)))

-- A local edit and a local deletion keep every message's mid, so that the frame that propagates
-- them still names the message; a removed id has no mid any more.
pub get_message_mid-edits :
    (c : Conversation) (id other : ℕ) (new_body : Bytes)
    → (get_message_mid other (update_message_body id new_body c) ≡ get_message_mid other c)
      × (get_message_mid other (mark_message_deleted id c) ≡ get_message_mid other c)
      × (get_message_mid id (remove_message id c) ≡ [])
unfolding get_message_mid update_message_body mark_message_deleted remove_message
get_message_mid-edits c id other new_body = (
  mid_of-update_first other (has_id id) (edit_message new_body) c.messages (λ m. refl) (λ m. refl),
  mid_of-update_first other (has_id id) delete_message c.messages (λ m. refl) (λ m. refl),
  mid_of-removed c.messages,
)
  where
    mid_of-removed : (ms : List Message) → mid_of id (keep (λ m. not (has_id id m)) ms) ≡ []
    mid_of-removed [] = refl
    mid_of-removed (m ∷ ms) = ground (arith, mid_of-removed ms)

-- What a user reads of a message: a deleted one shows no body.
abbrev pub visible : Message → Bytes
visible m = if m.deleted then [] else m.body

update_first_after_delete :
    (test : Message → Bool) (new_body : Bytes) (ms : List Message)
    → ((m : Message) → test (delete_message m) ≡ test m)
    → map visible (update_first test (edit_message new_body) (update_first test delete_message ms))
      ≡ map visible (update_first test delete_message ms)
unfolding update_first
update_first_after_delete test new_body [] same = refl
update_first_after_delete test new_body (m ∷ ms) same =
    ground (arith, same m, update_first_after_delete test new_body ms same)

-- A deletion is final for the reader: an edit of the same message that arrives later, by id or by
-- mid, shows nothing of its text.
pub delete_is_final :
    (c : Conversation) (id : ℕ) (mid new_body : Bytes)
    → (map visible (update_message_body id new_body (mark_message_deleted id c)).messages
        ≡ map visible (mark_message_deleted id c).messages)
      × (map visible
            (update_message_body_by_mid mid new_body (mark_message_deleted_by_mid mid c)).messages
          ≡ map visible (mark_message_deleted_by_mid mid c).messages)
unfolding update_message_body mark_message_deleted update_message_body_by_mid
    mark_message_deleted_by_mid
delete_is_final c id mid new_body = (
  update_first_after_delete (has_id id) new_body c.messages (λ m. refl),
  update_first_after_delete (has_mid mid) new_body c.messages (λ m. refl),
)
