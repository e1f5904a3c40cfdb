-- ===== src/Ui/Chat/Keys.antt =====
-- What the keys of the chat screen of App.cpp leave as it is.
use epic_1bit2qbit.Prelude.{
  ℕ, zero, suc, ◌-◌, ◌<◌, ◌≡◌, refl, Bool, true, false, not, ◌&&◌, ◌||◌, List, [], ◌∷◌, Option,
  none, some, length, get_elem?, is_empty, arith, if◌then◌else◌, Bool-cases, inl, inr,
}
use epic_1bit2qbit.Prelude.Int.{ℤ}
use epic_1bit2qbit.Messaging.Message.{Message}
use epic_1bit2qbit.Messaging.Conversation.{Conversation}
use epic_1bit2qbit.Ui.App.{App, push_status}
use epic_1bit2qbit.Ui.App.Aligned.{IsAligned}
use epic_1bit2qbit.Ui.Chat.{
  Key, character, enter, escape, arrow_up, arrow_down, Handled, send_to, do_send, compose_key,
  chat_key, select_last, taken, option_menu, option_key, edit_option, delete_option, verify_option,
  cancel, selected_key, with_selection,
}

-- What the menu shows of a window.
abbrev pub Same : App → App → Type 0
Same a b =
    (b.conversations ≡ a.conversations)
    × (b.conv_names ≡ a.conv_names)
    × (b.selected_conv ≡ a.selected_conv)

same : (a : App) → Same a a
same a = (refl, refl, refl)

-- A key that is handled, and leaves the conversations and the menu as they are.
abbrev pub Keeps : App → Handled → Type 0
Keeps a none = ⊥
Keeps a (some (b, after)) = Same a after

pub found :
    (cs : List Conversation) (i : ℕ)
    → is_empty cs ≡ false
    → i < suc (length cs - 1)
    → (c : Conversation) × (get_elem? cs i ≡ some c)
found [] i h k = absurd (cc h)
found (c ∷ cs) zero h k = (c, refl)
found (c ∷ []) (suc i) h k = absurd (omega arith)
found (c ∷ d ∷ cs) (suc i) h k = found (d ∷ cs) i refl (omega arith)

if-Keeps :
    (a : App) (b : Bool) (x y : Handled)
    → (b ≡ true → Keeps a x)
    → Keeps a y
    → Keeps a (if b then x else y)
if-Keeps a true x y h k = h refl
if-Keeps a false x y h k = k

abbrev Stays : App → Option App → Type 0
Stays a none = ⊥
Stays a (some after) = Same a after

if-Stays :
    (a : App) (b : Bool) (x y : Option App)
    → (b ≡ true → Stays a x)
    → (b ≡ false → Stays a y)
    → Stays a (if b then x else y)
if-Stays a true x y h k = h refl
if-Stays a false x y h k = k refl

send_to-Stays :
    (a : App) (c : Conversation) (o : Option Conversation) → o ≡ some c → Stays a (send_to o a)
unfolding send_to
send_to-Stays a c none h = absurd (cc h)
send_to-Stays a c (some d) h = same a

do_send-Stays : (a : App) → IsAligned a → Stays a (do_send a)
unfolding do_send
do_send-Stays a v =
    if-Stays a (is_empty a.compose_text) _ _ (λ _. same a)
      λ _.
        if-Stays a a.editing_msg _ _ (λ _. same a)
          λ _.
            if-Stays a a.forwarding_msg _ _ (λ _. same a)
              λ _.
                if-Stays a (is_empty a.conversations) _ _ (λ _. same a)
                  λ some_there.
                    let (c, e) = found a.conversations a.selected_conv some_there v.1 in
                    send_to-Stays a c _ e

taken-Keeps : (a : App) (o : Option App) → Stays a o → Keeps a (taken o)
unfolding taken
taken-Keeps a none h = h
taken-Keeps a (some after) h = h

select_last-Keeps :
    (a : App) (c : Conversation) (o : Option Conversation) → o ≡ some c → Keeps a (select_last o a)
unfolding select_last
select_last-Keeps a c none h = absurd (cc h)
select_last-Keeps a c (some d) h = if-Keeps a (is_empty d.messages) _ _ (λ _. same a) (same a)

pub compose_key-Keeps : (key : Key) (a : App) → IsAligned a → Keeps a (compose_key key a)
unfolding compose_key
compose_key-Keeps enter a v = taken-Keeps a (do_send a) (do_send-Stays a v)
compose_key-Keeps escape a v =
    if-Keeps a (a.editing_msg || a.forwarding_msg) _ _ (λ _. same a) (same a)
compose_key-Keeps arrow_down a v = same a
compose_key-Keeps (character c) a v = same a
compose_key-Keeps arrow_up a v =
    let up =
      is_empty a.compose_text
      && not a.editing_msg
      && not a.forwarding_msg
      && not (is_empty a.conversations) in
    if-Keeps a up (select_last (get_elem? a.conversations a.selected_conv) a) (some (false, a))
      (λ on.
        let (c, e) = found a.conversations a.selected_conv (ground (arith, on)) v.1 in
        select_last-Keeps a c _ e)
      (same a)

edit_option-Same : (now : ℤ) (sel : Message) (a : App) → Same a (edit_option now sel a)
unfolding edit_option push_status
edit_option-Same now sel a = ground arith

delete_option-Same : (now : ℤ) (sel : Message) (a : App) → Same a (delete_option now sel a)
unfolding delete_option push_status
delete_option-Same now sel a = ground arith

verify_option-Same : (sel : Message) (a : App) → Same a (verify_option sel a)
unfolding verify_option push_status
verify_option-Same sel a = ground arith

option_key-Same : (now : ℤ) (c : ℕ) (sel : Message) (a : App) → Same a (option_key now c sel a).1
unfolding option_key
option_key-Same now c sel a =
    ground
      (arith, edit_option-Same now sel a, delete_option-Same now sel a, verify_option-Same sel a)

option_menu-Keeps :
    (now : ℤ) (i : ℕ) (msgs : List Message) (key : Key) (a : App)
    → Keeps a (option_menu now i msgs key a)
unfolding option_menu
option_menu-Keeps now i msgs key a =
    if-Keeps a (not a.msg_options_open) _ _ (λ _. same a) (chosen (get_elem? msgs i) key)
  where
    chosen :
        (o : Option Message) (key : Key)
        → Keeps a (elim o [
          | none ↦ some (false, a)
          | some sel ↦ elim key [
            | character c ↦ some (option_key now c sel a)
            | _ ↦ some (false, a)
          ]
        ])
    chosen none key = same a
    chosen (some sel) (character c) = option_key-Same now c sel a
    chosen (some sel) enter = same a
    chosen (some sel) escape = same a
    chosen (some sel) arrow_up = same a
    chosen (some sel) arrow_down = same a

selected_key-Keeps :
    (now : ℤ) (i : ℕ) (msgs : List Message) (key : Key) (a : App)
    → Keeps a (selected_key now i msgs key a)
unfolding selected_key cancel
selected_key-Keeps now i msgs escape a = same a
selected_key-Keeps now i msgs (character c) a = option_menu-Keeps now i msgs (character c) a
selected_key-Keeps now i msgs arrow_up a =
    if-Keeps a (not a.editing_msg && not a.forwarding_msg) _ _ (λ _. same a)
      (option_menu-Keeps now i msgs arrow_up a)
selected_key-Keeps now i msgs arrow_down a =
    if-Keeps a (not a.editing_msg && not a.forwarding_msg) _ _ (λ _. same a)
      (option_menu-Keeps now i msgs arrow_down a)
selected_key-Keeps now i msgs enter a =
    if-Keeps a (not a.editing_msg && not a.forwarding_msg) _ _ (λ _. same a)
      (option_menu-Keeps now i msgs enter a)

with_selection-Keeps :
    (now : ℤ) (key : Key) (c : Conversation) (o : Option Conversation) (a : App)
    → o ≡ some c
    → Keeps a (with_selection now key o a)
unfolding with_selection
with_selection-Keeps now key c none a h = absurd (cc h)
with_selection-Keeps now key c (some d) a h =
    if-Keeps a (is_empty d.messages) _ _ (λ _. same a) (selection a.selected_msg)
  where
    selection :
        (o : Option ℕ)
        → Keeps a (elim o [ none ↦ some (false, a) | some i ↦ selected_key now i d.messages key a ])
    selection none = same a
    selection (some i) = selected_key-Keeps now i d.messages key a

pub chat_key-Keeps : (now : ℤ) (key : Key) (a : App) → IsAligned a → Keeps a (chat_key now key a)
unfolding chat_key
chat_key-Keeps now key a v = elim (Bool-cases (is_empty a.conversations)) [
  | inl nothing ↦ rw nothing (same a)
  | inr some_there ↦
      let (c, e) = found a.conversations a.selected_conv some_there v.1 in
      if-Keeps a (is_empty a.conversations) _ _ (λ _. same a) (with_selection-Keeps now key c _ a e)
]
