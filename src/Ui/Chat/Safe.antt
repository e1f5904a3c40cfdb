-- ===== src/Ui/Chat/Safe.antt =====
-- No index of the chat screen of App.cpp is out of range, whatever keys are pressed.
use epic_1bit2qbit.Prelude.{
  ◌≡◌, refl, ap, ◌∙◌, Bool, true, false, List, [], ◌∷◌, Option, none, some,
}
use epic_1bit2qbit.Prelude.Int.{ℤ}
use epic_1bit2qbit.Ui.App.{App}
use epic_1bit2qbit.Ui.App.Aligned.{IsAligned, Update, update, update-IsAligned}
use epic_1bit2qbit.Ui.Chat.{Key, Handled, compose_key, chat_key}
use epic_1bit2qbit.Ui.Chat.Keys.{Same, Keeps, compose_key-Keeps, chat_key-Keeps}

Same-IsAligned : (a b : App) → Same a b → IsAligned a → IsAligned b
Same-IsAligned a b s v = rw (s.0, s.1, s.2) v

-- What happens to a window: an update, or a key, which goes to the chat area and then, if it has not
-- been taken there, to the field for a message.
pub data Action : Type 0 where
  updated : Update → Action
  pressed : ℤ → Key → Action

unfoldable pub unless_taken : Key → Handled → Option App
unless_taken key none = none
unless_taken key (some (true, a)) = some a
unless_taken key (some (false, a)) = elim (compose_key key a) [
  | none ↦ none
  | some (b, after) ↦ some after
]

unfoldable pub act : Action → App → Option App
unfolding unless_taken
act (updated u) a = some (update u a)
act (pressed now key) a = unless_taken key (chat_key now key a)

unfoldable pub act_all : List Action → App → Option App
unfolding act
act_all [] a = some a
act_all (x ∷ xs) a = elim (act x a) [ none ↦ none | some after ↦ act_all xs after ]

abbrev IsGood : Option App → Type 0
IsGood o = (a : App) × (o ≡ some a) × IsAligned a

Keeps-IsGood :
    (a : App) (h : Handled)
    → IsAligned a
    → Keeps a h
    → (b : Bool) × (after : App) × (h ≡ some (b, after)) × IsAligned after
Keeps-IsGood a none v k = absurd k
Keeps-IsGood a (some (b, after)) v k = (b, after, refl, Same-IsAligned a after k v)

unless_taken-IsGood :
    (key : Key) (h : Handled) (a : App) → IsAligned a → Keeps a h → IsGood (unless_taken key h)
unfolding unless_taken
unless_taken-IsGood key none a v k = absurd k
unless_taken-IsGood key (some (true, after)) a v k = (after, refl, Same-IsAligned a after k v)
unless_taken-IsGood key (some (false, after)) a v k =
    let w = Same-IsAligned a after k v in
    let (b, last, e, good) =
      Keeps-IsGood after (compose_key key after) w (compose_key-Keeps key after w) in
    (
      last,
      ap
          (λ (h : Handled). elim h as (λ _. Option App) [
            | none ↦ none
            | some (b, after) ↦ some after
          ])
          e,
      good,
    )

act-IsGood : (x : Action) (a : App) → IsAligned a → IsGood (act x a)
unfolding act
act-IsGood (updated u) a v = (update u a, refl, update-IsAligned u a v)
act-IsGood (pressed now key) a v =
    unless_taken-IsGood key (chat_key now key a) a v (chat_key-Keeps now key a v)

-- Whatever the client pushes into the window, whatever conversations are opened or chosen in the
-- menu, and whatever keys are pressed, in any order: no conversation is read out of range, the menu
-- lists the conversations by their peers in their order, and its selection is one of them.
pub act_all-IsAligned :
    (xs : List Action) (a : App)
    → IsAligned a
    → (after : App) × (act_all xs a ≡ some after) × IsAligned after
unfolding act_all
act_all-IsAligned [] a v = (a, refl, v)
act_all-IsAligned (x ∷ xs) a v =
    let (b, e, w) = act-IsGood x a v in
    let (c, f, good) = act_all-IsAligned xs b w in
    (
      c,
      ap
            (λ (o : Option App). elim o as (λ _. Option App) [
              | none ↦ none
              | some after ↦ act_all xs after
            ])
            e
          ∙ f,
      good,
    )
