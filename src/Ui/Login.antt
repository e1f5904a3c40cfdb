-- ===== src/Ui/Login.antt =====
-- The login form of client/src/ui/App.cpp and the lockout after wrong PINs. A character is what
-- e.character()[0] gives; the callbacks of the client are set.
pub mod Lockout
use epic_1bit2qbit.Prelude.{
  ℕ, zero, suc, ◌+◌, ◌-◌, ◌≡◌, Bool, true, false, not, ◌&&◌, ◌||◌, List, [], ◌∷◌, ◌++◌, length, leb,
  ltb, ◌==◌, nat_eq, bytes_eq, is_empty, if◌then◌else◌,
}
use epic_1bit2qbit.Prelude.Text.{Bytes, codes, to_string}
use epic_1bit2qbit.Ui.App.{App, Call, on_login, on_register, add_call, push_status}

-- The filter before the field for the PIN: whether it swallows the character.
unfoldable pub pin_key_caught : ℕ → App → Bool
pin_key_caught c a = not (leb 48 c && leb c 57) || leb 6 (length a.login_key_pin)

-- A character typed in the field: what is not caught goes to the end of its text.
unfoldable pub type_pin : ℕ → App → App
unfolding pin_key_caught
type_pin c a =
    if pin_key_caught c a then a else record a { login_key_pin = a.login_key_pin ++ c ∷ [] }

abbrev pub form_incomplete : App → Bool
form_incomplete a =
    is_empty a.login_username || is_empty a.login_password || is_empty a.login_key_pin

unfoldable pub login_btn : App → App
login_btn a =
    if a.lockout_active
    then a
    else if form_incomplete a
    then a
    else add_call (on_login a.login_username a.login_password a.login_key_pin) a

unfoldable pub register_btn : App → App
unfolding push_status
register_btn a =
    if form_incomplete a
    then a
    else if not (length a.login_key_pin == 6)
    then push_status (codes "Key PIN must be exactly 6 digits.") a
    else if a.login_password == a.login_key_pin
    then push_status (codes "Password and Key PIN must be different.") a
    else add_call (on_register a.login_username a.login_password a.login_key_pin) a

unfoldable pub start_lockout : ℕ → App → App
start_lockout seconds a = record a { lockout_active = true; lockout_remaining = seconds }

-- The dash of the message, in UTF-8.
abbrev em_dash : Bytes
em_dash = 0xe2 ∷ 0x80 ∷ 0x94 ∷ []

-- One round of the lockout thread while the window is open: a second of waiting, or the end.
unfoldable pub lockout_round : App → App
unfolding push_status
lockout_round a =
    if not a.lockout_active
    then a
    else if ltb 0 a.lockout_remaining
    then record (push_status
        (codes "Incorrect PIN "
          ++ em_dash
          ++ codes " try again in "
          ++ to_string a.lockout_remaining
          ++ codes "s.")
        a) { lockout_remaining = a.lockout_remaining - 1 }
    else record (push_status [] a) { lockout_active = false }
