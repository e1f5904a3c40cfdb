-- ===== src/Client/Outbound/Ends.antt =====
-- How a session ends in Client.cpp: by do_logout, by abort_login_session, or by an unexpected drop.
use epic_1bit2qbit.Prelude.{◌≡◌, refl, false, [], ◌∷◌, ◌++◌, none, if-false}
use epic_1bit2qbit.Prelude.Text.{Bytes, codes}
use epic_1bit2qbit.Ui.App.{App, return_to_login, push_status}
use epic_1bit2qbit.Client.State.{Client, Session, online, on_app}
use epic_1bit2qbit.Client.Session.{Env}
use epic_1bit2qbit.Client.Outbound.{do_send, do_forward, on_disconnect, drop_session}

-- No user, no encrypted DEK, no X3DH state, no store, no conversation, nothing queued, no live
-- connection.
abbrev pub HasForgotten : {J : Type 0} → Client J → Type 0
HasForgotten c =
    (c.current_user ≡ [])
    × (c.encrypted_dek ≡ none)
    × (c.encrypted_state ≡ none)
    × (c.store ≡ none)
    × (c.conversations ≡ [])
    × (c.pending_sends ≡ [])
    × (online c ≡ false)

dropped :
    {J : Type 0} (c : Client J) (reason : Bytes)
    → c.quit ≡ false
    → on_disconnect reason c ≡ drop_session reason c
unfolding on_disconnect
dropped c reason running = if-false c.quit _ _ running

-- The window shows the login screen, with nothing of the session.
abbrev pub IsAtLogin : App → Type 0
IsAtLogin a =
    (a.active_screen ≡ 0)
    × (a.conversations ≡ [])
    × (a.conv_names ≡ [])
    × (a.local_username ≡ [])
    × (a.compose_text ≡ [])

abbrev pub log_in_first : Bytes
log_in_first = codes "Not connected " ++ (0xe2 ∷ 0x80 ∷ 0x94 ∷ []) ++ codes " log in first."

-- A text for a recipient, written or forwarded, is neither sent nor queued: the status line says so.
abbrev pub Refuses : {J : Type 0} → Env J → Bytes → Bytes → Client J → Type 0
Refuses env recipient text c =
    (do_send env recipient text c ≡ on_app (push_status log_in_first) c)
    × (do_forward env recipient text c ≡ on_app (push_status log_in_first) c)

-- What each end of a session makes sure of.
abbrev pub HasEnded : {J : Type 0} → Env J → Bytes → Bytes → Client J → Type 0
HasEnded env recipient text c = HasForgotten c × Refuses env recipient text c

-- The reason of a drop is never seen: it is put into the status line, and the return to the login
-- screen, which comes after it, clears that line.
pub on_disconnect_status :
    {J : Type 0} (c : Client J) (reason : Bytes)
    → c.quit ≡ false
    → (on_disconnect reason c).app.status_msg ≡ []
unfolding drop_session return_to_login
on_disconnect_status c reason running = rw (dropped c reason running) refl
