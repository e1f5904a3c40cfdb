-- ===== src/Client/Register.antt =====
-- do_register of client/src/client/Client.cpp. The exchange with the server, the opening of the user's
-- store and the attempt of connect() are inputs.
pub mod Refused
use epic_1bit2qbit.Prelude.{
  ℕ, suc, ◌&&◌, ◌||◌, Bool, true, false, not, [], ◌∷◌, ◌++◌, Option, none, some, nat_beq, ◌==◌,
  bytes_eq, if◌then◌else◌,
}
use epic_1bit2qbit.Prelude.Int.{ℤ, pos, negsuc}
use epic_1bit2qbit.Prelude.Text.{Bytes, codes, to_string, includes}
use epic_1bit2qbit.Prelude.Result.{Result, ok, err, Exec, pure, throw_if, modify, lift, ◌>>=◌, ◌>>◌}
use epic_1bit2qbit.Messaging.Schema.{open_store, close_store}
use epic_1bit2qbit.Messaging.Store.{MessageStore, save_dek, save_encrypted_state}
use epic_1bit2qbit.Crypto.Call.{create_dek, create_state}
use epic_1bit2qbit.Ui.App.{push_status}
use epic_1bit2qbit.Client.State.{Client, on_app, on_store, on_crypto, try_catch}
use epic_1bit2qbit.Client.Session.{Env, as_value}
use epic_1bit2qbit.Client.Https.{Exchange, HttpResponse, https_post}
use epic_1bit2qbit.Client.Login.{Connecting, do_login}

-- std::to_string of an int, and `resp.status == n`.
abbrev pub int_to_string : ℤ → Bytes
int_to_string (pos n) = to_string n
int_to_string (negsuc n) = codes "-" ++ to_string (suc n)

abbrev pub is_status : ℕ → ℤ → Bool
is_status n (pos m) = nat_beq m n
is_status n (negsuc m) = false

abbrev pub same_secret : Bytes
same_secret = codes "Registration failed: authentication password and Key PIN must be different."

abbrev pub register_failure : Bytes → Bytes
register_failure raw =
    if includes (codes "already taken") raw
    then codes "Username already taken "
      ++ (0xe2 ∷ 0x80 ∷ 0x94 ∷ [])
      ++ codes " choose a different one."
    else if includes (codes "HTTP") raw
    then codes "Registration failed: server error. Try again later."
    else if includes (codes "SSL") raw || includes (codes "refused") raw
    then codes "Could not reach server "
      ++ (0xe2 ∷ 0x80 ∷ 0x94 ∷ [])
      ++ codes " check your network."
    else codes "Registration failed: " ++ raw

module _ {J : Type 0} (env : Env J) where
  abbrev pub reg_body : Bytes → Bytes → Bytes
  reg_body username auth_password = env.lib.dump (
      env.lib.object (
        (codes "username", env.lib.text username)
        ∷ (codes "password", env.lib.text auth_password)
        ∷ []))

  -- What is done under the server's confirmation.
  make_keys : Result MessageStore → Bytes → Bytes → Exec (Client J) (Unit {0})
  make_keys opened username key_pin = do
    store ← lift opened
    _ ← modify (λ c. record c { store = some store })
    made ← on_crypto (create_dek env.lib key_pin username)
    dek ← lift (env.lib.at_key made (codes "encrypted_dek"))
    _ ← modify (λ c. record c { encrypted_dek = as_value env dek })
    created ← on_crypto (create_state env.lib)
    state ← lift (env.lib.at_key created (codes "encrypted_state"))
    _ ← modify (λ c. record c { encrypted_state = as_value env state; current_user = username })
    _ ← on_store (save_dek username (env.lib.dump dek))
    on_store (save_encrypted_state username (env.lib.dump state))

  register_steps :
      Result HttpResponse → Result MessageStore → Bytes → Bytes → Exec (Client J) (Unit {0})
  unfolding make_keys
  register_steps answer opened username key_pin = do
    resp ← lift answer
    _ ← throw_if (is_status 409 resp.status) (codes "username already taken")
    _ ←
        throw_if (not (is_status 201 resp.status))
          (codes "server returned HTTP " ++ int_to_string resp.status)
    make_keys opened username key_pin

  -- do_login opens the user's file again, as the registration has left it.
  reopened : Result MessageStore → Option MessageStore → Result MessageStore
  unfolding open_store
  reopened opened none = opened
  reopened opened (some s) = open_store env.db (some (close_store s))

  log_in :
      Bytes
      → Result MessageStore
      → Connecting env
      → Bytes
      → Bytes
      → Bytes
      → Bool
      → Exec (Client J) (Unit {0})
  unfolding do_login reopened
  log_in host opened connect username auth_password key_pin false c = (ok tt, c)
  log_in host opened connect username auth_password key_pin true c =
      do_login env host (reopened opened c.store) connect username auth_password key_pin c

  unfoldable pub do_register :
      {C : Type 0}
      → Bytes
      → Exchange C
      → Result MessageStore
      → Connecting env
      → Bytes
      → Bytes
      → Bytes
      → Exec (Client J) (Unit {0})
  unfolding register_steps log_in https_post push_status
  do_register host x opened connect username auth_password key_pin c =
      if auth_password == key_pin
      then on_app (push_status same_secret) c
      else (let answer =
              (https_post x host (codes "/backend/register") (reg_body username auth_password)).1 in
            try_catch (register_steps answer opened username key_pin >> pure true)
              (λ e. (on_app (push_status (register_failure e)) >> pure false))
            >>= log_in host opened connect username auth_password key_pin)
          c
