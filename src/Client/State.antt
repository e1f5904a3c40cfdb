-- ===== src/Client/State.antt =====
-- The members of Client, of client/src/client/Client.h, and the use that its operations make of
-- the parts that it owns. An exception leaves what has been changed before it.
use epic_1bit2qbit.Prelude.{ℕ, suc, Bool, false, List, Option, none, some}
use epic_1bit2qbit.Prelude.Text.{Bytes, codes}
use epic_1bit2qbit.Prelude.Result.{Result, ok, err, Exec, modify}
use epic_1bit2qbit.Messaging.Conversation.{Conversation}
use epic_1bit2qbit.Messaging.Store.{MessageStore}
use epic_1bit2qbit.Connection.Channel.{Channel}
use epic_1bit2qbit.Connection.Frame.{send_text}
use epic_1bit2qbit.Crypto.Pipe.{Pipe}
use epic_1bit2qbit.Ui.App.{App}
use epic_1bit2qbit.Client.Maps.{Map}

-- The connection, as far as the client uses it: is_connected() and the bytes.
pub record Session : Type 0 where
  pub connected : Bool
  pub channel : Channel

pub record Client (J : Type 0) : Type 0 where
  pub current_user : Bytes
  pub pin_fail_count : ℕ
  pub pending_key_pin : Bytes
  pub quit : Bool
  -- `none` is a null value
  pub encrypted_dek : Option J
  pub encrypted_state : Option J
  pub server_cert_pin : Bytes
  pub conversations : Map Conversation
  pub pending_sends : Map (List Bytes)
  pub connection : Option Session
  pub crypto : Pipe
  pub store : Option MessageStore
  pub app : App
  -- how often the clock has been read
  pub readings : ℕ
  -- abort_login_session() has been posted to the event loop
  pub abort_posted : Bool

-- A use of a null pointer is undefined in the source, and an error here.
abbrev pub null_pointer : Bytes
null_pointer = codes "null pointer"

unfoldable pub is_online : Option Session → Bool
is_online none = false
is_online (some s) = s.connected

module _ {J : Type 0} where
  unfoldable pub on_app : (App → App) → Exec (Client J) (Unit {0})
  on_app change = modify λ c. record c { app = change c.app }

  unfoldable pub change_store :
      (MessageStore → MessageStore) → Option MessageStore → Exec (Client J) (Unit {0})
  change_store change none c = (err null_pointer, c)
  change_store change (some s) c = (ok tt, record c { store = some (change s) })

  -- store_->...
  unfoldable pub on_store : (MessageStore → MessageStore) → Exec (Client J) (Unit {0})
  unfolding change_store
  on_store change c = change_store change c.store c

  unfoldable pub ask_store {ℓ} :
      {A : Type ℓ} → (MessageStore → A × MessageStore) → Option MessageStore → Exec (Client J) A
  ask_store ask none c = (err null_pointer, c)
  ask_store ask (some s) c = let (a, s') = ask s in (ok a, record c { store = some s' })

  unfoldable pub from_store {ℓ} :
      {A : Type ℓ} → (MessageStore → A × MessageStore) → Exec (Client J) A
  unfolding ask_store
  from_store ask c = ask_store ask c.store c

  -- crypto_->...
  unfoldable pub on_crypto {ℓ} : {A : Type ℓ} → Exec Pipe A → Exec (Client J) A
  on_crypto m c = let (r, p) = m c.crypto in (r, record c { crypto = p })

  unfoldable pub send_over : Bytes → Option Session → Exec (Client J) (Unit {0})
  unfolding send_text
  send_over text none c = (err null_pointer, c)
  send_over text (some s) c =
      let (r, ch) = send_text s.connected text s.channel in
      (r, record c { connection = some (record s { channel = ch }) })

  -- connection_->send_text(text)
  unfoldable pub on_connection : Bytes → Exec (Client J) (Unit {0})
  unfolding send_over
  on_connection text c = send_over text c.connection c

  -- connection_ && connection_->is_connected()
  unfoldable pub online : Client J → Bool
  unfolding is_online
  online c = is_online c.connection

  -- system_clock::now(), in milliseconds: the readings are an input.
  unfoldable pub read_clock : (ℕ → ℕ) → Exec (Client J) ℕ
  read_clock time c = (ok (time c.readings), record c { readings = suc c.readings })

  unfoldable pub handled {ℓ} :
      {A : Type ℓ} → Result A × Client J → (Bytes → Exec (Client J) A) → Result A × Client J
  handled (ok a, c) recover = (ok a, c)
  handled (err e, c) recover = recover e c

  -- try { m } catch (const std::exception& e) { recover(e.what()) }
  unfoldable pub try_catch {ℓ} :
      {A : Type ℓ} → Exec (Client J) A → (Bytes → Exec (Client J) A) → Exec (Client J) A
  unfolding handled
  try_catch m recover c = handled (m c) recover
