-- ===== src/Client/Inbound/Delivery/Frame.antt =====
-- A chat frame from its sender through the server, in client/src/client/Client.cpp and, for a frame
-- that the server accepts, server/backend/handlers/messaging.py.
use epic_1bit2qbit.Prelude.{suc, ◌≡◌, refl, [], ◌∷◌, ◌++◌, Option, none, some, bytes_eq, bytes_beq}
use epic_1bit2qbit.Prelude.Text.{Bytes, codes, to_string}
use epic_1bit2qbit.Prelude.Result.{Result, ok, err}
use epic_1bit2qbit.Messaging.Message.{MessageType}
use epic_1bit2qbit.Crypto.Json.Laws.{IsJson}
use epic_1bit2qbit.Connection.Channel.{Channel}
use epic_1bit2qbit.Connection.Frame.{send_text}
use epic_1bit2qbit.Client.State
use epic_1bit2qbit.Client.State.{
  on_connection, send_over, Client, on_app, on_store, change_store, from_store, ask_store,
  on_crypto, read_clock, try_catch, handled,
}
use epic_1bit2qbit.Client.Content.{new_mid, content_to_message}
use epic_1bit2qbit.Client.Content.Codec.{IsBase64}
use epic_1bit2qbit.Client.Session.{
  ratchet_encrypt, send_chat_frame, record_sent, encrypt_and_send_typed, Env, chat_frame, envelope,
}

module _ {J : Type 0} (env : Env J) where
  -- What the server makes of a frame of `sender` that it accepts: a DeliverMessageFrame with the
  -- ciphertext and the mid as they are.
  unfoldable pub delivered : Bytes → J → J → J
  delivered sender ciphertext mid = env.lib.object (
      (codes "type", env.lib.text (codes "deliver_message"))
      ∷ (codes "sender", env.lib.text sender)
      ∷ (codes "ciphertext", ciphertext)
      ∷ (codes "mid", mid)
      ∷ [])

  unfoldable pub with_mid : Bytes → Result J → Result J → Result J
  with_mid sender (ok ciphertext) (ok mid) = ok (delivered sender ciphertext mid)
  with_mid sender (ok ciphertext) (err e) = err e
  with_mid sender (err e) mid = err e

  unfoldable pub with_frame : Bytes → Result J → Result J
  with_frame sender (err e) = err e
  with_frame sender (ok frame) =
      with_mid sender (env.lib.at_key frame (codes "ciphertext"))
        (env.lib.at_key frame (codes "mid"))

  abbrev pub relay : Bytes → Bytes → Result J
  relay sender text = with_frame sender (env.lib.parse text)

  abbrev pub mid_of : Client J → Bytes → Bytes
  mid_of c peer =
      c.current_user ++ codes ":" ++ peer ++ codes ":" ++ to_string (env.time c.readings)

  -- The sender's client once the frame is on its connection.
  unfoldable pub with_sent : State.Session → Channel → Client J → Client J
  with_sent session ch c = record c {
    readings = suc c.readings;
    connection = some (record session { channel = ch });
  }

  pub encrypt_and_send_typed-sent :
      (recipient body : Bytes) (type : MessageType) (dr : J) (session : State.Session)
      (ch : Channel) (a a' : Client J)
      → ratchet_encrypt env recipient (content_to_message env.lib env.codec body type []) a
        ≡ (ok dr, a')
      → a'.connection ≡ some session
      → send_text session.connected
          (env.lib.dump (chat_frame env recipient dr none (mid_of a' recipient)))
          session.channel
        ≡ (ok tt, ch)
      → encrypt_and_send_typed env recipient body type a
        ≡ record_sent env recipient body type
            (env.lib.dump (envelope env dr none))
            (mid_of a' recipient)
            (with_sent session ch a')
  unfolding encrypt_and_send_typed with_sent new_mid read_clock send_chat_frame on_connection
      send_over
  encrypt_and_send_typed-sent recipient body type dr session ch a a' enc online sent =
      rw (enc, online, sent) refl

module _ {J : Type 0} (env : Env J) (json : IsJson env.lib) (base64 : IsBase64 env.codec) where
  pub relay-chat_frame :
      (sender recipient mid : Bytes) (dr : J) (x3dh : Option J)
      → relay env sender (env.lib.dump (chat_frame env recipient dr x3dh mid))
        ≡ ok (
            delivered env sender
              (env.lib.text (env.lib.dump (envelope env dr x3dh)))
              (env.lib.text mid))
  unfolding with_frame with_mid bytes_beq
  relay-chat_frame sender recipient mid dr x3dh =
      rw
        (
          json.parse-dump (chat_frame env recipient dr x3dh mid),
          json.at_key-object _ (codes "ciphertext") _ refl,
          json.at_key-object _ (codes "mid") _ refl,
        )
        refl
