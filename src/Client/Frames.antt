-- ===== src/Client/Frames.antt =====
-- handle_ws_frame of client/src/client/Client.cpp: which operation a frame of the server calls.
use epic_1bit2qbit.Prelude.{
  ℕ, ◌+◌, ◌-◌, not, ◌&&◌, [], ◌++◌, Option, none, some, is_empty, take, drop, ltb, ◌==◌, bytes_eq,
  if◌then◌else◌,
}
use epic_1bit2qbit.Prelude.Text.{Bytes, codes, rfind}
use epic_1bit2qbit.Prelude.Result.{Result, ok, err, Exec, pure, modify, lift, ◌>>=◌, ◌>>◌}
use epic_1bit2qbit.Messaging.Conversation.{Conversation}
use epic_1bit2qbit.Ui.App.{push_status, remove_conversation}
use epic_1bit2qbit.Client.Maps.{Map, lookup, erase}
use epic_1bit2qbit.Client.State.{Client, on_app}
use epic_1bit2qbit.Client.Content.{value_string}
use epic_1bit2qbit.Client.Session.{Env}
use epic_1bit2qbit.Client.Inbound.{on_deliver_message, on_key_bundle_response}
use epic_1bit2qbit.Client.Unlock.{login_confirmed}

-- detail.rfind('\'', close - 1): a quote at or before that position
abbrev quote_before : Bytes → ℕ → Option ℕ
quote_before detail close = rfind 39 (take close detail)

inside_quotes : Bytes → Option ℕ → Bytes
inside_quotes detail none = []
inside_quotes detail (some close) =
    if ltb 0 close
    then elim (quote_before detail close) [
      | none ↦ []
      | some first ↦
          if ltb first (close - 1) then take (close - first - 1) (drop (first + 1) detail) else []
    ]
    else []

-- The name between the last two quotes of the text.
unfoldable pub quoted_name : Bytes → Bytes
unfolding inside_quotes
quoted_name detail = inside_quotes detail (rfind 39 detail)

drop_if_unused : Bytes → Option Conversation → Map Conversation → Map Conversation
unfolding erase
drop_if_unused target none m = m
drop_if_unused target (some conv) m = if is_empty conv.messages then erase target m else m

module _ {J : Type 0} (env : Env J) where
  -- The peer does not exist: what was queued for it goes, and its conversation if it has no message.
  unfoldable pub peer_not_found : Bytes → Exec (Client J) (Unit {0})
  unfolding drop_if_unused lookup erase push_status remove_conversation
  peer_not_found target =
      modify (λ c. record c {
        pending_sends = erase target c.pending_sends;
        conversations = drop_if_unused target (lookup target c.conversations) c.conversations;
      })
      >> (on_app (remove_conversation target)
          >> on_app (push_status (codes "User '" ++ target ++ codes "' not found.")))

  target_of : J → Bytes → Result Bytes
  unfolding quoted_name
  target_of frame detail = elim (value_string env.lib env.codec frame (codes "target")) [
    | err e ↦ err e
    | ok target ↦ ok (if is_empty target then quoted_name detail else target)
  ]

  unfoldable pub on_error : J → Exec (Client J) (Unit {0})
  unfolding target_of peer_not_found
  on_error frame = lift (value_string env.lib env.codec frame (codes "code")) >>= λ code.
      (lift (value_string env.lib env.codec frame (codes "detail")) >>= λ detail.
      (if code == codes "no_key_bundle"
        then (lift (target_of frame detail) >>= λ target.
            (if is_empty target then pure tt else peer_not_found target))
        else pure tt))

  dispatch : J → Bytes → Exec (Client J) (Unit {0})
  unfolding on_error on_deliver_message on_key_bundle_response login_confirmed
  dispatch frame type =
      if env.lib.contains frame (codes "username") && not (env.lib.contains frame (codes "type"))
      then (lift (value_string env.lib env.codec frame (codes "username")) >>= login_confirmed env)
      else if type == codes "deliver_message"
      then on_deliver_message env frame
      else if type == codes "key_bundle_response"
      then on_key_bundle_response env frame
      else if type == codes "error"
      then on_error frame
      else pure tt

  parsed_frame : Result J → Exec (Client J) (Unit {0})
  unfolding dispatch
  parsed_frame (err e) = on_app (push_status (codes "Received malformed frame from server."))
  parsed_frame (ok frame) =
      lift (value_string env.lib env.codec frame (codes "type")) >>= dispatch frame

  unfoldable pub handle_ws_frame : Bytes → Exec (Client J) (Unit {0})
  unfolding parsed_frame
  handle_ws_frame json_frame = parsed_frame (env.lib.parse json_frame)
