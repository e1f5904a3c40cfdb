-- ===== src/Client/Outbound/Pending.antt =====
-- What do_send of Client.cpp does while there is no session with the recipient.
use epic_1bit2qbit.Prelude.{
  ◌≡◌, refl, ap, sym, ◌∙◌, true, false, List, [], ◌∷◌, ◌++◌, append_assoc, append-nil, Option, none,
  some,
}
use epic_1bit2qbit.Prelude.Text.{Bytes}
use epic_1bit2qbit.Prelude.Result.{Result, ok, err}
use epic_1bit2qbit.Ui.App.{App, push_status}
use epic_1bit2qbit.Client.Maps.{lookup, assign, lookup-assign}
use epic_1bit2qbit.Client.State.{
  Client, Session, on_app, on_connection, send_over, online, is_online, try_catch, handled,
}
use epic_1bit2qbit.Client.Session.{Env}
use epic_1bit2qbit.Client.Outbound.{do_send, has_session, queue_and_request, queued}

module _ {J : Type 0} (env : Env J) (recipient : Bytes) where
  -- Connected, without a session with the recipient, and with these texts queued for it.
  pub record Waiting (texts : List Bytes) (c : Client J) : Type 0 where
    pub live : online c ≡ true
    pub fresh : has_session env recipient c ≡ false
    pub pending : queued env (lookup recipient c.pending_sends) ≡ texts

  with_link-Waiting :
      (texts : List Bytes) (c : Client J) (text : Bytes)
      → Waiting texts c
      → Waiting texts (on_connection text c).1
  unfolding on_connection send_over online is_online has_session
  with_link-Waiting texts c text w = step c.connection refl
    where
      step : (o : Option Session) → c.connection ≡ o → Waiting texts (send_over text o c).1
      step none e = w
      step (some s) e = record {
        live = ap is_online (sym e) ∙ w.live;
        fresh = w.fresh;
        pending = w.pending;
      }

  with_app-Waiting :
      (texts : List Bytes) (c : Client J) (a : App)
      → Waiting texts c
      → Waiting texts (record c { app = a })
  unfolding online has_session
  with_app-Waiting texts c a w = record { live = w.live; fresh = w.fresh; pending = w.pending }

  handled-Waiting :
      (texts : List Bytes) (r : Result (Unit {0}) × Client J) (msg : Bytes)
      → Waiting texts r.1
      → Waiting texts (handled r (λ _. on_app (push_status msg))).1
  unfolding handled on_app
  handled-Waiting texts (ok u, c) msg w = w
  handled-Waiting texts (err e, c) msg w = with_app-Waiting texts c _ w

  queue-Waiting :
      (texts : List Bytes) (text : Bytes) (c : Client J)
      → Waiting texts c
      → Waiting (texts ++ text ∷ []) (queue_and_request env recipient text c).1
  unfolding queue_and_request online has_session
  queue-Waiting texts text c w =
      with_link-Waiting (texts ++ text ∷ []) _ _
        (now (queued env (lookup recipient c.pending_sends)) w.pending)
    where
      now :
          (old : List Bytes)
          → old ≡ texts
          → Waiting
              (texts ++ text ∷ [])
              (record c { pending_sends = assign recipient (old ++ text ∷ []) c.pending_sends })
      now old e = record {
        live = w.live;
        fresh = w.fresh;
        pending =
            ap (queued env) (lookup-assign recipient (old ++ text ∷ []) c.pending_sends)
            ∙ ap (λ (before : List Bytes). before ++ text ∷ []) e;
      }

  do_send-Waiting :
      (texts : List Bytes) (text : Bytes) (c : Client J)
      → Waiting texts c
      → Waiting (texts ++ text ∷ []) (do_send env recipient text c).1
  unfolding do_send try_catch
  do_send-Waiting texts text c w =
      rw (w.live, w.fresh)
        (handled-Waiting (texts ++ text ∷ []) (queue_and_request env recipient text c) _
          (queue-Waiting texts text c w))

  unfoldable pub send_all : List Bytes → Client J → Client J
  unfolding do_send
  send_all [] c = c
  send_all (text ∷ texts) c = send_all texts (do_send env recipient text c).1

  -- While the client is connected and has no session with the recipient, the texts that the user
  -- sends are queued for it in their order, behind those queued before, and none is lost, whether
  -- or not the requests for the key bundle can be sent.
  pub send_all-Waiting :
      (texts sent : List Bytes) (c : Client J)
      → Waiting sent c
      → Waiting (sent ++ texts) (send_all texts c)
  unfolding send_all
  send_all-Waiting [] sent c w = rw (append-nil sent) w
  send_all-Waiting (text ∷ texts) sent c w = rw (← append_assoc sent (text ∷ []) texts) (
      send_all-Waiting texts (sent ++ text ∷ []) (do_send env recipient text c).1
        (do_send-Waiting sent text c w))
