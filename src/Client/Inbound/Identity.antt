-- ===== src/Client/Inbound/Identity.antt =====
-- The check of a peer's identity key in on_deliver_message of Client.cpp.
use epic_1bit2qbit.Prelude.{
  ◌≡◌, ◌≢◌, refl, ap, ◌∙◌, false, not, [], none, some, is_empty, ◌==◌, bytes_eq, bytes_beq_iff,
  Bool-cases, inl, inr,
}
use epic_1bit2qbit.Prelude.Text.{Bytes, codes}
use epic_1bit2qbit.Prelude.Result.{ok}
use epic_1bit2qbit.Messaging.Conversation.{Conversation}
use epic_1bit2qbit.Ui.App.{push_status}
use epic_1bit2qbit.Client.Maps.{lookup, assign, lookup-assign}
use epic_1bit2qbit.Client.State.{Client, on_app}
use epic_1bit2qbit.Client.Content.{value_string}
use epic_1bit2qbit.Client.Session.{Env, conversation_of, conv_or_throw, change_conversation}
use epic_1bit2qbit.Client.Outbound.{has_session, has_session_in}
use epic_1bit2qbit.Client.Inbound.{decrypt_from, choose_session, open_session, key_warning}

refused :
    {J : Type 0} (env : Env J) (sender peer_ik : Bytes) (dr x3dh : J) (conv : Conversation)
    (c : Client J)
    → lookup sender c.conversations ≡ some conv
    → is_empty conv.pinned_ik_pub ≡ false
    → conv.pinned_ik_pub ≢ peer_ik
    → open_session env sender x3dh dr peer_ik c
      ≡ (ok none, record c { app = push_status (key_warning sender) c.app })
unfolding open_session conversation_of conv_or_throw on_app
refused env sender peer_ik dr x3dh conv c known pinned other =
    let differs : (conv.pinned_ik_pub == peer_ik) ≡ false =
      beq_of_ne conv.pinned_ik_pub peer_ik other in
    rw (known, pinned, differs) refl
  where
    beq_of_ne : (x y : Bytes) → x ≢ y → (x == y) ≡ false
    beq_of_ne x y ne = elim (Bool-cases (x == y)) [
      | inl same ↦ absurd (ne ((bytes_beq_iff x y).0 same))
      | inr differs ↦ differs
    ]

pub no_session :
    {J : Type 0} (env : Env J) (sender : Bytes) (conv : Conversation) (c : Client J)
    → lookup sender c.conversations ≡ some conv
    → conv.ratchet_state ≡ []
    → has_session env sender c ≡ false
unfolding has_session has_session_in
no_session env sender conv c there fresh =
    ap (has_session_in env) there ∙ ap (λ (s : Bytes). not (is_empty s)) fresh

chosen :
    {J : Type 0} (env : Env J) (sender peer_ik : Bytes) (dr x3dh : J) (c : Client J)
    → has_session env sender c ≡ false
    → value_string env.lib env.codec x3dh (codes "identity_key") ≡ ok peer_ik
    → choose_session env sender dr (some x3dh) c ≡ open_session env sender x3dh dr peer_ik c
unfolding choose_session
chosen env sender peer_ik dr x3dh c fresh named = rw (fresh, named) refl

-- A first message whose X3DH header names another identity key than the one pinned for its sender,
-- where no session is established, is dropped: nothing is decrypted, stored or sent, the key
-- material, the pinned key and the store stay as they are, and the window says so.
pub decrypt_from-changed_key :
    {J : Type 0} (env : Env J) (sender peer_ik : Bytes) (dr x3dh : J) (conv : Conversation)
    (c : Client J)
    → lookup sender c.conversations ≡ some conv
    → conv.ratchet_state ≡ []
    → is_empty conv.pinned_ik_pub ≡ false
    → conv.pinned_ik_pub ≢ peer_ik
    → value_string env.lib env.codec x3dh (codes "identity_key") ≡ ok peer_ik
    → decrypt_from env sender dr (some x3dh) c ≡ (
      ok none,
      record c {
        conversations = assign sender conv c.conversations;
        app = push_status (key_warning sender) c.app;
      },
    )
unfolding decrypt_from change_conversation
decrypt_from-changed_key env sender peer_ik dr x3dh conv c known fresh pinned other named =
    let c1 : Client _ = record c { conversations = assign sender conv c.conversations } in
    let there : lookup sender c1.conversations ≡ some conv =
      lookup-assign sender conv c.conversations in
    rw known (
      chosen env sender peer_ik dr x3dh c1 (no_session env sender conv c1 there fresh) named
      ∙ refused env sender peer_ik dr x3dh conv c1 there pinned other)
