-- ===== src/Client/Inbound/FirstUse.antt =====
-- The identity key of a peer whose first message has been accepted, in Client.cpp.
use mathlib.Core.Path.{subst}
use epic_1bit2qbit.Prelude.{
  ◌≡◌, refl, ap, sym, arith, ◌∙◌, ◌⊎◌, inl, inr, false, not, ◌&&◌, [], ◌∷◌, Option, none, some,
  is_empty, ◌==◌, bytes_eq, bytes_beq_iff, Bool-cases, bytes_beq_refl,
}
use epic_1bit2qbit.Prelude.Text.{Bytes, codes, c_str}
use epic_1bit2qbit.Prelude.Result.{Result, ok, err, Exec, bind_result, pure}
use epic_1bit2qbit.Messaging.Conversation.{Conversation, set_associated_data}
use epic_1bit2qbit.Messaging.Table.{select, select-replace}
use epic_1bit2qbit.Messaging.Store.{
  MessageStore, pin_identity_key, load_pinned_identity_key, save_associated_data,
  save_ratchet_state, save_encrypted_state, save_key,
}
use epic_1bit2qbit.Crypto.Pipe.{Pipe}
use epic_1bit2qbit.Crypto.Call.{get_shared_secret_passive, decrypt_initial_message}
use epic_1bit2qbit.Client.Maps.{lookup, assign, lookup-assign}
use epic_1bit2qbit.Client.State.{Client, on_app, on_store, change_store, on_crypto}
use epic_1bit2qbit.Client.Steps.{Yields, bind-Yields, then-Yields, lift-Yields}
use epic_1bit2qbit.Client.Content.{storage_encrypt, value_string, string_at}
use epic_1bit2qbit.Client.Session.{
  Env, or_new, to_json, as_value, keep_session, change_conversation, conversation_of, conv_or_throw,
}
use epic_1bit2qbit.Client.Inbound.{
  republish, accept_session, decrypt_from, open_session, choose_session,
}
use epic_1bit2qbit.Client.Inbound.Identity.{no_session}

module _ {J : Type 0} (env : Env J) (peer ik : Bytes) where
  -- The key is pinned for the peer in the store, which a restart reads, and in memory.
  abbrev pub IsPinned : Client J → Type 0
  IsPinned c =
      ((s : MessageStore) × (c.store ≡ some s)
        × (load_pinned_identity_key peer s ≡ some (c_str ik)))
      × ((conv : Conversation) × (lookup peer c.conversations ≡ some conv)
          × (conv.pinned_ik_pub ≡ ik))

  load-pin_identity_key :
      (s : MessageStore)
      → load_pinned_identity_key peer (pin_identity_key peer ik s) ≡ some (c_str ik)
  unfolding load_pinned_identity_key pin_identity_key
  load-pin_identity_key s =
      rw
        (
          select-replace (c_str peer) (c_str peer) (c_str ik) s.pinned_keys,
          bytes_beq_refl (c_str peer),
        )
        refl

  change_store-IsPinned :
      (c : Client J) (o : Option MessageStore) (conv : Conversation)
      → lookup peer c.conversations ≡ some conv
      → conv.pinned_ik_pub ≡ ik
      → Yields IsPinned (change_store (pin_identity_key peer ik) o c)
  unfolding change_store
  change_store-IsPinned c none conv known pinned = tt
  change_store-IsPinned c (some s) conv known pinned =
      ((pin_identity_key peer ik s, refl, load-pin_identity_key s), (conv, known, pinned))

  -- A change of the store that leaves the pins.
  abbrev Keeps : (MessageStore → MessageStore) → Type 0
  Keeps change = (s : MessageStore) → (change s).pinned_keys ≡ s.pinned_keys

  change_store-Yields :
      (change : MessageStore → MessageStore) (c : Client J) (o : Option MessageStore)
      → Keeps change
      → c.store ≡ o
      → IsPinned c
      → Yields IsPinned (change_store change o c)
  unfolding change_store load_pinned_identity_key
  change_store-Yields change c none k e p = tt
  change_store-Yields change c (some s) k e ((t, stored, loads), mem) =
      let same : load_pinned_identity_key peer s ≡ some (c_str ik) = cc (e, stored, loads) in
      ((change s, refl, ap (select (c_str peer)) (k s) ∙ same), mem)

  on_store-Yields :
      (change : MessageStore → MessageStore) (c : Client J)
      → Keeps change
      → IsPinned c
      → Yields IsPinned (on_store change c)
  unfolding on_store
  on_store-Yields change c k p = change_store-Yields change c c.store k refl p

  on_crypto-Yields {ℓ} :
      {A : Type ℓ} (m : Exec Pipe A) (c : Client J) → IsPinned c → Yields IsPinned (on_crypto m c)
  unfolding on_crypto
  on_crypto-Yields m c p =
      lift-Yields IsPinned (m c.crypto).0 (record c { crypto = (m c.crypto).1 }) p

  storage_encrypt-Yields :
      (text : Bytes) (c : Client J)
      → IsPinned c
      → Yields IsPinned (storage_encrypt env.lib env.codec text c)
  unfolding storage_encrypt
  storage_encrypt-Yields text c p = then-Yields IsPinned _ _ (on_crypto-Yields _ c p) (λ r d q. q)

  keep_session-Yields :
      (ad : Bytes) (ratchet_state : J) (c : Client J)
      → Yields IsPinned (keep_session env peer ad ratchet_state ik c)
  unfolding keep_session change_conversation on_store save_associated_data save_ratchet_state
      save_encrypted_state save_key
  keep_session-Yields ad ratchet_state c =
      then-Yields IsPinned _ _
        (change_store-IsPinned _ c.store _ (lookup-assign peer _ c.conversations) refl)
        (λ _ c1 p1. then-Yields IsPinned _ _ (storage_encrypt-Yields ad c1 p1) (λ ad_blob c2 p2.
          then-Yields IsPinned _ _
            (on_store-Yields (save_associated_data peer ad_blob) c2 (λ s. refl) p2)
            (λ _ c3 p3.
              then-Yields IsPinned _ _ (storage_encrypt-Yields _ c3 p3) (λ state_blob c4 p4.
                then-Yields IsPinned _ _
                  (on_store-Yields (save_ratchet_state peer state_blob) c4 (λ s. refl) p4)
                  (λ _ c5 p5. on_store-Yields _ c5 (λ s. refl) p5)))))

  abbrev text_of : J → Bytes → Result Bytes
  text_of = string_at env.lib env.codec

  accept_session-Yields :
      (x3dh dr : J) (c : Client J) → Yields IsPinned (accept_session env peer ik x3dh dr c)
  unfolding accept_session
  accept_session-Yields x3dh dr c =
      bind-Yields IsPinned
        (on_crypto (get_shared_secret_passive env.lib (to_json env c.encrypted_state) x3dh) c) _
        λ ss c1.
          bind-Yields IsPinned (env.lib.at_key ss (codes "encrypted_state"), c1) _
            λ next c2.
              bind-Yields IsPinned
                (republish env ss (record c2 { encrypted_state = as_value env next })) _
                λ _ c3.
                  bind-Yields IsPinned (text_of ss (codes "shared_secret"), c3) _
                    λ secret c4.
                      bind-Yields IsPinned (text_of ss (codes "own_ratchet_priv"), c4) _
                        λ ratchet_priv c5.
                          bind-Yields IsPinned (text_of ss (codes "associated_data"), c5) _
                            λ ad c6.
                              bind-Yields IsPinned
                                (on_crypto
                                  (decrypt_initial_message env.lib secret ratchet_priv dr ad) c6)
                                _
                                λ dec c7.
                                  bind-Yields IsPinned
                                    (change_conversation env peer (set_associated_data ad) c7) _
                                    λ _ d7.
                                      bind-Yields IsPinned
                                        (env.lib.at_key dec (codes "ratchet_state"), d7) _
                                        λ ratchet_state c8.
                                          then-Yields IsPinned _ _
                                            (keep_session-Yields ad ratchet_state c8)
                                            λ _ c9 p.
                                              lift-Yields IsPinned (text_of dec (codes "plaintext"))
                                                c9 p

  -- A pin that the key passes.
  abbrev pub Passes : Bytes → Type 0
  Passes pinned = (pinned ≡ []) ⊎ (pinned ≡ ik)

  passes : (pinned : Bytes) → (not (is_empty pinned) && not (pinned == ik)) ≡ false → Passes pinned
  passes [] h = inl refl
  passes (b ∷ bs) h = inr ((bytes_beq_iff (b ∷ bs) ik).0 (ground (arith, h)))

  -- The client after a session has been opened, and nothing where the message has been dropped.
  abbrev Opened : Bytes → Result (Option Bytes) × Client J → Type 0
  Opened pinned (ok none, c) = Unit
  Opened pinned (ok (some text), c) = Passes pinned × IsPinned c
  Opened pinned (err e, c) = Unit

  accepted-Opened :
      (pinned : Bytes) (o : Result Bytes × Client J)
      → Passes pinned
      → Yields IsPinned o
      → Opened pinned (bind_result o (λ text. pure (some text)))
  accepted-Opened pinned (ok text, c) fits p = (fits, p)
  accepted-Opened pinned (err e, c) fits p = tt

  open_session-Opened :
      (x3dh dr : J) (conv : Conversation) (c : Client J)
      → lookup peer c.conversations ≡ some conv
      → Opened conv.pinned_ik_pub (open_session env peer x3dh dr ik c)
  unfolding open_session conversation_of conv_or_throw on_app
  open_session-Opened x3dh dr conv c known =
      let pinned = conv.pinned_ik_pub in
      rw known (elim (Bool-cases (not (is_empty pinned) && not (pinned == ik))) [
        | inl differs ↦ rw differs tt
        | inr fits ↦
            rw fits
              (accepted-Opened pinned _ (passes pinned fits) (accept_session-Yields x3dh dr c))
      ])

  -- Trust on first use. A message with an X3DH header, from a sender without an established session, is
  -- decrypted only if no key is pinned for the sender or the header's identity key is the pinned
  -- one; and then that key is pinned, in memory and in the store, from which a restart loads it
  -- (up to a NUL byte). `conv` is the sender's entry, or the new one where there is none.
  pub decrypt_from-IsPinned :
      (dr x3dh : J) (text : Bytes) (conv : Conversation) (c c' : Client J)
      → or_new env peer (lookup peer c.conversations) ≡ conv
      → conv.ratchet_state ≡ []
      → value_string env.lib env.codec x3dh (codes "identity_key") ≡ ok ik
      → decrypt_from env peer dr (some x3dh) c ≡ (ok (some text), c')
      → Passes conv.pinned_ik_pub × IsPinned c'
  unfolding decrypt_from change_conversation choose_session
  decrypt_from-IsPinned dr x3dh text conv c c' entry fresh named decrypted =
      let c1 : Client J = record c { conversations = assign peer conv c.conversations } in
      let there : lookup peer c1.conversations ≡ some conv =
        lookup-assign peer conv c.conversations in
      let same : decrypt_from env peer dr (some x3dh) c ≡ open_session env peer x3dh dr ik c1 =
        rw (entry, no_session env peer conv c1 there fresh, named) refl in
      subst (Opened conv.pinned_ik_pub) (sym same ∙ decrypted)
        (open_session-Opened x3dh dr conv c1 there)
