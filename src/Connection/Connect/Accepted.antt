-- ===== src/Connection/Connect/Accepted.antt =====
-- What a successful connect of Connection.cpp has checked, and how a changed certificate fails.
use epic_1bit2qbit.Prelude.{
  ◌≡◌, refl, ap, ◌⊎◌, inl, inr, Bool, true, false, [], Option, none, some, is_empty, ◌==◌, nat_eq,
  bytes_eq, arith,
}
use epic_1bit2qbit.Prelude.Text.{Bytes}
use epic_1bit2qbit.Prelude.Result.{Result, ok, err}
use epic_1bit2qbit.Connection.Channel.{Channel}
use epic_1bit2qbit.Connection.Tls.{verify_and_pin, to_hex}
use epic_1bit2qbit.Connection.Tls.Pin.{
  HasFingerprint, verify_and_pin_iff, verify_and_pin_changed, pin_mismatch,
}
use epic_1bit2qbit.Connection.Handshake.{ws_handshake}
use epic_1bit2qbit.Connection.Connect.{
  Negotiation, Attempt, tls_handshake, secured, upgraded, upgrade, after_tcp, connect,
}

module _ {C : Type 0} (x509_digest : C → Option Bytes) where
  -- Each call of OpenSSL has succeeded.
  abbrev pub IsNegotiated : Negotiation C → Type 0
  IsNegotiated n =
      (n.allocated ≡ true) × (n.sni_set ≡ true) × (n.host_set ≡ true) × (n.connected ≡ true)

  tls_handshake_ok :
      (n : Negotiation C) (host pinned fp : Bytes)
      → tls_handshake x509_digest n host pinned ≡ ok fp
      → IsNegotiated n × (verify_and_pin x509_digest n.peer host pinned ≡ ok fp)
  unfolding tls_handshake
  tls_handshake_ok n host pinned fp h = ground arith

  secured_ok :
      (tls : Bool) (n : Negotiation C) (host pinned fp : Bytes)
      → secured x509_digest tls n host pinned ≡ ok fp
      → (tls ≡ false)
        ⊎ (IsNegotiated n
            × (n.peer.verify_result ≡ 0)
            × ((digest : Bytes) × HasFingerprint x509_digest n.peer digest fp)
            × ((pinned ≡ []) ⊎ (pinned ≡ fp)))
  unfolding secured
  secured_ok false n host pinned fp h = inl refl
  secured_ok true n host pinned fp h =
      let (steps, accepted) = tls_handshake_ok n host pinned fp h in
      let (verified, digest, pin) =
        (verify_and_pin_iff x509_digest n.peer host pinned fp).0 accepted in
      inr (steps, verified, digest, pin)

  module _ (sha1 encode_block : Bytes → Bytes) where
    upgraded_ok :
        (o : Result (Option (Unit {0})) × Channel) (fp fp' : Bytes) (ch : Channel)
        → upgraded x509_digest sha1 encode_block fp o ≡ ok (ch, fp')
        → (fp ≡ fp') × (o ≡ (ok (some tt), ch))
    unfolding upgraded
    upgraded_ok (err e, c) fp fp' ch h = absurd (cc h)
    upgraded_ok (ok none, c) fp fp' ch h = absurd (cc h)
    upgraded_ok (ok (some u), c) fp fp' ch h = ground (arith, h)

    upgrade_ok :
        (a : Attempt C) (host fp : Bytes) (ch : Channel) (r : Result Bytes)
        → upgrade x509_digest sha1 encode_block a host r ≡ ok (ch, fp)
        → (r ≡ ok fp)
          × (ws_handshake sha1 encode_block host a.random a.channel ≡ (ok (some tt), ch))
    unfolding upgrade
    upgrade_ok a host fp ch (err e) h = absurd (cc h)
    upgrade_ok a host fp ch (ok fp') h =
        let (same, done) = upgraded_ok _ fp' fp ch h in (ap ok same, done)

    after_tcp_ok :
        (tls : Bool) (a : Attempt C) (host pinned fp : Bytes) (ch : Channel) (r : Result (Unit {0}))
        → after_tcp x509_digest sha1 encode_block tls a host pinned r ≡ ok (ch, fp)
        → (r ≡ ok tt)
          × (secured x509_digest tls a.negotiation host pinned ≡ ok fp)
          × (ws_handshake sha1 encode_block host a.random a.channel ≡ (ok (some tt), ch))
    unfolding after_tcp
    after_tcp_ok tls a host pinned fp ch (err e) h = absurd (cc h)
    after_tcp_ok tls a host pinned fp ch (ok u) h =
        let (fine, done) = upgrade_ok a host fp ch _ h in (refl, fine, done)

    -- A connection is returned, with the fingerprint `fp`, only if the TCP connection and the upgrade
    -- succeeded, and, where it is over TLS, the handshake did, OpenSSL has verified the certificate
    -- chain, `fp` is the digest of the certificate that was sent, in hexadecimal, and the pin is not
    -- set or is `fp`.
    pub connect-Accepted :
        (tls : Bool) (a : Attempt C) (host pinned fp : Bytes) (ch : Channel)
        → connect x509_digest sha1 encode_block tls a host pinned ≡ ok (ch, fp)
        → (a.tcp ≡ ok tt)
          × (ws_handshake sha1 encode_block host a.random a.channel ≡ (ok (some tt), ch))
          × ((tls ≡ false)
              ⊎ (IsNegotiated a.negotiation
                  × (a.negotiation.peer.verify_result ≡ 0)
                  × ((digest : Bytes) × HasFingerprint x509_digest a.negotiation.peer digest fp)
                  × ((pinned ≡ []) ⊎ (pinned ≡ fp))))
    unfolding connect
    connect-Accepted tls a host pinned fp ch h =
        let (opened, secure, switched) = after_tcp_ok tls a host pinned fp ch a.tcp h in
        (opened, switched, secured_ok tls a.negotiation host pinned fp secure)

    -- A server whose certificate is verified but not the pinned one.
    pub connect_changed :
        (a : Attempt C) (host pinned : Bytes) (cert : C) (digest : Bytes)
        → a.tcp ≡ ok tt
        → IsNegotiated a.negotiation
        → a.negotiation.peer.verify_result ≡ 0
        → a.negotiation.peer.certificate ≡ some cert
        → x509_digest cert ≡ some digest
        → is_empty pinned ≡ false
        → (to_hex digest == pinned) ≡ false
        → connect x509_digest sha1 encode_block true a host pinned
          ≡ err (pin_mismatch x509_digest host)
    unfolding connect after_tcp secured tls_handshake upgrade
    connect_changed a host pinned cert digest opened steps verified sent taken set differs =
        let refused =
          verify_and_pin_changed x509_digest a.negotiation.peer host pinned cert digest verified
            sent taken set differs in
        rw (opened, steps.0, steps.1, steps.2, steps.3, refused) refl
