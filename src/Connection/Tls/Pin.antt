-- ===== src/Connection/Tls/Pin.antt =====
-- What TlsContext.cpp guarantees of a connection that it accepts.
use Prim.Native.Nat.{bit_and}
use epic_1bit2qbit.Prelude.{
  ℕ, ◌+◌, ◌*◌, ◌/◌, ◌%◌, ◌<◌, ◌≡◌, refl, sym, ap, ◌∙◌, ◌⊎◌, inl, inr, ◌↔◌, [], ◌∷◌, ◌++◌, is_empty,
  false, true, Option, none, some, length, All, arith, nat_beq, Bool-cases, Option-cases,
  bytes_beq_iff, bytes_ne_of_beq, ◌≢◌, ◌==◌, nat_eq, bytes_eq, if◌then◌else◌,
}
use epic_1bit2qbit.Prelude.Text.{Bytes, codes}
use epic_1bit2qbit.Prelude.Result.{Result, ok, err}
use epic_1bit2qbit.Connection.Bits.{table, every_byte}
use epic_1bit2qbit.Connection.Tls.{
  to_hex, hex_digit, Peer, cert_sha256_fingerprint, fingerprint_of, check_pin, check_certificate,
  verify_and_pin,
}

-- A digit of the table, read back.
digit_value : ℕ → ℕ
digit_value c = if nat_beq (c / 32) 1 then c % 16 else c % 16 + 9

hex_back :
    (b : ℕ)
    → b < 256
    → digit_value (hex_digit (bit_and (b / 16) 0x0f)) * 16
        + digit_value (hex_digit (bit_and b 0x0f))
      ≡ b
unfolding digit_value table
hex_back =
    every_byte
      (λ b.
        digit_value (hex_digit (bit_and (b / 16) 0x0f)) * 16
        + digit_value (hex_digit (bit_and b 0x0f)))
      (λ b. b) refl

from_hex : Bytes → Bytes
from_hex (a ∷ b ∷ cs) = (digit_value a * 16 + digit_value b) ∷ from_hex cs
from_hex _ = []

from_hex-to_hex : (bs : Bytes) → All (λ b. b < 256) bs → from_hex (to_hex bs) ≡ bs
unfolding from_hex to_hex
from_hex-to_hex [] h = refl
from_hex-to_hex (b ∷ bs) h = cc (hex_back b h.0, from_hex-to_hex bs h.1)

length-to_hex : (bs : Bytes) → length (to_hex bs) ≡ 2 * length bs
unfolding to_hex
length-to_hex [] = omega arith
length-to_hex (b ∷ bs) = omega (arith, length-to_hex bs)

to_hex_injective :
    (xs ys : Bytes)
    → All (λ b. b < 256) xs
    → All (λ b. b < 256) ys
    → to_hex xs ≡ to_hex ys
    → xs ≡ ys
to_hex_injective xs ys hx hy e = sym (from_hex-to_hex xs hx) ∙ ap from_hex e ∙ from_hex-to_hex ys hy

module _ {C : Type 0} (x509_digest : C → Option Bytes) where
  -- A certificate was sent, its digest could be taken, and `fp` is that digest in hexadecimal.
  abbrev pub HasFingerprint : Peer C → Bytes → Bytes → Type 0
  HasFingerprint peer digest fp =
      (cert : C) × (peer.certificate ≡ some cert)
      × (x509_digest cert ≡ some digest)
      × (fp ≡ to_hex digest)

  check_pin-ok :
      (host pinned fp : Bytes) (r : Result Bytes)
      → (check_pin x509_digest host pinned r ≡ ok fp)
        ↔ ((r ≡ ok fp) × ((pinned ≡ []) ⊎ (pinned ≡ fp)))
  unfolding check_pin
  check_pin-ok host pinned fp (err e) = (λ h. cc h, λ h. h.0)
  check_pin-ok host [] fp (ok f) = (λ h. (h, inl refl), λ h. h.0)
  check_pin-ok host (p ∷ ps) fp (ok f) = elim (Bool-cases (f == (p ∷ ps))) [
    | inl same ↦
        let e = (bytes_beq_iff f (p ∷ ps)).0 same in
        (λ h. (ground (arith, same, h), inr (cc (same, h, e))), λ h. rw same h.0)
    | inr differs ↦
        let ne : f ≢ (p ∷ ps) = bytes_ne_of_beq f (p ∷ ps) differs in
        (
          λ h. absurd (ground (arith, differs, h)),
          λ h. elim h.1 [ inl e ↦ absurd (cc e) | inr e ↦ absurd (ne (cc (h.0, e))) ],
        )
  ]

  cert_fingerprint-ok :
      (c : C) (fp : Bytes)
      → (cert_sha256_fingerprint x509_digest c ≡ ok fp)
        ↔ ((digest : Bytes) × (x509_digest c ≡ some digest) × (fp ≡ to_hex digest))
  unfolding cert_sha256_fingerprint fingerprint_of
  cert_fingerprint-ok c fp = elim (Option-cases (x509_digest c)) [
    | inl none_of ↦ (λ h. absurd (ground (arith, none_of, h)), λ h. absurd (cc (none_of, h.1)))
    | inr (d, e) ↦ (λ h. (d, e, ground (arith, e, h)), λ h. ground (arith, e, h.1, h.2))
  ]

  check_certificate-ok :
      (peer : Peer C) (host pinned fp : Bytes) (cert : Option C)
      → peer.certificate ≡ cert
      → (check_certificate x509_digest host pinned cert ≡ ok fp)
        ↔ (((digest : Bytes) × HasFingerprint peer digest fp) × ((pinned ≡ []) ⊎ (pinned ≡ fp)))
  unfolding check_certificate
  check_certificate-ok peer host pinned fp none e =
      (λ h. absurd (cc h), λ h. let (d, (c, q, r, t)) = h.0 in absurd (cc (e, q)))
  check_certificate-ok peer host pinned fp (some c) e = (
    λ h.
        let (fine, pin) = (check_pin-ok host pinned fp _).0 h in
        let (d, q, r) = (cert_fingerprint-ok c fp).0 fine in ((d, (c, e, q, r)), pin),
    λ h.
        let (d, (c', q, r, t)) = h.0 in
        let same : c' ≡ c = ground (arith, e, q) in
        (check_pin-ok host pinned fp _).1
          ((cert_fingerprint-ok c fp).1 (d, sym (ap x509_digest same) ∙ r, t), h.1),
  )

  -- A connection is accepted, with the fingerprint `fp`, exactly if OpenSSL has verified the
  -- certificate chain, a certificate was sent, `fp` is its digest in hexadecimal, and the pin is
  -- either not set yet or equal to `fp`.
  pub verify_and_pin_iff :
      (peer : Peer C) (host pinned fp : Bytes)
      → (verify_and_pin x509_digest peer host pinned ≡ ok fp) ↔ (
          (peer.verify_result ≡ 0)
          × ((digest : Bytes) × HasFingerprint peer digest fp)
          × ((pinned ≡ []) ⊎ (pinned ≡ fp)))
  unfolding verify_and_pin
  verify_and_pin_iff peer host pinned fp =
      let (there, back) = check_certificate-ok peer host pinned fp peer.certificate refl in
      elim (Bool-cases (peer.verify_result == 0)) [
        | inl verified ↦ (
          λ h.
              let (who, pin) = there (ground (arith, verified, h)) in
              (ground (arith, verified), who, pin),
          λ h. rw verified (back (h.1, h.2)),
        )
        | inr refused ↦
            (λ h. absurd (ground (arith, refused, h)), λ h. absurd (ground (arith, refused, h.0)))
      ]

  abbrev pub pin_mismatch : Bytes → Bytes
  pin_mismatch host =
      codes "certificate pin mismatch for "
      ++ host
      ++ (32 ∷ 0xe2 ∷ 0x80 ∷ 0x94 ∷ [])
      ++ codes " cert changed, possible MITM"

  -- A verified certificate with another fingerprint than the pin.
  pub verify_and_pin_changed :
      (peer : Peer C) (host pinned : Bytes) (cert : C) (digest : Bytes)
      → peer.verify_result ≡ 0
      → peer.certificate ≡ some cert
      → x509_digest cert ≡ some digest
      → is_empty pinned ≡ false
      → (to_hex digest == pinned) ≡ false
      → verify_and_pin x509_digest peer host pinned ≡ err (pin_mismatch host)
  unfolding verify_and_pin check_certificate cert_sha256_fingerprint fingerprint_of check_pin
  verify_and_pin_changed peer host pinned cert digest verified sent taken set differs =
      let verified' : (peer.verify_result == 0) ≡ true = ground (arith, verified) in
      rw (verified', sent, taken, set, differs) refl

  abbrev IsDigest : (C → Option Bytes) → Type 0
  IsDigest f = (c : C) (d : Bytes) → f c ≡ some d → All (λ b. b < 256) d

  -- Pinning works: if a first connection was accepted, with or without a pin, and a later one is
  -- accepted under the fingerprint that the first returned, both servers sent certificates with
  -- the same digest. X509_digest gives bytes, and a fingerprint is not empty.
  pub verify_and_pin_same_digest :
      (first later : Peer C) (host pinned fp fp' : Bytes)
      → IsDigest x509_digest
      → fp ≢ []
      → verify_and_pin x509_digest first host pinned ≡ ok fp
      → verify_and_pin x509_digest later host fp ≡ ok fp'
      → (c c' : C) × (d : Bytes) × (first.certificate ≡ some c)
        × (later.certificate ≡ some c')
        × (x509_digest c ≡ some d)
        × (x509_digest c' ≡ some d)
  verify_and_pin_same_digest first later host pinned fp fp' bytes set h h' =
      let (_, (d, (c, p, q, r)), _) = (verify_and_pin_iff first host pinned fp).0 h in
      let (_, (d', (c', p', q', r')), pin) = (verify_and_pin_iff later host fp fp').0 h' in
      let same : fp ≡ fp' = elim pin [ inl empty ↦ absurd (set empty) | inr e ↦ e ] in
      let digests : d' ≡ d =
        to_hex_injective d' d (bytes c' d' q') (bytes c d q) (sym r' ∙ sym same ∙ r) in
      (c, c', d, p, p', q, q' ∙ ap some digests)
