-- ===== src/Connection/Tls.antt =====
-- client/src/connection/TlsContext.cpp: the fingerprint of the server's certificate and the check of
-- its pin. The certificates and X509_digest are OpenSSL's, and parameters.
pub mod Pin
use Prim.Native.Nat.{bit_and}
use epic_1bit2qbit.Prelude.{
  ℕ, ◌/◌, ◌≡◌, not, ◌&&◌, List, [], ◌∷◌, ◌++◌, Option, none, some, get_or, ◌==◌, nat_eq, bytes_eq,
  is_empty, if◌then◌else◌,
}
use epic_1bit2qbit.Prelude.Text.{Bytes, codes}
use epic_1bit2qbit.Prelude.Result.{Result, ok, err}

-- hex[n]
abbrev pub hex_digit : ℕ → ℕ
hex_digit n = get_or (codes "0123456789abcdef") n 0

-- Two digits for each byte of the digest, the high four bits first.
unfoldable pub to_hex : Bytes → Bytes
to_hex [] = []
to_hex (b ∷ bs) = hex_digit (bit_and (b / 16) 0x0f) ∷ hex_digit (bit_and b 0x0f) ∷ to_hex bs

-- The dash of the message, in UTF-8.
abbrev em_dash : Bytes
em_dash = 0xe2 ∷ 0x80 ∷ 0x94 ∷ []

-- What the connection knows of its peer: SSL_get_verify_result with its text, and
-- SSL_get1_peer_certificate.
pub record Peer (C : Type 0) : Type 0 where
  pub verify_result : ℕ
  pub verify_text : Bytes
  pub certificate : Option C

module _ {C : Type 0} (x509_digest : C → Option Bytes) where
  fingerprint_of : Option Bytes → Result Bytes
  unfolding to_hex
  fingerprint_of none = err (codes "X509_digest failed")
  fingerprint_of (some digest) = ok (to_hex digest)

  unfoldable pub cert_sha256_fingerprint : C → Result Bytes
  unfolding fingerprint_of
  cert_sha256_fingerprint cert = fingerprint_of (x509_digest cert)

  check_pin : Bytes → Bytes → Result Bytes → Result Bytes
  check_pin host pinned_fp (err e) = err e
  check_pin host pinned_fp (ok fp) =
      if not (is_empty pinned_fp) && not (fp == pinned_fp)
      then err (
          codes "certificate pin mismatch for "
          ++ host
          ++ (32 ∷ em_dash)
          ++ codes " cert changed, possible MITM")
      else ok fp

  check_certificate : Bytes → Bytes → Option C → Result Bytes
  unfolding cert_sha256_fingerprint check_pin
  check_certificate host pinned_fp none = err (codes "no peer certificate from " ++ host)
  check_certificate host pinned_fp (some cert) =
      check_pin host pinned_fp (cert_sha256_fingerprint cert)

  -- X509_V_OK is 0.
  unfoldable pub verify_and_pin : Peer C → Bytes → Bytes → Result Bytes
  unfolding check_certificate
  verify_and_pin peer host pinned_fp =
      if not (peer.verify_result == 0)
      then err (codes "cert verify failed: " ++ peer.verify_text)
      else check_certificate host pinned_fp peer.certificate
