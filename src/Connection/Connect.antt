-- ===== src/Connection/Connect.antt =====
-- connect of client/src/connection/Connection.cpp up to the start of its threads: tcp_connect,
-- tls_handshake and the upgrade. What Boost.Asio and OpenSSL answer is an input.
pub mod Accepted
use epic_1bit2qbit.Prelude.{
  ℕ, ◌≡◌, Bool, true, false, not, List, [], ◌∷◌, ◌++◌, Option, none, some, ◌==◌, nat_eq,
  if◌then◌else◌,
}
use epic_1bit2qbit.Prelude.Text.{Bytes, codes}
use epic_1bit2qbit.Prelude.Result.{Result, ok, err}
use epic_1bit2qbit.Connection.Channel.{Channel}
use epic_1bit2qbit.Connection.Tls.{Peer, verify_and_pin}
use epic_1bit2qbit.Connection.Handshake.{ws_handshake}

-- The answers of OpenSSL to one TLS handshake.
pub record Negotiation (C : Type 0) : Type 0 where
  -- SSL_new, SSL_set_tlsext_host_name and SSL_set1_host succeed
  pub allocated : Bool
  pub sni_set : Bool
  pub host_set : Bool
  -- SSL_connect returns 1
  pub connected : Bool
  -- the error queue
  pub errors : List Bytes
  pub peer : Peer C

-- The error queue, drained in order.
abbrev pub drain : List Bytes → Bytes
drain [] = []
drain (e ∷ es) = codes "; " ++ (e ++ drain es)

-- What the exception says of an SSL_connect that fails.
abbrev pub connect_error : {C : Type 0} → Negotiation C → Bytes
connect_error n =
    codes "SSL_connect failed"
    ++ ((if n.peer.verify_result == 0 then [] else (codes ": " ++ n.peer.verify_text))
        ++ drain n.errors)

-- The answers to one attempt to connect.
pub record Attempt (C : Type 0) : Type 0 where
  -- tcp_connect's exception, if it throws
  pub tcp : Result (Unit {0})
  pub negotiation : Negotiation C
  -- the bytes that RAND_bytes gives for the key of the upgrade
  pub random : Option Bytes
  pub channel : Channel

module _ {C : Type 0} (x509_digest : C → Option Bytes) where
  -- The fingerprint, or the exception. verify_and_pin runs only after a successful SSL_connect.
  unfoldable pub tls_handshake : Negotiation C → Bytes → Bytes → Result Bytes
  unfolding verify_and_pin
  tls_handshake n host pinned_fp =
      if not n.allocated
      then err (codes "SSL_new failed")
      else if not n.sni_set
      then err (codes "SSL_set_tlsext_host_name failed")
      else if not n.host_set
      then err (codes "SSL_set1_host failed")
      else if not n.connected
      then err (connect_error n)
      else verify_and_pin x509_digest n.peer host pinned_fp

  -- if (tls_) tls_handshake(pinned_fp); without TLS there is no fingerprint.
  secured : Bool → Negotiation C → Bytes → Bytes → Result Bytes
  unfolding tls_handshake
  secured tls n host pinned_fp = if tls then tls_handshake n host pinned_fp else ok []

  module _ (sha1 encode_block : Bytes → Bytes) where
    -- `ok none` of the upgrade says that the model's fuel ran out.
    upgraded : Bytes → Result (Option (Unit {0})) × Channel → Result (Channel × Bytes)
    upgraded fp (err e, ch) = err e
    upgraded fp (ok none, ch) = err (codes "out of fuel")
    upgraded fp (ok (some u), ch) = ok (ch, fp)

    upgrade : Attempt C → Bytes → Result Bytes → Result (Channel × Bytes)
    unfolding upgraded ws_handshake
    upgrade a host (err e) = err e
    upgrade a host (ok fp) = upgraded fp (ws_handshake sha1 encode_block host a.random a.channel)

    after_tcp : Bool → Attempt C → Bytes → Bytes → Result (Unit {0}) → Result (Channel × Bytes)
    unfolding secured upgrade
    after_tcp tls a host pinned_fp (err e) = err e
    after_tcp tls a host pinned_fp (ok u) =
        upgrade a host (secured tls a.negotiation host pinned_fp)

    -- The open channel and the fingerprint, or the exception.
    unfoldable pub connect : Bool → Attempt C → Bytes → Bytes → Result (Channel × Bytes)
    unfolding after_tcp
    connect tls a host pinned_fp = after_tcp tls a host pinned_fp a.tcp
