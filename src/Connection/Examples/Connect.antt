-- ===== src/Connection/Examples/Connect.antt =====
-- A concrete attempt to connect.
use epic_1bit2qbit.Prelude.{◌≡◌, ◌⊎◌, refl, true, false, [], ◌∷◌, ◌++◌, Option, some, bytes_beq}
use epic_1bit2qbit.Prelude.Text.{Bytes, codes, starts_with, find, rfind, includes}
use epic_1bit2qbit.Prelude.Result.{ok}
use epic_1bit2qbit.Connection.Channel.{
  Channel, got, read_loop, ssl_read_exact, write_loop, ssl_write_all,
}
use epic_1bit2qbit.Connection.Tls.{verify_and_pin, cert_sha256_fingerprint, to_hex}
use epic_1bit2qbit.Connection.Tls.Pin.{HasFingerprint}
use epic_1bit2qbit.Connection.Handshake.{
  ws_handshake, crlf, ws_header_value, ws_compute_accept, ws_key_base64, read_response, trim_front,
  trim_back,
}
use epic_1bit2qbit.Connection.Connect.{Attempt, connect, tls_handshake}
use epic_1bit2qbit.Connection.Connect.Accepted.{IsNegotiated, connect-Accepted}

abbrev digest : Bytes → Option Bytes
digest cert = some cert

abbrev constant : Bytes → Bytes
constant b = codes "k"

abbrev attempt : Attempt Bytes
attempt = record {
  tcp = ok tt;
  negotiation = record {
    allocated = true;
    sni_set = true;
    host_set = true;
    connected = true;
    errors = [];
    peer = record { verify_result = 0; verify_text = []; certificate = some (1 ∷ 255 ∷ []) };
  };
  random = some (codes "k");
  channel = record {
    incoming =
        got 72 (codes "TTP/1.1 101 OK" ++ crlf ++ codes "Sec-WebSocket-Accept: k" ++ crlf ++ crlf)
        ∷ [];
    outgoing = [];
    random = [];
    sent = [];
  };
}

abbrev opened : Channel
opened = (ws_handshake constant constant (codes "host") (some (codes "k")) attempt.channel).1

connected :
    connect digest constant constant true attempt (codes "host") (codes "01ff")
    ≡ ok (opened, codes "01ff")
unfolding connect tls_handshake verify_and_pin cert_sha256_fingerprint to_hex ws_handshake
    ws_header_value ws_compute_accept ws_key_base64 read_response trim_front trim_back read_loop
    ssl_read_exact write_loop ssl_write_all starts_with find rfind bytes_beq includes
connected = refl

connect-Accepted_example :
    (attempt.tcp ≡ ok tt)
    × (ws_handshake constant constant (codes "host") (some (codes "k")) attempt.channel
        ≡ (ok (some tt), opened))
    × ((true ≡ false)
        ⊎ (IsNegotiated digest attempt.negotiation
            × (attempt.negotiation.peer.verify_result ≡ 0)
            × ((d : Bytes) × HasFingerprint digest attempt.negotiation.peer d (codes "01ff"))
            × ((codes "01ff" ≡ []) ⊎ (codes "01ff" ≡ codes "01ff"))))
connect-Accepted_example =
    connect-Accepted digest constant constant true attempt (codes "host") (codes "01ff")
      (codes "01ff") opened connected
