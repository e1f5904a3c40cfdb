-- ===== src/Connection/Examples.antt =====
-- Concrete runs of Connection.cpp and TlsContext.cpp.
mod Connect
use epic_1bit2qbit.Prelude.{
  ◌≢◌, suc, ◌<◌, ◌≤◌, ◌≡◌, ◌↔◌, ◌⊎◌, refl, inl, inr, true, false, List, [], ◌∷◌, ◌++◌, Option, some,
  length, arith, All, bytes_beq,
}
use epic_1bit2qbit.Prelude.Text.{Bytes, codes, starts_with}
use epic_1bit2qbit.Prelude.Result.{Result, ok, err}
use epic_1bit2qbit.Connection.Channel.{
  Channel, SslRead, got, SslWrite, wrote, Mask, ssl_read_exact, ssl_write_all,
}
use epic_1bit2qbit.Connection.Channel.Reading.{flat, ssl_read_exact_lem}
use epic_1bit2qbit.Connection.Channel.Writing.{ssl_write_all_lem, Written}
use epic_1bit2qbit.Connection.Frame.{
  Frame, encode_with, read_frame, ws_decode_frame, max_frame_payload,
}
use epic_1bit2qbit.Connection.Frame.Encode.{server_read, server_read-encode_with}
use epic_1bit2qbit.Connection.Frame.Server.{server_frame, read_frame-server_frame, IsAllowed}
use epic_1bit2qbit.Connection.Frame.Decode.{fragment, ping, server_bytes, message_text, pongs}
use epic_1bit2qbit.Connection.Frame.Messages.{ws_decode_frame-message}
use epic_1bit2qbit.Connection.Frame.Limits.{ws_decode_frame_bounded}
use epic_1bit2qbit.Connection.Tls.{Peer, verify_and_pin, to_hex}
use epic_1bit2qbit.Connection.Tls.Pin.{
  verify_and_pin_iff, verify_and_pin_same_digest, HasFingerprint,
}
use epic_1bit2qbit.Connection.Handshake.{
  ws_handshake, ws_header_value, ws_compute_accept, until_crlf, upgrade_request, crlf,
}
use epic_1bit2qbit.Connection.Handshake.Field.{HasValue}
use epic_1bit2qbit.Connection.Handshake.Header.{
  rfc_accept, ws_handshake_iff, ends_first, ends_first-EndsFirst,
}
use epic_1bit2qbit.Connection.Lifecycle.{
  own, then_step, Link, created, established, sets_running, starts_reader, starts_pinger,
  reader_goes_on, start, Reachable, opened, at_test, in_read, at_sleep, has_connected, has_run,
  has_reader, outside, stopped,
}
use epic_1bit2qbit.Connection.Lifecycle.Drops.{Step-Reachable, IsSound, IsQuiet}

abbrev mask : Mask
mask = record { m0 = 1; m1 = 2; m2 = 3; m3 = 4 }

-- Two records of three bytes.
abbrev three_bytes : Channel
three_bytes = record {
  incoming = got 1 (2 ∷ []) ∷ got 3 [] ∷ [];
  outgoing = wrote 0 ∷ [];
  random = mask ∷ [];
  sent = [];
}

ssl_read_exact_lem_example :
    ((w : List SslRead) × (ssl_read_exact 2 three_bytes
        ≡ (ok (1 ∷ 2 ∷ []), record three_bytes { incoming = w }))
      × (flat w ≡ 3 ∷ []))
    × ((e : Bytes) × (ssl_read_exact 4 three_bytes ≡ (err e, record three_bytes { incoming = [] })))
ssl_read_exact_lem_example =
    ssl_read_exact_lem three_bytes (1 ∷ 2 ∷ []) (3 ∷ []) 4 (unfold flat in refl)
      (unfold flat in omega arith)

ssl_write_all_lem_example :
    (taken : Bytes) × (left : List SslWrite) × ((ssl_write_all (7 ∷ 8 ∷ []) three_bytes).1
      ≡ record three_bytes { outgoing = left; sent = [] ++ taken })
    × Written (7 ∷ 8 ∷ []) taken (ssl_write_all (7 ∷ 8 ∷ []) three_bytes).0
ssl_write_all_lem_example = ssl_write_all_lem three_bytes (7 ∷ 8 ∷ [])

server_read-encode_with_example :
    server_read (encode_with mask 1 (codes "hi") ++ codes "x") ≡ some (1, codes "hi", codes "x")
server_read-encode_with_example =
    server_read-encode_with mask 1 (codes "hi") (codes "x")
      (omega arith, omega arith, omega arith, omega arith) (omega arith)
      (omega arith, (omega arith, tt)) (omega arith)

abbrev hi_frame : Frame
hi_frame = record { fin = true; opcode = 1; payload = codes "hi" }

hi-IsAllowed : IsAllowed hi_frame
hi-IsAllowed = record { opcode_fits = omega arith; payload_fits = omega arith; control = refl }

abbrev hi_channel : Channel
hi_channel = record {
  incoming = got 129 (2 ∷ 104 ∷ []) ∷ got 105 (9 ∷ []) ∷ [];
  outgoing = [];
  random = mask ∷ [];
  sent = [];
}

-- "hi" in two fragments with a ping between them, and the first byte of the next frame.
abbrev busy_channel : Channel
busy_channel = record {
  incoming = got 1 (1 ∷ 104 ∷ 137 ∷ []) ∷ got 1 (7 ∷ 128 ∷ 1 ∷ 105 ∷ 129 ∷ []) ∷ [];
  outgoing = [];
  random = mask ∷ [];
  sent = [];
}

ws_decode_frame-message_example :
    (w : List SslRead) × (ws_decode_frame 3 busy_channel ≡ (
      ok (some (message_text (fragment (codes "h") ∷ ping (7 ∷ []) ∷ []) (codes "i"))),
      record {
        incoming = w;
        outgoing = [];
        random = [];
        sent = [] ++ pongs (fragment (codes "h") ∷ ping (7 ∷ []) ∷ []) (mask ∷ []);
      },
    ))
    × (flat w ≡ 129 ∷ [])
ws_decode_frame-message_example =
    ws_decode_frame-message (fragment (codes "h") ∷ ping (7 ∷ []) ∷ []) (mask ∷ []) [] 3 1
      (codes "i") (129 ∷ []) busy_channel (inl refl) (tt, (omega arith, tt))
      (unfold message_text in omega arith) refl
      (unfold epic_1bit2qbit.Connection.Frame.Decode.count_pings in refl) refl
      (unfold flat server_bytes server_frame in refl) (omega arith)

ws_decode_frame_bounded_example :
    ((e : Bytes) × ((ws_decode_frame 11 busy_channel).0 ≡ err e))
    ⊎ ((p : Bytes) × ((ws_decode_frame 11 busy_channel).0 ≡ ok (some p))
        × (length p ≤ max_frame_payload))
ws_decode_frame_bounded_example =
    ws_decode_frame_bounded 11 busy_channel (unfold flat in omega arith)

-- Certificates with one digest.
abbrev digest_of : Bytes → Option Bytes
digest_of cert = some (1 ∷ 255 ∷ [])

abbrev server : Peer Bytes
server = record { verify_result = 0; verify_text = codes "ok"; certificate = some (1 ∷ 255 ∷ []) }

verify_and_pin_iff_example :
    (verify_and_pin digest_of server (codes "host") (codes "01ff") ≡ ok (codes "01ff")) ↔ (
      (server.verify_result ≡ 0)
      × ((digest : Bytes) × HasFingerprint digest_of server digest (codes "01ff"))
      × ((codes "01ff" ≡ []) ⊎ (codes "01ff" ≡ codes "01ff")))
verify_and_pin_iff_example =
    verify_and_pin_iff digest_of server (codes "host") (codes "01ff") (codes "01ff")

abbrev same_bytes : Bytes → Bytes
same_bytes b = b

abbrev response : Bytes
response =
    codes "HTTP/1.1 101 OK"
    ++ crlf
    ++ codes "Sec-WebSocket-Accept: k258EAFA5-E914-47DA-95CA-C5"
    ++ crlf
    ++ crlf

abbrev answered : Channel
answered = record {
  incoming =
      got 72 (
        codes "TTP/1.1 101 OK"
        ++ crlf
        ++ codes "Sec-WebSocket-Accept: k258EAFA5-E914-47DA-95CA-C5"
        ++ crlf
        ++ crlf)
      ∷ got 129 []
      ∷ [];
  outgoing = [];
  random = [];
  sent = [];
}

ws_handshake_iff_example :
    (w : List SslRead) × (r : Result (Option (Unit {0}))) × (value : Bytes) × (ws_handshake
        same_bytes same_bytes
        (codes "host")
        (some (codes "k"))
        answered
      ≡ (
        r,
        record answered {
          incoming = w;
          outgoing = [];
          sent = [] ++ upgrade_request same_bytes same_bytes (codes "host") (codes "k");
        },
      ))
    × (flat w ≡ 129 ∷ [])
    × HasValue (codes "sec-websocket-accept:") response value
    × ((r ≡ ok (some tt)) ↔ (
        (starts_with (codes "HTTP/1.1 101") (until_crlf response) ≡ true)
        × (value ≡ rfc_accept same_bytes same_bytes (codes "k"))))
ws_handshake_iff_example =
    ws_handshake_iff same_bytes same_bytes (codes "host") (codes "k") response (129 ∷ []) answered
      (ends_first-EndsFirst [] response (unfold ends_first bytes_beq in refl)) (omega arith) refl
      (unfold flat in refl)

abbrev shaken : Link
shaken = record created { connected = true; socket = opened; ssl = true; caller = has_connected }

abbrev running : Link
running = record shaken { running = true; caller = has_run }

abbrev reading : Link
reading = record running { reader = at_test; caller = has_reader }

abbrev up : Link
up = record reading { pinger = at_sleep; caller = outside }

abbrev blocked : Link
blocked = record up { reader = in_read }

up-Reachable : Reachable true up
up-Reachable =
    then_step reading up
      (then_step running reading
        (then_step shaken running
          (then_step created shaken start (established created refl refl refl refl))
          (own shaken running (sets_running shaken refl)))
        (own running reading (starts_reader running refl)))
      (own reading up (starts_pinger reading refl))

Step-Reachable_example : IsSound true blocked × IsQuiet up blocked
Step-Reachable_example =
    Step-Reachable true up blocked up-Reachable (own up blocked (reader_goes_on up refl refl))

abbrev going_down : Link
going_down = record blocked { running = false; caller = stopped }
