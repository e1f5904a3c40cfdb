-- ===== src/Connection/Frame/Messages.antt =====
-- ws_decode_frame of Connection.cpp returns a server's message.
use epic_1bit2qbit.Prelude.{
  ℕ, zero, suc, ◌+◌, ◌<◌, ◌≤◌, ◌≡◌, refl, sym, ◌∙◌, ◌⊎◌, inl, inr, Bool, true, false, List, [], ◌∷◌,
  ◌++◌, Option, some, length, nat_eq, arith, append_assoc, append-nil, length-append, All,
}
use epic_1bit2qbit.Prelude.Text.{Bytes}
use epic_1bit2qbit.Prelude.Result.{Result, ok}
use epic_1bit2qbit.Connection.Channel.{Channel, SslRead, SslWrite, Mask}
use epic_1bit2qbit.Connection.Channel.Reading.{flat}
use epic_1bit2qbit.Connection.Frame.{decode_loop, ws_decode_frame, encode_with, max_frame_payload}
use epic_1bit2qbit.Connection.Frame.Server.{server_frame, IsAllowed}
use epic_1bit2qbit.Connection.Frame.Decode.{
  Part, fragment, ping, pong, frame, server_bytes, message_text, pongs, count_pings, IsShort, Fits,
  fragment_round, pong_round, ping_round, round,
}

data-IsAllowed :
    (fin assembling : Bool) (opcode : ℕ) (message payload : Bytes)
    → Fits assembling opcode message
    → length payload ≤ max_frame_payload
    → IsAllowed (frame fin opcode payload)
data-IsAllowed fin true opcode message payload fits small = record {
  opcode_fits = omega arith;
  payload_fits = small;
  control = ground arith;
}
data-IsAllowed fin false opcode message payload fits small = record {
  opcode_fits = ground arith;
  payload_fits = small;
  control = ground arith;
}

control-IsAllowed :
    (opcode : ℕ) (payload : Bytes)
    → (opcode ≡ 9) ⊎ (opcode ≡ 10)
    → length payload ≤ 125
    → IsAllowed (frame true opcode payload)
control-IsAllowed opcode payload which small = record {
  opcode_fits = ground arith;
  payload_fits = omega arith;
  control = ground arith;
}

-- What the loop leaves: the rest of the input, the masks that are left, the pongs written.
abbrev Outcome :
    Channel → Bytes → Bytes → List Mask → Bytes → Result (Option Bytes) × Channel → Type 0
Outcome ch message answers more rest r =
    (w : List SslRead) × (r ≡ (
      ok (some message),
      record { incoming = w; outgoing = []; random = more; sent = ch.sent ++ answers },
    ))
    × (flat w ≡ rest)

ended :
    (message : Bytes) (w : List SslRead) {o : List SslWrite} {r r' : List Mask} {s s' : Bytes}
    → o ≡ []
    → r ≡ r'
    → s' ≡ s
    → ◌≡◌ {A = Result (Option Bytes) × Channel}
        (ok (some message), record { incoming = w; outgoing = o; random = r; sent = s })
        (ok (some message), record { incoming = w; outgoing = []; random = r'; sent = s' })
ended message w eo er es = λ i.
    (ok (some message), record { incoming = w; outgoing = eo i; random = er i; sent = sym es i })

ended_as :
    (w : List SslRead) {m m' s s' : Bytes} {r : List Mask}
    → m ≡ m'
    → s ≡ s'
    → ◌≡◌ {A = Result (Option Bytes) × Channel}
        (ok (some m), record { incoming = w; outgoing = []; random = r; sent = s })
        (ok (some m'), record { incoming = w; outgoing = []; random = r; sent = s' })
ended_as w {m} {m'} {s} {s'} {r} em es =
    λ i. (ok (some (em i)), record { incoming = w; outgoing = []; random = r; sent = es i })

deliver :
    (ps : List Part) (ms : List Mask) (fuel opcode : ℕ) (message last rest : Bytes)
    (assembling : Bool) (ch : Channel) (more : List Mask)
    → Fits assembling opcode message
    → All IsShort ps
    → length message + length (message_text ps last) ≤ max_frame_payload
    → ch.random ≡ ms ++ more
    → length ms ≡ count_pings ps
    → ch.outgoing ≡ []
    → flat ch.incoming ≡ server_bytes opcode ps last ++ rest
    → length ps < fuel
    → Outcome ch
        (message ++ message_text ps last)
        (pongs ps ms)
        more
        rest
        (decode_loop fuel message assembling ch)
unfolding message_text count_pings server_bytes pongs
deliver ps ms zero opcode message last rest assembling ch more fits short small masks count free
      input enough =
    absurd (omega arith)
deliver [] (m ∷ ms) (suc fuel) opcode message last rest assembling ch more fits short small masks
      count free input enough =
    absurd (omega arith)
deliver [] [] (suc fuel) opcode message last rest assembling ch more fits short small masks count
      free input enough =
    let f = frame true opcode last in
    let (w, r, after) =
      round f fuel message assembling ch rest
        (data-IsAllowed true assembling opcode message last fits (omega arith)) input in
    (
      w,
      r
          ∙ rw
              (fragment_round true assembling opcode message last (record ch { incoming = w }) fits
                small)
              (ended (message ++ last) w free masks (append-nil ch.sent)),
      after,
    )
deliver (fragment p ∷ ps) ms (suc fuel) opcode message last rest assembling ch more fits short small
      masks count free input enough =
    let f = frame false opcode p in
    let tail = server_bytes 0 ps last ++ rest in
    let (w, r, after) =
      round f fuel message assembling ch tail
        (data-IsAllowed false assembling opcode message p fits
          (omega (arith, length-append p (message_text ps last))))
        (input ∙ append_assoc (server_frame f) (server_bytes 0 ps last) rest) in
    let ch1 : Channel = record ch { incoming = w } in
    let (w', r', after') =
      deliver ps ms fuel 0 (message ++ p) last rest true ch1 more refl short.1
        (omega (arith, length-append p (message_text ps last), length-append message p)) masks count
        free after (omega arith) in
    (
      w',
      r
          ∙ rw
              (fragment_round false assembling opcode message p ch1 fits
                (omega (arith, length-append p (message_text ps last))))
              (r' ∙ ended_as w' (append_assoc message p (message_text ps last)) refl),
      after',
    )
deliver (pong p ∷ ps) ms (suc fuel) opcode message last rest assembling ch more fits short small
      masks count free input enough =
    let f = frame true 10 p in
    let tail = server_bytes opcode ps last ++ rest in
    let (w, r, after) =
      round f fuel message assembling ch tail (control-IsAllowed 10 p (inr refl) short.0)
        (input ∙ append_assoc (server_frame f) (server_bytes opcode ps last) rest) in
    let ch1 : Channel = record ch { incoming = w } in
    let (w', r', after') =
      deliver ps ms fuel opcode message last rest assembling ch1 more fits short.1 small masks count
        free after (omega arith) in
    (w', r ∙ rw (pong_round assembling message p ch1) r', after')
deliver (ping p ∷ ps) [] (suc fuel) opcode message last rest assembling ch more fits short small
      masks count free input enough =
    absurd (omega arith)
deliver (ping p ∷ ps) (m ∷ ms) (suc fuel) opcode message last rest assembling ch more fits short
      small masks count free input enough =
    let f = frame true 9 p in
    let tail = server_bytes opcode ps last ++ rest in
    let (w, r, after) =
      round f fuel message assembling ch tail (control-IsAllowed 9 p (inl refl) short.0)
        (input ∙ append_assoc (server_frame f) (server_bytes opcode ps last) rest) in
    let ch1 : Channel = record ch { incoming = w } in
    let ch2 : Channel = record ch1 {
      random = ms ++ more;
      outgoing = [];
      sent = ch.sent ++ encode_with m 0x0a p;
    } in
    let (w', r', after') =
      deliver ps ms fuel opcode message last rest assembling ch2 more fits short.1 small refl
        (omega arith) refl after (omega arith) in
    (
      w',
      r
          ∙ rw (ping_round assembling message p ch1 m (ms ++ more) masks free)
              (r' ∙ ended_as w' refl (append_assoc ch.sent (encode_with m 0x0a p) (pongs ps ms))),
      after',
    )

-- A text or binary message that a server sends in any number of fragments, with pings and pongs
-- between them and in pieces of any size, is returned whole; each ping has been answered by a pong
-- with its payload, in order and under a mask of its own; and what follows is still to be read.
-- The message has at most 16384 bytes, control frames at most 125; RAND_bytes and SSL_write do not
-- fail, and the fuel is above the number of frames.
pub ws_decode_frame-message :
    (ps : List Part) (ms more : List Mask) (fuel opcode : ℕ) (last rest : Bytes) (ch : Channel)
    → (opcode ≡ 1) ⊎ (opcode ≡ 2)
    → All IsShort ps
    → length (message_text ps last) ≤ max_frame_payload
    → ch.random ≡ ms ++ more
    → length ms ≡ count_pings ps
    → ch.outgoing ≡ []
    → flat ch.incoming ≡ server_bytes opcode ps last ++ rest
    → length ps < fuel
    → (w : List SslRead) × (ws_decode_frame fuel ch ≡ (
      ok (some (message_text ps last)),
      record { incoming = w; outgoing = []; random = more; sent = ch.sent ++ pongs ps ms },
    ))
      × (flat w ≡ rest)
unfolding ws_decode_frame
ws_decode_frame-message ps ms more fuel opcode last rest ch which short small masks count free input
      enough =
    deliver ps ms fuel opcode [] last rest false ch more (which, refl) short (omega (arith, small))
      masks count free input enough
