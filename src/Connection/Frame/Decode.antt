-- ===== src/Connection/Frame/Decode.antt =====
-- ws_decode_frame of Connection.cpp on the frames of a server: a message in any number of
-- fragments, with pings and pongs between them.
use epic_1bit2qbit.Prelude.{
  ℕ, suc, ◌+◌, ◌≤◌, ◌≡◌, refl, ◌⊎◌, Bool, true, false, List, [], ◌∷◌, ◌++◌, some, length, nat_eq,
  arith, if◌then◌else◌,
}
use epic_1bit2qbit.Prelude.Text.{Bytes}
use epic_1bit2qbit.Prelude.Result.{ok, pure, bind_result}
use epic_1bit2qbit.Connection.Channel.{Channel, SslRead, Mask}
use epic_1bit2qbit.Connection.Channel.Reading.{flat}
use epic_1bit2qbit.Connection.Channel.Writing.{ssl_write_all_free}
use epic_1bit2qbit.Connection.Frame.{
  Frame, complete, continue, handle_frame, decode_loop, ws_send_frame, ws_encode_frame, encode_step,
  encode_with, max_frame_payload,
}
use epic_1bit2qbit.Connection.Frame.Server.{server_frame, IsAllowed, read_frame-server_frame}

-- What a server sends before the last fragment of a message.
pub data Part : Type 0 where
  fragment : Bytes → Part
  ping : Bytes → Part
  pong : Bytes → Part

abbrev pub frame : Bool → ℕ → Bytes → Frame
frame fin opcode payload = record { fin = fin; opcode = opcode; payload = payload }

-- The frames: the opcode stands in the first fragment, and 0 in those that continue it.
unfoldable pub server_bytes : ℕ → List Part → Bytes → Bytes
server_bytes opcode [] last = server_frame (frame true opcode last)
server_bytes opcode (fragment p ∷ ps) last =
    server_frame (frame false opcode p) ++ server_bytes 0 ps last
server_bytes opcode (ping p ∷ ps) last =
    server_frame (frame true 9 p) ++ server_bytes opcode ps last
server_bytes opcode (pong p ∷ ps) last =
    server_frame (frame true 10 p) ++ server_bytes opcode ps last

-- The message that the fragments make up.
unfoldable pub message_text : List Part → Bytes → Bytes
message_text [] last = last
message_text (fragment p ∷ ps) last = p ++ message_text ps last
message_text (ping p ∷ ps) last = message_text ps last
message_text (pong p ∷ ps) last = message_text ps last

-- The answers to the pings, each under a mask of its own.
unfoldable pub pongs : List Part → List Mask → Bytes
pongs [] ms = []
pongs (fragment p ∷ ps) ms = pongs ps ms
pongs (pong p ∷ ps) ms = pongs ps ms
pongs (ping p ∷ ps) [] = []
pongs (ping p ∷ ps) (m ∷ ms) = encode_with m 0x0a p ++ pongs ps ms

unfoldable pub count_pings : List Part → ℕ
count_pings [] = 0
count_pings (fragment p ∷ ps) = count_pings ps
count_pings (ping p ∷ ps) = suc (count_pings ps)
count_pings (pong p ∷ ps) = count_pings ps

-- Control frames carry at most 125 bytes.
abbrev pub IsShort : Part → Type 0
IsShort (fragment p) = Unit {0}
IsShort (ping p) = length p ≤ 125
IsShort (pong p) = length p ≤ 125

-- A round of the loop on each kind of frame. `assembling` says which opcode may come next.
abbrev pub Fits : Bool → ℕ → Bytes → Type 0
Fits true opcode message = opcode ≡ 0
Fits false opcode message = ((opcode ≡ 1) ⊎ (opcode ≡ 2)) × (message ≡ [])

pub fragment_round :
    (fin assembling : Bool) (opcode : ℕ) (message payload : Bytes) (ch : Channel)
    → Fits assembling opcode message
    → length message + length payload ≤ max_frame_payload
    → handle_frame (frame fin opcode payload) message assembling ch
      ≡ (ok (if fin then complete (message ++ payload) else continue (message ++ payload) true), ch)
unfolding handle_frame
fragment_round true true opcode message payload ch fits small = ground arith
fragment_round false true opcode message payload ch fits small = ground arith
fragment_round true false opcode message payload ch fits small = ground arith
fragment_round false false opcode message payload ch fits small = ground arith

pub pong_round :
    (assembling : Bool) (message payload : Bytes) (ch : Channel)
    → handle_frame (frame true 10 payload) message assembling ch
      ≡ (ok (continue message assembling), ch)
unfolding handle_frame
pong_round assembling message payload ch = refl

send_frame_free :
    (opcode : ℕ) (payload : Bytes) (ch : Channel) (m : Mask) (ms : List Mask)
    → ch.random ≡ m ∷ ms
    → ch.outgoing ≡ []
    → ws_send_frame opcode payload ch ≡ (
      ok tt,
      record ch { random = ms; outgoing = []; sent = ch.sent ++ encode_with m opcode payload },
    )
unfolding ws_send_frame ws_encode_frame encode_step
send_frame_free opcode payload ch m ms masks free =
    rw masks (ssl_write_all_free (record ch { random = ms }) (encode_with m opcode payload) free)

pub ping_round :
    (assembling : Bool) (message payload : Bytes) (ch : Channel) (m : Mask) (ms : List Mask)
    → ch.random ≡ m ∷ ms
    → ch.outgoing ≡ []
    → handle_frame (frame true 9 payload) message assembling ch ≡ (
      ok (continue message assembling),
      record ch { random = ms; outgoing = []; sent = ch.sent ++ encode_with m 0x0a payload },
    )
unfolding handle_frame
ping_round assembling message payload ch m ms masks free =
    rw (send_frame_free 0x0a payload ch m ms masks free)

-- One round of the loop on a frame of the server, in three steps.
pub round :
    (f : Frame) (fuel : ℕ) (message : Bytes) (assembling : Bool) (ch : Channel) (rest : Bytes)
    → IsAllowed f
    → flat ch.incoming ≡ server_frame f ++ rest
    → (w : List SslRead) × (decode_loop (suc fuel) message assembling ch
        ≡ bind_result
            (handle_frame f message assembling (record ch { incoming = w }))
            λ next. elim next [ complete p ↦ pure (some p) | continue m a ↦ decode_loop fuel m a ])
      × (flat w ≡ rest)
unfolding decode_loop
round f fuel message assembling ch rest v e =
    let (w, r, after) = read_frame-server_frame f ch rest v e in (w, rw r, after)
