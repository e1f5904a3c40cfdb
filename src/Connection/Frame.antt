-- ===== src/Connection/Frame.antt =====
-- The WebSocket framing of client/src/connection/Connection.cpp (RFC 6455, section 5.2): encoding
-- with a mask, decoding, and the reassembly of fragmented messages.
pub mod Server
pub mod Decode
pub mod Messages
pub mod Encode
pub mod Reads
pub mod Limits
use Prim.Native.Nat.{bit_and, bit_or, bit_xor}
use epic_1bit2qbit.Prelude.{
  ℕ, zero, suc, ◌+◌, ◌*◌, ◌/◌, ◌%◌, ◌^◌, ◌≡◌, Bool, true, false, not, ◌&&◌, ◌||◌, List, [], ◌∷◌,
  ◌++◌, Option, none, some, length, drop, get_or, leb, ltb, ◌==◌, nat_eq, if◌then◌else◌, is_empty,
}
use epic_1bit2qbit.Prelude.Text.{Bytes, codes, to_string}
use epic_1bit2qbit.Prelude.Result.{Result, ok, err, Exec, pure, throw, throw_if, ◌>>=◌, ◌>>◌}
use epic_1bit2qbit.Connection.Channel.{Channel, Mask, ssl_read_exact, ssl_write_all}

-- kMaxFramePayload
abbrev pub max_frame_payload : ℕ
max_frame_payload = 16384

-- ── Encoding ──

-- The k bytes of a number, the highest first: (n >> (8 * i)) & 0xff for i from k - 1 down to 0.
unfoldable pub big_endian : ℕ → ℕ → Bytes
big_endian zero n = []
big_endian (suc k) n = (n / 256 ^ k % 256) ∷ big_endian k n

-- Byte 1 and the extended length; every client frame has the mask bit.
unfoldable pub encode_length : ℕ → Bytes
unfolding big_endian
encode_length len =
    if ltb len 126
    then bit_or 0x80 len ∷ []
    else if ltb len 65536
    then bit_or 0x80 126 ∷ big_endian 2 len
    else bit_or 0x80 127 ∷ big_endian 8 len

-- payload[i] ^ mask[i % 4], from the index at which the mask has been turned to its first byte.
unfoldable pub apply_mask : ℕ → ℕ → ℕ → ℕ → Bytes → Bytes
apply_mask m0 m1 m2 m3 [] = []
apply_mask m0 m1 m2 m3 (b ∷ bs) = bit_xor b m0 ∷ apply_mask m1 m2 m3 m0 bs

unfoldable pub mask_payload : Mask → Bytes → Bytes
unfolding apply_mask
mask_payload m = apply_mask m.m0 m.m1 m.m2 m.m3

abbrev pub mask_bytes : Mask → Bytes
mask_bytes m = m.m0 ∷ m.m1 ∷ m.m2 ∷ m.m3 ∷ []

unfoldable pub encode_with : Mask → ℕ → Bytes → Bytes
unfolding encode_length mask_payload
encode_with m opcode payload =
    bit_or 0x80 (bit_and opcode 0x0f) ∷ encode_length (length payload)
    ++ mask_bytes m
    ++ mask_payload m payload

encode_step : ℕ → Bytes → Channel → List Mask → Result Bytes × Channel
encode_step opcode payload ch [] = (err (codes "RAND_bytes failed generating WS mask"), ch)
encode_step opcode payload ch (m ∷ ms) =
    (ok (encode_with m opcode payload), record ch { random = ms })

unfoldable pub ws_encode_frame : ℕ → Bytes → Exec Channel Bytes
unfolding encode_step
ws_encode_frame opcode payload ch = encode_step opcode payload ch ch.random

unfoldable pub ws_send_frame : ℕ → Bytes → Exec Channel (Unit {0})
ws_send_frame opcode payload = ws_encode_frame opcode payload >>= ssl_write_all

-- send_text: `connected_` is the flag of the connection.
unfoldable pub send_text : Bool → Bytes → Exec Channel (Unit {0})
send_text false payload = throw (codes "not connected")
send_text true payload = ws_send_frame 0x01 payload

-- ── Decoding ──

pub record Frame : Type 0 where
  pub fin : Bool
  pub opcode : ℕ
  pub payload : Bytes

-- (acc << 8) | b, in a uint64_t
unfoldable pub shift_in : ℕ → Bytes → ℕ
shift_in acc [] = acc
shift_in acc (b ∷ bs) = shift_in (acc * 256 % 2 ^ 64 + b) bs

unfoldable pub read_length : ℕ → Exec Channel ℕ
unfolding shift_in
read_length len =
    if len == 126
    then (ssl_read_exact 2 >>= λ ext. pure (shift_in 0 ext))
    else if len == 127
    then (ssl_read_exact 8 >>= λ ext. pure (shift_in 0 ext))
    else pure len

-- The header, the checks and the payload of one frame.
unfoldable pub read_frame : Exec Channel Frame
read_frame = do
  hdr ← ssl_read_exact 2
  let fin = not (bit_and (get_or hdr 0 0) 0x80 == 0)
  let opcode = bit_and (get_or hdr 0 0) 0x0f
  let server_mask = not (bit_and (get_or hdr 1 0) 0x80 == 0)
  payload_len ← read_length (bit_and (get_or hdr 1 0) 0x7f)
  throw_if (ltb max_frame_payload payload_len) (codes "ws: frame payload exceeds limit")
  throw_if server_mask (codes "ws: server frame is masked (protocol violation)")
  throw_if (not (bit_and opcode 0x08 == 0) && (not fin || ltb 125 payload_len))
      (codes "ws: malformed control frame")
  payload ← ssl_read_exact payload_len
  pure (record { fin = fin; opcode = opcode; payload = payload })

-- What a close frame throws: its code, and its reason where it has one.
unfoldable pub close_reason : Bytes → Bytes
close_reason (hi ∷ lo ∷ reason) =
    codes "ws: close "
    ++ to_string (hi * 256 + lo)
    ++ (if is_empty reason then [] else codes ": " ++ reason)
close_reason payload = codes "ws: server sent close frame"

-- The end of one round of the loop: a message is complete, or the loop goes on.
pub data Round : Type 0 where
  complete : Bytes → Round
  continue : Bytes → Bool → Round

unfoldable pub handle_frame : Frame → Bytes → Bool → Exec Channel Round
handle_frame fr message assembling =
    if fr.opcode == 0x08
    then throw (close_reason fr.payload)
    else if fr.opcode == 0x09
    then (ws_send_frame 0x0a fr.payload >> pure (continue message assembling))
    else if fr.opcode == 0x0a
    then pure (continue message assembling)
    else if fr.opcode == 0x01 || fr.opcode == 0x02
    then (if assembling
        then throw (codes "ws: new data frame during fragmented message")
        else if fr.fin
        then pure (complete fr.payload)
        else pure (continue fr.payload true))
    else if fr.opcode == 0x00
    then (if not assembling
        then throw (codes "ws: continuation frame with no message in progress")
        else if ltb max_frame_payload (length message + length fr.payload)
        then throw (codes "ws: reassembled message exceeds limit")
        else if fr.fin
        then pure (complete (message ++ fr.payload))
        else pure (continue (message ++ fr.payload) true))
    else throw (codes "ws: unknown opcode")

-- The loop; `ok none` says that the fuel ran out.
unfoldable pub decode_loop : ℕ → Bytes → Bool → Exec Channel (Option Bytes)
decode_loop zero message assembling = pure none
decode_loop (suc fuel) message assembling = do
  fr ← read_frame
  next ← handle_frame fr message assembling
  elim next [ complete payload ↦ pure (some payload) | continue m a ↦ decode_loop fuel m a ]

unfoldable pub ws_decode_frame : ℕ → Exec Channel (Option Bytes)
unfolding decode_loop
ws_decode_frame fuel = decode_loop fuel [] false
