-- ===== src/Connection/Frame/Server.antt =====
-- The frames of a server that follows RFC 6455, section 5.2, and their reading by the client.
use Prim.Native.Nat.{bit_and}
use epic_1bit2qbit.Prelude.{
  ℕ, ◌+◌, ◌/◌, ◌%◌, ◌<◌, ◌≤◌, ◌≡◌, refl, ap, ◌∙◌, Bool, true, false, not, ◌&&◌, ◌||◌, List, [], ◌∷◌,
  ◌++◌, length, ltb, leb, ◌==◌, nat_eq, arith, if◌then◌else◌, Bool-cases, inl, inr, not-not,
}
use epic_1bit2qbit.Prelude.Text.{Bytes}
use epic_1bit2qbit.Prelude.Result.{ok}
use epic_1bit2qbit.Connection.Bits.{top_bit, low_four, low_seven, control_bit}
use epic_1bit2qbit.Connection.Channel.{Channel, SslRead, ssl_read_exact}
use epic_1bit2qbit.Connection.Channel.Reading.{flat, read_exactly}
use epic_1bit2qbit.Connection.Frame.{Frame, read_frame, read_length, max_frame_payload}

abbrev fin_bit : Bool → ℕ
fin_bit true = 128
fin_bit false = 0

abbrev first_byte : Frame → ℕ
first_byte f = fin_bit f.fin + f.opcode

-- An unmasked frame, with the shorter form of the length.
unfoldable pub server_frame : Frame → Bytes
server_frame f =
    let n = length f.payload in
    if ltb n 126
    then first_byte f ∷ n ∷ f.payload
    else first_byte f ∷ 126 ∷ n / 256 ∷ n % 256 ∷ f.payload

-- A frame within the client's limits: a control frame is final and short.
pub record IsAllowed (f : Frame) : Type 0 where
  pub opcode_fits : f.opcode < 16
  pub payload_fits : length f.payload ≤ max_frame_payload
  pub control : (leb 8 f.opcode && (not f.fin || ltb 125 (length f.payload))) ≡ false

module _ (f : Frame) (v : IsAllowed f) where
  header_bits :
      ((bit_and (first_byte f) 0x80 == 0) ≡ not f.fin) × (bit_and (first_byte f) 0x0f ≡ f.opcode)
  header_bits = ground (arith, v.opcode_fits, top_bit (first_byte f), low_four (first_byte f))

  control_ok :
      (not (bit_and f.opcode 0x08 == 0) && (not f.fin || ltb 125 (length f.payload))) ≡ false
  control_ok = ground (arith, v.opcode_fits, v.control, control_bit f.opcode)

  read_frame_steps :
      (b1 : ℕ) (ch ch1 ch2 ch3 : Channel)
      → b1 < 128
      → ssl_read_exact 2 ch ≡ (ok (first_byte f ∷ b1 ∷ []), ch1)
      → read_length b1 ch1 ≡ (ok (length f.payload), ch2)
      → ssl_read_exact (length f.payload) ch2 ≡ (ok f.payload, ch3)
      → read_frame ch ≡ (ok f, ch3)
  unfolding read_frame
  read_frame_steps b1 ch ch1 ch2 ch3 small h1 h2 h3 =
      let low : bit_and b1 0x7f ≡ b1 = omega (arith, low_seven b1) in
      let unmasked : (bit_and b1 0x80 == 0) ≡ true = ground (arith, top_bit b1) in
      let fits : ltb max_frame_payload (length f.payload) ≡ false =
        ground (arith, v.payload_fits) in
      rw (h1, low, h2, fits, unmasked, header_bits.1, header_bits.0, not-not f.fin, control_ok, h3)

read_length_short : (n : ℕ) (ch : Channel) → n < 126 → read_length n ch ≡ (ok n, ch)
unfolding read_length
read_length_short n ch h = ground arith

read_length_medium :
    (n : ℕ) (ch ch' : Channel)
    → n < 65536
    → ssl_read_exact 2 ch ≡ (ok (n / 256 ∷ n % 256 ∷ []), ch')
    → read_length 126 ch ≡ (ok n, ch')
unfolding read_length
read_length_medium n ch ch' h r = rw r (ap (λ (k : ℕ). (ok k, ch')) (omega arith))

-- The client reads a server's frame as it was meant, whatever pieces it arrives in, and leaves
-- what follows it; nothing is written.
pub read_frame-server_frame :
    (f : Frame) (ch : Channel) (rest : Bytes)
    → IsAllowed f
    → flat ch.incoming ≡ server_frame f ++ rest
    → (w : List SslRead) × (read_frame ch ≡ (ok f, record ch { incoming = w })) × (flat w ≡ rest)
unfolding server_frame
read_frame-server_frame f ch rest v e = elim (Bool-cases (ltb (length f.payload) 126)) [
  | inl short ↦
      let (w1, h1, e1) =
        read_exactly 2 ch (first_byte f ∷ length f.payload ∷ []) (f.payload ++ rest) refl
          (e ∙ rw short) in
      let ch1 : Channel = record ch { incoming = w1 } in
      let (w2, h2, e2) = read_exactly (length f.payload) ch1 f.payload rest refl e1 in
      (
        w2,
        read_frame_steps f v (length f.payload) ch ch1 ch1 (record ch { incoming = w2 })
            (ground arith) h1 (read_length_short (length f.payload) ch1 (ground arith)) h2,
        e2,
      )
  | inr long ↦
      let n = length f.payload in
      let (w1, h1, e1) =
        read_exactly 2 ch (first_byte f ∷ 126 ∷ []) (n / 256 ∷ n % 256 ∷ f.payload ++ rest) refl
          (e ∙ rw long) in
      let ch1 : Channel = record ch { incoming = w1 } in
      let (w2, h2, e2) = read_exactly 2 ch1 (n / 256 ∷ n % 256 ∷ []) (f.payload ++ rest) refl e1 in
      let ch2 : Channel = record ch { incoming = w2 } in
      let (w3, h3, e3) = read_exactly n ch2 f.payload rest refl e2 in
      (
        w3,
        read_frame_steps f v 126 ch ch1 ch2 (record ch { incoming = w3 }) (omega arith) h1
            (read_length_medium n ch1 ch2 (omega (arith, v.payload_fits)) h2) h3,
        e3,
      )
]
