-- ===== src/Connection/Frame/Encode.antt =====
-- What the client writes, read by a server that follows RFC 6455, section 5.2.
use Prim.Native.Nat.{bit_and, bit_or, bit_xor}
use epic_1bit2qbit.Prelude.{
  ℕ, zero, suc, ◌+◌, ◌*◌, ◌/◌, ◌%◌, ◌^◌, ◌<◌, ◌≤◌, ◌≡◌, refl, ap, ◌∙◌, [], ◌∷◌, ◌++◌, Option, none,
  some, length, take, drop, ltb, ◌==◌, nat_eq, arith, All, if◌then◌else◌, append_assoc,
  take-append_length, drop-append_length, Bool-cases, inl, inr,
}
use epic_1bit2qbit.Prelude.Text.{Bytes}
use epic_1bit2qbit.Connection.Bits.{set_top_bit, low_four, xor_twice}
use epic_1bit2qbit.Connection.Channel.{Mask}
use epic_1bit2qbit.Connection.Frame.{
  big_endian, encode_length, apply_mask, mask_payload, mask_bytes, encode_with,
}

abbrev two_bytes : Bytes → Option (ℕ × Bytes)
two_bytes (a ∷ b ∷ rest) = some (a * 256 + b, rest)
two_bytes _ = none

abbrev eight_bytes : Bytes → Option (ℕ × Bytes)
eight_bytes (a ∷ b ∷ c ∷ d ∷ e ∷ f ∷ g ∷ h ∷ rest) =
    some (((((((a * 256 + b) * 256 + c) * 256 + d) * 256 + e) * 256 + f) * 256 + g) * 256 + h, rest)
eight_bytes _ = none

-- The payload length, from byte 1 without its top bit and the bytes that follow.
server_length : ℕ → Bytes → Option (ℕ × Bytes)
server_length len bs =
    if ltb len 126 then some (len, bs) else if len == 126 then two_bytes bs else eight_bytes bs

-- Octet i of what has been sent is octet i of the data, XOR octet i MOD 4 of the masking key.
abbrev key_octet : Mask → ℕ → ℕ
key_octet m zero = m.m0
key_octet m (suc zero) = m.m1
key_octet m (suc (suc zero)) = m.m2
key_octet m _ = m.m3

unmask_from : Mask → ℕ → Bytes → Bytes
unmask_from m i [] = []
unmask_from m i (b ∷ bs) = bit_xor b (key_octet m (i % 4)) ∷ unmask_from m (suc i) bs

-- The masking key, and the payload with the mask taken off.
server_unmask : ℕ → Bytes → Option (Bytes × Bytes)
unfolding unmask_from
server_unmask len (m0 ∷ m1 ∷ m2 ∷ m3 ∷ bs) =
    some (unmask_from (record { m0 = m0; m1 = m1; m2 = m2; m3 = m3 }) 0 (take len bs), drop len bs)
server_unmask len _ = none

server_body : ℕ → Option (ℕ × Bytes) → Option (ℕ × Bytes × Bytes)
server_body opcode none = none
server_body opcode (some (len, bs)) = elim (server_unmask len bs) [
  | none ↦ none
  | some (payload, rest) ↦ some (opcode, payload, rest)
]

-- The opcode and the payload of a final, masked frame, and what stands behind it.
pub server_read : Bytes → Option (ℕ × Bytes × Bytes)
unfolding server_length server_body
server_read (b0 ∷ b1 ∷ bs) =
    if ltb b0 128
    then none
    else if ltb b1 128
    then none
    else server_body (b0 % 16) (server_length (b1 % 128) bs)
server_read _ = none

abbrev pub IsByte : ℕ → Type 0
IsByte b = b < 256

abbrev pub IsMask : Mask → Type 0
IsMask m = (m.m0 < 256) × (m.m1 < 256) × (m.m2 < 256) × (m.m3 < 256)

key_octet-IsByte : (m : Mask) (i : ℕ) → IsMask m → key_octet m i < 256
key_octet-IsByte m zero hm = hm.0
key_octet-IsByte m (suc zero) hm = hm.1
key_octet-IsByte m (suc (suc zero)) hm = hm.2
key_octet-IsByte m (suc (suc (suc i))) hm = hm.3

-- The octet of the key at a position.
abbrev key_at : Mask → ℕ → ℕ
key_at m i = key_octet m (i % 4)

key_at-wraps : (m : Mask) (i : ℕ) → key_at m (suc (suc (suc (suc i)))) ≡ key_at m i
key_at-wraps m i =
    let same : suc (suc (suc (suc i))) % 4 ≡ i % 4 = omega arith in ap (key_octet m) same

-- Octet by octet, the mask that apply_mask turns round with each byte.
unmask_from-apply_mask :
    (m : Mask) (i : ℕ) (bs : Bytes)
    → IsMask m
    → All IsByte bs
    → unmask_from m i (
        apply_mask
          (key_at m i)
          (key_at m (suc i))
          (key_at m (suc (suc i)))
          (key_at m (suc (suc (suc i))))
          bs)
      ≡ bs
unfolding unmask_from apply_mask
unmask_from-apply_mask m i [] hm h = refl
unmask_from-apply_mask m i (b ∷ bs) hm h =
    let byte = xor_twice (key_at m i) b (key_octet-IsByte m (i % 4) hm) h.0 in
    let rest = unmask_from-apply_mask m (suc i) bs hm h.1 in cc (byte, rest, key_at-wraps m i)

length-apply_mask : (m0 m1 m2 m3 : ℕ) (bs : Bytes) → length (apply_mask m0 m1 m2 m3 bs) ≡ length bs
unfolding apply_mask
length-apply_mask m0 m1 m2 m3 [] = refl
length-apply_mask m0 m1 m2 m3 (b ∷ bs) = ap suc (length-apply_mask m1 m2 m3 m0 bs)

take_masked :
    (bs rest : Bytes) (n : ℕ)
    → length bs ≡ n
    → (take n (bs ++ rest) ≡ bs) × (drop n (bs ++ rest) ≡ rest)
take_masked bs rest n h = rw (← h) (take-append_length bs rest, drop-append_length bs rest)

server_unmask-mask_payload :
    (m : Mask) (payload rest : Bytes)
    → IsMask m
    → All IsByte payload
    → server_unmask (length payload) (mask_bytes m ++ mask_payload m payload ++ rest)
      ≡ some (payload, rest)
unfolding server_unmask mask_payload
server_unmask-mask_payload m payload rest hm h =
    let masked = apply_mask m.m0 m.m1 m.m2 m.m3 payload in
    let (front, back) =
      take_masked masked rest (length payload) (length-apply_mask m.m0 m.m1 m.m2 m.m3 payload) in
    rw (front, back, unmask_from-apply_mask m 0 payload hm h)

short_length : (n : ℕ) → n < 126 → encode_length n ≡ (128 + n) ∷ []
unfolding encode_length
short_length n h = ground (arith, set_top_bit n)

medium_length : (n : ℕ) → 126 ≤ n → n < 65536 → encode_length n ≡ 254 ∷ n / 256 % 256 ∷ n % 256 ∷ []
unfolding encode_length
medium_length n h k = ground arith

long_length : (n : ℕ) → 65536 ≤ n → encode_length n ≡ 255 ∷ big_endian 8 n
unfolding encode_length
long_length n h = ground arith

abbrev ReadsLength : ℕ → Bytes → Type 0
ReadsLength n bs =
    (b1 : ℕ) × (tail : Bytes) × (encode_length n ≡ b1 ∷ tail)
    × (128 ≤ b1)
    × (server_length (b1 % 128) (tail ++ bs) ≡ some (n, bs))

-- Each of the three forms of the length is read back.
server_length-encode_length : (n : ℕ) (bs : Bytes) → n < 2 ^ 64 → ReadsLength n bs
server_length-encode_length n bs h = elim (Bool-cases (ltb n 126)) [
  | inl short ↦ (
    128 + n,
    [],
    short_length n (ground arith),
    omega arith,
    unfold server_length in ground arith,
  )
  | inr wide ↦ elim (Bool-cases (ltb n 65536)) [
    | inl medium ↦ (
      254,
      n / 256 % 256 ∷ n % 256 ∷ [],
      medium_length n (ground arith) (ground arith),
      omega arith,
      unfold server_length in ap (λ (k : ℕ). some (k, bs)) (ground arith),
    )
    | inr long ↦ (
      255,
      big_endian 8 n,
      long_length n (ground arith),
      omega arith,
      unfold server_length big_endian in ap (λ (k : ℕ). some (k, bs)) (omega arith),
    )
  ]
]

read_header :
    (opcode b1 : ℕ) (bs : Bytes)
    → opcode < 16
    → 128 ≤ b1
    → server_read (bit_or 0x80 (bit_and opcode 0x0f) ∷ b1 ∷ bs)
      ≡ server_body opcode (server_length (b1 % 128) bs)
unfolding server_read
read_header opcode b1 bs h k =
    let low : bit_and opcode 0x0f ≡ opcode = omega (arith, low_four opcode) in
    rw (low, set_top_bit opcode (omega arith)) (ground arith)

regroup : (xs a b c : Bytes) → ((xs ++ a) ++ b) ++ c ≡ xs ++ ((a ++ b) ++ c)
regroup xs a b c = simp append_assoc

body_read :
    (opcode len : ℕ) (bs payload rest : Bytes)
    → server_unmask len bs ≡ some (payload, rest)
    → server_body opcode (some (len, bs)) ≡ some (opcode, payload, rest)
unfolding server_body
body_read opcode len bs payload rest e = rw (e, server_body)

read_frame_of :
    (m : Mask) (opcode : ℕ) (payload rest : Bytes) (b1 : ℕ) (tail : Bytes)
    → IsMask m
    → opcode < 16
    → All IsByte payload
    → encode_length (length payload) ≡ b1 ∷ tail
    → 128 ≤ b1
    → server_length (b1 % 128) (tail ++ (mask_bytes m ++ mask_payload m payload ++ rest))
      ≡ some (length payload, mask_bytes m ++ mask_payload m payload ++ rest)
    → server_read (encode_with m opcode payload ++ rest) ≡ some (opcode, payload, rest)
unfolding encode_with
read_frame_of m opcode payload rest b1 tail hm ho hp form top reads =
    let b0 = bit_or 0x80 (bit_and opcode 0x0f) in
    rw form (
      ap server_read (regroup (b0 ∷ b1 ∷ tail) (mask_bytes m) (mask_payload m payload) rest)
      ∙ read_header opcode b1 (tail ++ (mask_bytes m ++ mask_payload m payload ++ rest)) ho top
      ∙ ap (server_body opcode) reads
      ∙ body_read opcode (length payload) _ payload rest
          (server_unmask-mask_payload m payload rest hm hp))

-- Whatever mask is drawn, a server that takes XOR with octet i MOD 4 of the masking key off octet i
-- reads back the opcode and the payload that the client framed
-- (opcodes below 16, payloads of bytes), and nothing of what follows the frame.
pub server_read-encode_with :
    (m : Mask) (opcode : ℕ) (payload rest : Bytes)
    → IsMask m
    → opcode < 16
    → All IsByte payload
    → length payload < 2 ^ 64
    → server_read (encode_with m opcode payload ++ rest) ≡ some (opcode, payload, rest)
server_read-encode_with m opcode payload rest hm ho hp hl =
    let (b1, tail, form, top, reads) =
      server_length-encode_length (length payload) (mask_bytes m ++ mask_payload m payload ++ rest)
        hl in
    read_frame_of m opcode payload rest b1 tail hm ho hp form top reads
