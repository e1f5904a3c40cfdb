-- ===== src/Connection/Frame/Reads.antt =====
-- What the reads of ws_decode_frame, in Connection.cpp, leave to be read, and how long what they
-- return can be.
use Prim.Native.Nat.{bit_and}
use epic_1bit2qbit.Prelude.{
  ℕ, zero, suc, ◌+◌, ◌-◌, ◌≤◌, ◌≡◌, refl, inl, inr, Bool, true, false, not, ◌&&◌, ◌||◌, List, [],
  ◌∷◌, length, ltb, leb, ◌==◌, nat_eq, arith, if◌then◌else◌, length-append, length-take,
  length-drop, drop, get_or, Bool-cases,
}
use epic_1bit2qbit.Prelude.Text.{Bytes, codes}
use epic_1bit2qbit.Prelude.Result.{Result, ok, err, bind_result, pure, throw_if, ◌>>=◌, ◌>>◌}
use epic_1bit2qbit.Connection.Channel.{
  Channel, SslRead, got, failed, ssl_read_exact, read_loop, read_step, prepend,
}
use epic_1bit2qbit.Connection.Channel.Reading.{flat, flat-put_back}
use epic_1bit2qbit.Connection.Frame.{Frame, read_frame, read_length, shift_in, max_frame_payload}

-- The bytes left to read.
abbrev pub pending : Channel → ℕ
pending ch = length (flat ch.incoming)

-- A step that fails, or returns a value with the property and leaves at most `n` bytes to read.
abbrev pub Leaves {ℓ} : {A : Type ℓ} → (A → Type 0) → ℕ → Result A × Channel → Type 0
Leaves P n (ok a, ch) = P a × (pending ch ≤ n)
Leaves P n (err e, ch) = Unit {0}

pub bind-Leaves {ℓ κ} :
    {A : Type ℓ} {B : Type κ} (First : A → Type 0) (Next : B → Type 0) (n k : ℕ)
    (r : Result A × Channel) (f : A → Channel → Result B × Channel)
    → Leaves First n r
    → ((a : A) (ch : Channel) → First a → pending ch ≤ n → Leaves Next k (f a ch))
    → Leaves Next k (bind_result r f)
bind-Leaves First Next n k (ok a, ch) f h g = g a ch h.0 h.1
bind-Leaves First Next n k (err e, ch) f h g = tt

abbrev Consumed : ℕ → ℕ → Result (Bytes × List SslRead) → Type 0
Consumed n total (ok (bs, w)) = (length bs ≡ n) × (n + length (flat w) ≤ total)
Consumed n total (err e) = Unit {0}

prepend-Consumed :
    (b : ℕ) (bs : Bytes) (n total : ℕ) (r : Result (Bytes × List SslRead))
    → length bs ≤ n
    → Consumed (n - length bs) total r
    → Consumed (suc n) (suc (length bs + total)) (prepend (b ∷ bs) r)
prepend-Consumed b bs n total (err e) h k = tt
prepend-Consumed b bs n total (ok (cs, w)) h k =
    (omega (arith, length-append bs cs, k.0), omega (arith, k.1))

read_loop-Consumed : (n : ℕ) (w : List SslRead) → Consumed n (length (flat w)) (read_loop n w)
unfolding read_loop flat
read_loop-Consumed zero w = (refl, omega arith)
read_loop-Consumed (suc n) [] = tt
read_loop-Consumed (suc n) (failed code ∷ w) = tt
read_loop-Consumed (suc n) (got b bs ∷ w) = elim (Bool-cases (leb (length bs) n)) [
  | inl shorter ↦
      rw (shorter, length-append bs (flat w))
        (prepend-Consumed b bs n (length (flat w)) (read_loop (n - length bs) w) (ground arith)
          (read_loop-Consumed (n - length bs) w))
  | inr longer ↦
      rw
        (
          longer,
          length-append bs (flat w),
          flat-put_back (drop n bs) w,
          length-append (drop n bs) (flat w),
        )
        (ground (arith, length-take n bs), ground (arith, length-drop n bs))
]

abbrev Taken : ℕ → Channel → Bytes → Type 0
Taken n ch bs = (length bs ≡ n) × (n ≤ pending ch)

ssl_read_exact-Leaves :
    (n : ℕ) (ch : Channel) → Leaves (Taken n ch) (pending ch - n) (ssl_read_exact n ch)
unfolding ssl_read_exact
ssl_read_exact-Leaves n ch = step (read_loop n ch.incoming) (read_loop-Consumed n ch.incoming)
  where
    step :
        (r : Result (Bytes × List SslRead))
        → Consumed n (pending ch) r
        → Leaves (Taken n ch) (pending ch - n) (read_step ch r)
    step (err e) h = tt
    step (ok (bs, w)) h = ((h.0, omega (arith, h.1)), omega (arith, h.1))

-- A step by cases on a test, and a check that throws.
pub if-Leaves {ℓ} :
    {A : Type ℓ} (P : A → Type 0) (n : ℕ) (b : Bool) (f g : Channel → Result A × Channel)
    (ch : Channel)
    → (b ≡ true → Leaves P n (f ch))
    → (b ≡ false → Leaves P n (g ch))
    → Leaves P n ((if b then f else g) ch)
if-Leaves P n true f g ch h k = h refl
if-Leaves P n false f g ch h k = k refl

check-Leaves {ℓ} :
    {A : Type ℓ} (P : A → Type 0) (n : ℕ) (b : Bool) (e : Bytes) (g : Channel → Result A × Channel)
    (ch : Channel)
    → (b ≡ false → Leaves P n (g ch))
    → Leaves P n ((throw_if b e >> g) ch)
check-Leaves P n true e g ch h = tt
check-Leaves P n false e g ch h = h refl

AnyLength : ℕ → Type 0
AnyLength n = Unit {0}

pub weaken {ℓ} :
    {A : Type ℓ} (P Q : A → Type 0) (n k : ℕ) (r : Result A × Channel)
    → Leaves P n r
    → ((a : A) → P a → Q a)
    → n ≤ k
    → Leaves Q k r
weaken P Q n k (ok a, ch) h f le = (f a h.0, omega (arith, h.1))
weaken P Q n k (err e, ch) h f le = tt

extended :
    (k : ℕ) (ch : Channel)
    → Leaves AnyLength (pending ch) ((ssl_read_exact k >>= λ ext. pure (shift_in 0 ext)) ch)
unfolding AnyLength
extended k ch =
    bind-Leaves (Taken k ch) AnyLength (pending ch - k) (pending ch) _ _
      (ssl_read_exact-Leaves k ch) λ bs c h le. (tt, omega (arith, le))

read_length-Leaves : (len : ℕ) (ch : Channel) → Leaves AnyLength (pending ch) (read_length len ch)
unfolding read_length AnyLength
read_length-Leaves len ch =
    if-Leaves AnyLength (pending ch) (len == 126) _ _ ch (λ _. extended 2 ch)
      λ _.
        if-Leaves AnyLength (pending ch) (len == 127) _ _ ch (λ _. extended 8 ch)
          λ _. (tt, omega arith)

abbrev pub Small : ℕ → Frame → Type 0
Small total f = (length f.payload ≤ max_frame_payload) × (2 ≤ total)

payload_read :
    (fin : Bool) (opcode len total left : ℕ) (ch : Channel)
    → ltb max_frame_payload len ≡ false
    → 2 ≤ total
    → pending ch ≤ left
    → Leaves (Small total) left (
        (ssl_read_exact len >>= λ payload.
        pure (record { fin = fin; opcode = opcode; payload = payload }))
          ch)
payload_read fin opcode len total left ch fits two le =
    bind-Leaves (Taken len ch) (Small total) (pending ch - len) left _
      (λ payload c. (ok (record { fin = fin; opcode = opcode; payload = payload }), c))
      (ssl_read_exact-Leaves len ch)
      λ payload c5 h a5. ((ground (arith, h.0, fits), two), omega (arith, le, a5))

pub read_frame-Leaves :
    (ch : Channel) → Leaves (Small (pending ch)) (pending ch - 2) (read_frame ch)
unfolding read_frame
read_frame-Leaves ch =
    let left = pending ch - 2 in
    let Q = Small (pending ch) in
    bind-Leaves (Taken 2 ch) Q left left _ _ (ssl_read_exact-Leaves 2 ch) λ hdr c two a.
      bind-Leaves AnyLength Q (pending c) left _ _ (read_length-Leaves _ c) λ len c1 _ a1.
        let fin = not (bit_and (get_or hdr 0 0) 0x80 == 0) in
        let opcode = bit_and (get_or hdr 0 0) 0x0f in
        let masked = not (bit_and (get_or hdr 1 0) 0x80 == 0) in
        let malformed = not (bit_and opcode 0x08 == 0) && (not fin || ltb 125 len) in
        let body : Channel → Result Frame × Channel = ssl_read_exact len >>= λ payload.
        pure (record { fin = fin; opcode = opcode; payload = payload }) in
        let e2 = codes "ws: server frame is masked (protocol violation)" in
        let e3 = codes "ws: malformed control frame" in
        check-Leaves Q left (ltb max_frame_payload len) (codes "ws: frame payload exceeds limit")
          (throw_if masked e2 >> (throw_if malformed e3 >> body)) c1
          λ fits. check-Leaves Q left masked e2 (throw_if malformed e3 >> body) c1 λ _.
            check-Leaves Q left malformed e3 body c1 λ _.
              payload_read fin opcode len (pending ch) left c1 fits two.1 (omega (arith, a, a1))
