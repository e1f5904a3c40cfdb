-- ===== src/Connection/Frame/Limits.antt =====
-- ws_decode_frame of Connection.cpp ends, and what it returns is bounded.
use epic_1bit2qbit.Prelude.{
  ℕ, zero, suc, ◌+◌, ◌-◌, ◌<◌, ◌≤◌, ◌≡◌, refl, ap, ◌⊎◌, inl, inr, Bool, false, not, ◌||◌, List, [],
  ◌∷◌, ◌++◌, Option, some, length, ltb, ◌==◌, nat_eq, arith, length-append,
}
use epic_1bit2qbit.Prelude.Text.{Bytes}
use epic_1bit2qbit.Prelude.Result.{Exec, Result, ok, err, bind_result, pure}
use epic_1bit2qbit.Connection.Channel.{Channel, SslWrite, Mask, ssl_write_all, write_loop}
use epic_1bit2qbit.Connection.Channel.Reading.{flat}
use epic_1bit2qbit.Connection.Frame.{
  Frame, Round, complete, continue, handle_frame, decode_loop, ws_decode_frame, ws_send_frame,
  ws_encode_frame, encode_step, encode_with, max_frame_payload,
}
use epic_1bit2qbit.Connection.Frame.Reads.{
  pending, Leaves, bind-Leaves, if-Leaves, weaken, Small, read_frame-Leaves,
}

abbrev Bounded : Round → Type 0
Bounded (complete p) = length p ≤ max_frame_payload
Bounded (continue m a) = Unit {0}

written_step :
    (m : Bytes) (r : Bytes × List SslWrite × Result (Unit {0})) (c : Channel)
    → Leaves
        (λ _. Unit {0})
        (pending c)
        (let (taken, left, o) = r in (o, record c { outgoing = left; sent = c.sent ++ taken }))
written_step m (taken, left, ok u) c = (tt, omega arith)
written_step m (taken, left, err e) c = tt

ws_send_frame-pending :
    (opcode : ℕ) (payload : Bytes) (ch : Channel)
    → Leaves (λ _. Unit {0}) (pending ch) (ws_send_frame opcode payload ch)
unfolding ws_send_frame ws_encode_frame encode_step ssl_write_all
ws_send_frame-pending opcode payload ch = send ch.random
  where
    written : (m : Bytes) (c : Channel) → Leaves (λ _. Unit {0}) (pending c) (ssl_write_all m c)
    written m c = written_step m (write_loop c.outgoing m) c

    send :
        (ms : List Mask)
        → Leaves
            (λ _. Unit {0})
            (pending ch)
            (bind_result (encode_step opcode payload ch ms) ssl_write_all)
    send [] = tt
    send (m ∷ ms) = written (encode_with m opcode payload) (record ch { random = ms })

handle_frame-Leaves :
    (f : Frame) (message : Bytes) (assembling : Bool) (ch : Channel)
    → length f.payload ≤ max_frame_payload
    → Leaves Bounded (pending ch) (handle_frame f message assembling ch)
unfolding handle_frame
handle_frame-Leaves f message assembling ch small =
    let n = pending ch in
    if-Leaves Bounded n (f.opcode == 0x08) _ _ ch (λ _. tt)
      λ _.
        if-Leaves Bounded n (f.opcode == 0x09) _ _ ch
          (λ _.
            bind-Leaves _ Bounded n n _ _ (ws_send_frame-pending 0x0a f.payload ch)
              λ _ c _ le. (tt, le))
          λ _.
            if-Leaves Bounded n (f.opcode == 0x0a) _ _ ch (λ _. (tt, omega arith))
              λ _.
                if-Leaves Bounded n (f.opcode == 0x01 || f.opcode == 0x02) _ _ ch
                  (λ _.
                    if-Leaves Bounded n assembling _ _ ch (λ _. tt)
                      λ _.
                        if-Leaves Bounded n f.fin _ _ ch (λ _. (small, omega arith))
                          λ _. (tt, omega arith))
                  λ _.
                    if-Leaves Bounded n (f.opcode == 0x00) _ _ ch
                      (λ _.
                        if-Leaves Bounded n (not assembling) _ _ ch (λ _. tt)
                          λ _.
                            if-Leaves Bounded n
                              (ltb max_frame_payload (length message + length f.payload)) _ _ ch
                              (λ _. tt)
                              λ fits.
                                if-Leaves Bounded n f.fin _ _ ch
                                  (λ _. (
                                    ground (arith, fits, length-append message f.payload),
                                    omega arith,
                                  ))
                                  λ _. (tt, omega arith))
                      λ _. tt

abbrev Returned : Option Bytes → Type 0
Returned o = (p : Bytes) × (o ≡ some p) × (length p ≤ max_frame_payload)

decode_loop-Leaves :
    (fuel : ℕ) (message : Bytes) (assembling : Bool) (ch : Channel)
    → pending ch < fuel
    → Leaves Returned (pending ch) (decode_loop fuel message assembling ch)
unfolding decode_loop
decode_loop-Leaves zero message assembling ch enough = absurd (omega arith)
decode_loop-Leaves (suc fuel) message assembling ch enough =
    bind-Leaves (Small (pending ch)) Returned (pending ch - 2) (pending ch) _ _
      (read_frame-Leaves ch)
      λ f c h a.
        bind-Leaves Bounded Returned (pending c) (pending ch) _ _
          (handle_frame-Leaves f message assembling c h.0) (go (decode_loop-Leaves fuel) c h.1 a)
  where
    go :
        ((m : Bytes) (k : Bool) (c : Channel)
          → pending c < fuel
          → Leaves Returned (pending c) (decode_loop fuel m k c))
        → (c : Channel) → 2 ≤ pending ch
        → pending c ≤ pending ch - 2
        → (next : Round) (c1 : Channel) → Bounded next
        → pending c1 ≤ pending c
        → Leaves Returned (pending ch) (
            (elim next as (λ _. Exec Channel (Option Bytes)) [
              | complete payload ↦ pure (some payload)
              | continue m k ↦ decode_loop fuel m k
            ])
              c1)
    go later c two a (complete p) c1 b a1 = ((p, refl, b), omega (arith, a, a1))
    go later c two a (continue m k) c1 b a1 =
        weaken Returned Returned (pending c1) (pending ch) (decode_loop fuel m k c1)
          (later m k c1 (omega (arith, a, a1, two, enough))) (λ _ r. r) (omega (arith, a, a1))

conclude :
    (n : ℕ) (r : Result (Option Bytes) × Channel)
    → Leaves Returned n r
    → ((e : Bytes) × (r.0 ≡ err e))
      ⊎ ((p : Bytes) × (r.0 ≡ ok (some p)) × (length p ≤ max_frame_payload))
conclude n (err e, ch) h = inl (e, refl)
conclude n (ok o, ch) h = let (p, q, b) = h.0 in inr (p, ap ok q, b)

-- Whatever arrives, with a fuel above the number of bytes that are left to read, the loop throws or
-- returns a message of at most 16384 bytes: it never runs out of fuel.
pub ws_decode_frame_bounded :
    (fuel : ℕ) (ch : Channel)
    → length (flat ch.incoming) < fuel
    → ((e : Bytes) × ((ws_decode_frame fuel ch).0 ≡ err e))
      ⊎ ((p : Bytes) × ((ws_decode_frame fuel ch).0 ≡ ok (some p)) × (length p ≤ max_frame_payload))
unfolding ws_decode_frame
ws_decode_frame_bounded fuel ch enough =
    conclude (pending ch) (decode_loop fuel [] false ch)
      (decode_loop-Leaves fuel [] false ch enough)
