-- ===== src/Connection/Channel/Writing.antt =====
-- ssl_write_all writes all or a front part, however SSL_write splits the data.
use epic_1bit2qbit.Prelude.{
  ℕ, ◌≡◌, refl, ap, sym, ◌∙◌, ◌⊎◌, inl, inr, List, [], ◌∷◌, ◌++◌, take, drop, arith, append_assoc,
  take-append-drop,
}
use epic_1bit2qbit.Prelude.Text.{Bytes}
use epic_1bit2qbit.Prelude.Result.{Result, ok, err}
use epic_1bit2qbit.Connection.Channel.{SslWrite, wrote, refused, write_loop, Channel, ssl_write_all}

-- All of the data and success, or a front part, short of all, and an error.
abbrev pub Written : Bytes → Bytes → Result (Unit {0}) → Type 0
Written bytes taken r =
    ((taken ≡ bytes) × (r ≡ ok tt))
    ⊎ ((b : ℕ) × (rest : Bytes) × (bytes ≡ taken ++ b ∷ rest) × ((e : Bytes) × (r ≡ err e)))

pub write_loop-Written :
    (ws : List SslWrite) (bytes : Bytes)
    → let (taken, left, r) = write_loop ws bytes in Written bytes taken r
unfolding write_loop
write_loop-Written ws [] = inl (refl, refl)
write_loop-Written [] (b ∷ bs) = inl (refl, refl)
write_loop-Written (refused code ∷ ws) (b ∷ bs) = inr (b, bs, refl, (_, refl))
write_loop-Written (wrote n ∷ ws) (b ∷ bs) = step (write_loop-Written ws (drop n bs))
  where
    step :
        Written (drop n bs) (write_loop ws (drop n bs)).0 (write_loop ws (drop n bs)).2
        → Written
            (b ∷ bs)
            (b ∷ take n bs ++ (write_loop ws (drop n bs)).0)
            (write_loop ws (drop n bs)).2
    step (inl (all, fine)) = inl (rw all (ap (◌∷◌ b) (take-append-drop n bs)), fine)
    step (inr (c, rest, split, failure)) = inr (
      c,
      rest,
      ap (◌∷◌ b) (
          sym (take-append-drop n bs)
          ∙ ap (◌++◌ (take n bs)) split
          ∙ sym (append_assoc (take n bs) (write_loop ws (drop n bs)).0 (c ∷ rest))),
      failure,
    )

-- Whatever parts SSL_write takes, the peer gets the data once, in order and in full, or the write
-- throws and the peer has got a front part short of all; nothing is read.
pub ssl_write_all_lem :
    (ch : Channel) (bytes : Bytes)
    → (taken : Bytes) × (left : List SslWrite) × ((ssl_write_all bytes ch).1
        ≡ record ch { outgoing = left; sent = ch.sent ++ taken })
      × Written bytes taken (ssl_write_all bytes ch).0
unfolding ssl_write_all
ssl_write_all_lem ch bytes =
    let (taken, left, r) = write_loop ch.outgoing bytes in
    (taken, left, refl, write_loop-Written ch.outgoing bytes)

-- An SSL_write that takes all that it is given.
pub ssl_write_all_free :
    (ch : Channel) (bytes : Bytes)
    → ch.outgoing ≡ []
    → ssl_write_all bytes ch ≡ (ok tt, record ch { outgoing = []; sent = ch.sent ++ bytes })
unfolding ssl_write_all write_loop
ssl_write_all_free ch [] free = ground arith
ssl_write_all_free ch (b ∷ bs) free = ground arith
