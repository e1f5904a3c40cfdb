-- ===== src/Connection/Channel/Reading.antt =====
-- ssl_read_exact does not depend on how the bytes arrive.
use epic_1bit2qbit.Prelude.{
  ℕ, zero, suc, ◌-◌, ◌≤◌, ◌<◌, ◌≡◌, refl, ap, ◌∙◌, List, [], ◌∷◌, ◌++◌, length, take, drop, leb,
  arith, length-append, Bool-cases, inl, inr, true,
}
use epic_1bit2qbit.Prelude.Text.{Bytes}
use epic_1bit2qbit.Prelude.Result.{ok, err}
use epic_1bit2qbit.Connection.Channel.{
  SslRead, got, failed, read_loop, put_back, Channel, ssl_read_exact,
}

-- The bytes that arrive before the first failure.
unfoldable pub flat : List SslRead → Bytes
flat [] = []
flat (failed code ∷ w) = []
flat (got b bs ∷ w) = b ∷ bs ++ flat w

pub flat-put_back : (bs : Bytes) (w : List SslRead) → flat (put_back bs w) ≡ bs ++ flat w
unfolding flat
flat-put_back [] w = refl
flat-put_back (b ∷ bs) w = refl

-- The bytes of a front that is shorter than what arrives first.
split_front :
    (bs xs ys : Bytes) (zs : Bytes)
    → bs ++ zs ≡ xs ++ ys
    → length bs ≤ length xs
    → (more : Bytes) × (xs ≡ bs ++ more) × (zs ≡ more ++ ys)
split_front [] xs ys zs e h = (xs, refl, e)
split_front (b ∷ bs) [] ys zs e h = absurd (omega arith)
split_front (b ∷ bs) (x ∷ xs) ys zs e h =
    let (more, p, q) = split_front bs xs ys zs (ground arith) (omega arith) in
    (more, ground (arith, p), q)

split_back :
    (bs xs ys : Bytes) (zs : Bytes)
    → bs ++ zs ≡ xs ++ ys
    → length xs ≤ length bs
    → (take (length xs) bs ≡ xs) × (drop (length xs) bs ++ zs ≡ ys)
split_back bs [] ys zs e h = (refl, e)
split_back [] (x ∷ xs) ys zs e h = absurd (omega arith)
split_back (b ∷ bs) (x ∷ xs) ys zs e h =
    let (p, q) = split_back bs xs ys zs (ground arith) (omega arith) in (ground (arith, p), q)

read_loop-flat :
    (w : List SslRead) (xs ys : Bytes)
    → flat w ≡ xs ++ ys
    → (w' : List SslRead) × (read_loop (length xs) w ≡ ok (xs, w')) × (flat w' ≡ ys)
unfolding flat read_loop
read_loop-flat w [] ys e = (w, refl, e)
read_loop-flat [] (x ∷ xs) ys e = absurd (cc e)
read_loop-flat (failed code ∷ w) (x ∷ xs) ys e = absurd (cc e)
read_loop-flat (got b bs ∷ w) (x ∷ xs) ys e = elim (Bool-cases (leb (length bs) (length xs))) [
  | inl shorter ↦
      let (more, p, q) = split_front bs xs ys (flat w) (ground arith) (ground arith) in
      let (w', r, f) = read_loop-flat w more ys q in
      let count : length xs - length bs ≡ length more =
        omega (arith, ap length p, length-append bs more) in
      (w', ground (arith, count, r, p), f)
  | inr longer ↦
      let (p, q) = split_back bs xs ys (flat w) (ground arith) (ground arith) in
      (
        put_back (drop (length xs) bs) w,
        ground (arith, p),
        flat-put_back (drop (length xs) bs) w ∙ q,
      )
]

read_loop_short :
    (n : ℕ) (w : List SslRead) → length (flat w) < n → (e : Bytes) × (read_loop n w ≡ err e)
unfolding flat read_loop
read_loop_short zero w h = absurd (omega arith)
read_loop_short (suc n) [] h = (_, refl)
read_loop_short (suc n) (failed code ∷ w) h = (_, refl)
read_loop_short (suc n) (got b bs ∷ w) h =
    let fits : leb (length bs) n ≡ true = ground (arith, length-append bs (flat w)) in
    let (e, r) = read_loop_short (n - length bs) w (omega (arith, length-append bs (flat w))) in
    (e, rw (fits, r))

-- A read of as many bytes as have arrived, in pieces of whatever sizes, returns exactly those and
-- leaves the rest to be read; a read of more bytes than arrive before a failure throws. Neither
-- writes anything.
pub ssl_read_exact_lem :
    (ch : Channel) (xs ys : Bytes) (more : ℕ)
    → flat ch.incoming ≡ xs ++ ys
    → length (flat ch.incoming) < more
    → ((w : List SslRead) × (ssl_read_exact (length xs) ch ≡ (ok xs, record ch { incoming = w }))
        × (flat w ≡ ys))
      × ((e : Bytes) × (ssl_read_exact more ch ≡ (err e, record ch { incoming = [] })))
unfolding ssl_read_exact
ssl_read_exact_lem ch xs ys more split short =
    let (w, r, f) = read_loop-flat ch.incoming xs ys split in
    let (e, q) = read_loop_short more ch.incoming short in ((w, rw r, f), (e, rw q))

-- A read of the next `n` bytes, as a step of a larger run.
pub read_exactly :
    (n : ℕ) (ch : Channel) (xs ys : Bytes)
    → length xs ≡ n
    → flat ch.incoming ≡ xs ++ ys
    → (w : List SslRead) × (ssl_read_exact n ch ≡ (ok xs, record ch { incoming = w }))
      × (flat w ≡ ys)
unfolding ssl_read_exact
read_exactly n ch xs ys count split =
    let (w, r, f) = read_loop-flat ch.incoming xs ys split in (w, rw (← count, r), f)
