-- ===== src/Connection/Channel.antt =====
-- The raw TLS I/O of client/src/connection/Connection.cpp: ssl_read_exact and ssl_write_all. What
-- SSL_read, SSL_write and RAND_bytes answer is an input of the model: a sequence for each.
pub mod Reading
pub mod Writing
use epic_1bit2qbit.Prelude.{
  ℕ, zero, suc, ◌+◌, ◌-◌, ◌≡◌, Bool, List, [], ◌∷◌, ◌++◌, length, take, drop, leb, ltb, ◌==◌,
  nat_eq, if◌then◌else◌,
}
use epic_1bit2qbit.Prelude.Text.{Bytes, codes, to_string}
use epic_1bit2qbit.Prelude.Result.{Result, ok, err, Exec}

-- The bytes that one SSL_read finds (one at least), or the error code of a failure. At the end of
-- the sequence the peer has closed the connection.
pub data SslRead : Type 0 where
  got : ℕ → Bytes → SslRead
  failed : ℕ → SslRead

-- How many bytes an SSL_write takes (`wrote n` is n + 1), or the error code of a failure. Past the
-- end of the sequence each SSL_write takes all.
pub data SslWrite : Type 0 where
  wrote : ℕ → SslWrite
  refused : ℕ → SslWrite

-- The four bytes that a successful RAND_bytes gives.
pub record Mask : Type 0 where
  pub m0 : ℕ
  pub m1 : ℕ
  pub m2 : ℕ
  pub m3 : ℕ

pub record Channel : Type 0 where
  pub incoming : List SslRead
  pub outgoing : List SslWrite
  -- the masks to come; at the end RAND_bytes fails
  pub random : List Mask
  -- what has been written to the peer
  pub sent : Bytes

-- SSL_ERROR_ZERO_RETURN
abbrev pub zero_return : ℕ
zero_return = 6

abbrev pub read_failed : ℕ → Bytes
read_failed code = codes "SSL_read failed: error code " ++ to_string code

abbrev pub put_back : Bytes → List SslRead → List SslRead
put_back [] w = w
put_back (b ∷ bs) w = got b bs ∷ w

abbrev pub prepend : Bytes → Result (Bytes × List SslRead) → Result (Bytes × List SslRead)
prepend bs (ok (cs, w)) = ok (bs ++ cs, w)
prepend bs (err e) = err e

-- The loop `while (total < n)`: each SSL_read takes the next bytes, at most as many as are wanted.
unfoldable pub read_loop : ℕ → List SslRead → Result (Bytes × List SslRead)
read_loop zero w = ok ([], w)
read_loop (suc n) [] = err (read_failed zero_return)
read_loop (suc n) (failed code ∷ w) = err (read_failed code)
read_loop (suc n) (got b bs ∷ w) =
    let more = read_loop (n - length bs) w in
    if leb (length bs) n then prepend (b ∷ bs) more else ok (b ∷ take n bs, put_back (drop n bs) w)

abbrev pub read_step : Channel → Result (Bytes × List SslRead) → Result Bytes × Channel
read_step ch (ok (bs, w)) = (ok bs, record ch { incoming = w })
read_step ch (err e) = (err e, record ch { incoming = [] })

-- A read that fails leaves nothing to read: the source closes the connection on any error.
unfoldable pub ssl_read_exact : ℕ → Exec Channel Bytes
unfolding read_loop
ssl_read_exact n ch = read_step ch (read_loop n ch.incoming)

abbrev pub write_failed : ℕ → Bytes
write_failed code = codes "SSL_write failed: error code " ++ to_string code

-- The loop `while (total < data.size())`, over the answers of SSL_write: the bytes that were
-- taken, the answers left, and whether all were taken.
unfoldable pub write_loop : List SslWrite → Bytes → Bytes × List SslWrite × Result (Unit {0})
write_loop ws [] = ([], ws, ok tt)
write_loop [] (b ∷ bs) = (b ∷ bs, [], ok tt)
write_loop (refused code ∷ ws) (b ∷ bs) = ([], ws, err (write_failed code))
write_loop (wrote n ∷ ws) (b ∷ bs) =
    let (taken, left, r) = write_loop ws (drop n bs) in (b ∷ take n bs ++ taken, left, r)

unfoldable pub ssl_write_all : Bytes → Exec Channel (Unit {0})
unfolding write_loop
ssl_write_all bytes ch =
    let (taken, left, r) = write_loop ch.outgoing bytes in
    (r, record ch { outgoing = left; sent = ch.sent ++ taken })
