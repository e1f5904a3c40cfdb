-- ===== src/Crypto/Pipe.antt =====
-- send_recv and read_line of client/src/crypto/CryptoProxy.cpp (the POSIX half). What read and
-- write answer is an input of the model.
pub mod Lines
use epic_1bit2qbit.Prelude.{
  ℕ, suc, ◌+◌, ◌≡◌, Bool, true, false, not, ◌||◌, List, [], ◌∷◌, ◌++◌, Option, none, some, take,
  drop, is_empty, if◌then◌else◌,
}
use epic_1bit2qbit.Prelude.Text.{Bytes, codes, find}
use epic_1bit2qbit.Prelude.Result.{Result, ok, err, Exec}

-- read(): some bytes, EINTR, or an error with its text. At the end of the sequence, and ever after,
-- the subprocess has closed its side.
pub data Reading : Type 0 where
  chunk : ℕ → Bytes → Reading
  interrupted : Reading
  failed : Bytes → Reading

-- write(): it takes n bytes, EINTR, or an error with its text. Past the end each write takes all.
pub data Writing : Type 0 where
  wrote : ℕ → Writing
  again : Writing
  refused : Bytes → Writing

pub record Pipe : Type 0 where
  -- stdin_fd_ >= 0 and stdout_fd_ >= 0
  pub is_open : Bool
  pub read_buf : Bytes
  pub incoming : List Reading
  pub outgoing : List Writing
  -- what the subprocess has been sent
  pub sent : Bytes

abbrev pub newline : Bytes
newline = 10 ∷ []

-- The first line of the buffer, and the buffer without it.
unfoldable pub split_line : Bytes → Option (Bytes × Bytes)
split_line buf = elim (find newline buf) [
  | none ↦ none
  | some n ↦ some (take n buf, drop (suc n) buf)
]

abbrev pub read_failed : Bytes → Bytes
read_failed why = codes "CryptoProxy: read from subprocess failed: " ++ why

abbrev pub closed_early : Bytes
closed_early = codes "CryptoProxy: subprocess closed the pipe before sending a response"

-- At the end of the input: what is in the buffer is surfaced as a line.
abbrev pub at_eof : Bytes → Result Bytes
at_eof [] = err closed_early
at_eof (c ∷ buf) = ok (c ∷ buf)

abbrev pub line_or {ℓ} : {A : Type ℓ} → Option (Bytes × Bytes) → (Bytes → Bytes → A) → A → A
line_or none found more = more
line_or (some (line, rest)) found more = found line rest

-- The loop of read_line: the line or the error, the buffer and the input left.
unfoldable pub read_line_loop : Bytes → List Reading → Result Bytes × Bytes × List Reading
read_line_loop buf [] =
    line_or (split_line buf) (λ line rest. (ok line, rest, [])) (at_eof buf, [], [])
read_line_loop buf (interrupted ∷ w) =
    line_or (split_line buf) (λ line rest. (ok line, rest, interrupted ∷ w)) (read_line_loop buf w)
read_line_loop buf (failed why ∷ w) =
    line_or (split_line buf) (λ line rest. (ok line, rest, failed why ∷ w))
      (err (read_failed why), buf, w)
read_line_loop buf (chunk b bs ∷ w) =
    line_or (split_line buf) (λ line rest. (ok line, rest, chunk b bs ∷ w))
      (read_line_loop (buf ++ b ∷ bs) w)

unfoldable pub read_line : Exec Pipe Bytes
unfolding read_line_loop
read_line p =
    let (r, buf, w) = read_line_loop p.read_buf p.incoming in
    (r, record p { read_buf = buf; incoming = w })

-- The loop of send_recv: what the subprocess got, the answers left, and how it ended. A write that
-- takes nothing is tried again.
unfoldable pub write_all : List Writing → Bytes → Bytes × List Writing × Result (Unit {0})
write_all ws [] = ([], ws, ok tt)
write_all [] (b ∷ bs) = (b ∷ bs, [], ok tt)
write_all (again ∷ ws) (b ∷ bs) = write_all ws (b ∷ bs)
write_all (refused why ∷ ws) (b ∷ bs) =
    ([], ws, err (codes "CryptoProxy: write to subprocess failed: " ++ why))
write_all (wrote n ∷ ws) (b ∷ bs) =
    let (taken, left, r) = write_all ws (drop n (b ∷ bs)) in (take n (b ∷ bs) ++ taken, left, r)

abbrev pub after_write : Result (Unit {0}) → Exec Pipe Bytes
after_write (ok u) p = read_line p
after_write (err e) p = (err e, p)

unfoldable pub send_recv : Bytes → Exec Pipe Bytes
unfolding write_all
send_recv line p =
    if not p.is_open
    then (err (codes "CryptoProxy::send_recv called before start()"), p)
    else let (taken, left, r) = write_all p.outgoing line in
      after_write r (record p { outgoing = left; sent = p.sent ++ taken })
