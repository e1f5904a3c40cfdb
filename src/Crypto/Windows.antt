-- ===== src/Crypto/Windows.antt =====
-- send_recv and read_line of client/src/crypto/CryptoProxy.cpp, the Windows half. What ReadFile and
-- WriteFile answer is an input of the model.
pub mod Process
pub mod Agreement
use epic_1bit2qbit.Prelude.{
  ℕ, ◌+◌, ◌%◌, ◌^◌, Bool, true, false, not, List, [], ◌∷◌, ◌++◌, length, take, drop, if◌then◌else◌,
}
use epic_1bit2qbit.Prelude.Text.{Bytes, codes, to_string}
use epic_1bit2qbit.Prelude.Result.{Result, ok, err, Exec}
use epic_1bit2qbit.Crypto.Pipe.{split_line, line_or, at_eof}

-- ReadFile: some bytes, a success with no byte, or an error code other than ERROR_BROKEN_PIPE. At
-- the end of the sequence, and ever after, the pipe is broken.
pub data FileRead : Type 0 where
  got : ℕ → Bytes → FileRead
  nothing : FileRead
  read_error : ℕ → FileRead

-- WriteFile: it takes n bytes, or an error code. Past the end each write takes all.
pub data FileWrite : Type 0 where
  took : ℕ → FileWrite
  write_error : ℕ → FileWrite

pub record Handles : Type 0 where
  -- stdin_handle_ and stdout_handle_ are set
  pub is_open : Bool
  pub read_buf : Bytes
  pub incoming : List FileRead
  pub outgoing : List FileWrite
  -- what the subprocess has been sent
  pub sent : Bytes

abbrev read_file_failed : ℕ → Bytes
read_file_failed code =
    codes "CryptoProxy: ReadFile from subprocess failed with error " ++ to_string code

-- The loop of read_line: the line or the error, the buffer and the input left.
unfoldable pub read_line_loop : Bytes → List FileRead → Result Bytes × Bytes × List FileRead
read_line_loop buf [] =
    line_or (split_line buf) (λ line rest. (ok line, rest, [])) (at_eof buf, [], [])
read_line_loop buf (nothing ∷ w) =
    line_or (split_line buf) (λ line rest. (ok line, rest, nothing ∷ w)) (at_eof buf, [], w)
read_line_loop buf (read_error code ∷ w) =
    line_or (split_line buf) (λ line rest. (ok line, rest, read_error code ∷ w))
      (err (read_file_failed code), buf, w)
read_line_loop buf (got b bs ∷ w) =
    line_or (split_line buf) (λ line rest. (ok line, rest, got b bs ∷ w))
      (read_line_loop (buf ++ b ∷ bs) w)

unfoldable pub read_line : Exec Handles Bytes
unfolding read_line_loop
read_line p =
    let (r, buf, w) = read_line_loop p.read_buf p.incoming in
    (r, record p { read_buf = buf; incoming = w })

-- static_cast<DWORD>(line.size())
abbrev pub dword : ℕ → ℕ
dword n = n % 2 ^ 32

-- The loop of send_recv: what the subprocess got, the answers left, and how it ended.
unfoldable pub write_all : List FileWrite → Bytes → Bytes × List FileWrite × Result (Unit {0})
write_all ws [] = ([], ws, ok tt)
write_all [] (b ∷ bs) = (b ∷ bs, [], ok tt)
write_all (write_error code ∷ ws) (b ∷ bs) = (
  [],
  ws,
  err (codes "CryptoProxy: WriteFile to subprocess failed with error " ++ to_string code),
)
write_all (took n ∷ ws) (b ∷ bs) =
    let (taken, left, r) = write_all ws (drop n (b ∷ bs)) in (take n (b ∷ bs) ++ taken, left, r)

abbrev after_write : Result (Unit {0}) → Exec Handles Bytes
after_write (ok u) p = read_line p
after_write (err e) p = (err e, p)

unfoldable pub send_recv : Bytes → Exec Handles Bytes
unfolding write_all
send_recv line p =
    if not p.is_open
    then (err (codes "CryptoProxy::send_recv called before start()"), p)
    else let (taken, left, r) = write_all p.outgoing (take (dword (length line)) line) in
      after_write r (record p { outgoing = left; sent = p.sent ++ taken })
