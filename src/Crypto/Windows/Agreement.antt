-- ===== src/Crypto/Windows/Agreement.antt =====
-- The Windows half of CryptoProxy.cpp speaks the same line protocol as the POSIX half.
use epic_1bit2qbit.Prelude.{
  ◌≡◌, ◌<◌, ◌^◌, refl, ap, true, false, not, Bool, List, [], ◌∷◌, ◌++◌, Option, none, some, map,
  take, drop, length, All, arith, if◌then◌else◌,
}
use epic_1bit2qbit.Prelude.Text.{Bytes, to_string}
use epic_1bit2qbit.Prelude.Result.{Result, ok, err}
use epic_1bit2qbit.Crypto.Pipe
use epic_1bit2qbit.Crypto.Pipe.{
  Reading, chunk, failed, Writing, wrote, refused, Pipe, line_or, split_line, at_eof,
}
use epic_1bit2qbit.Crypto.Windows.{
  FileRead, got, nothing, read_error, FileWrite, took, write_error, Handles, dword, read_line_loop,
  read_line, write_all, after_write, send_recv,
}

abbrev as_reading : FileRead → Reading
as_reading (got b bs) = chunk b bs
as_reading nothing = chunk 0 []
as_reading (read_error code) = failed (to_string code)

abbrev as_writing : FileWrite → Writing
as_writing (took n) = wrote n
as_writing (write_error code) = refused (to_string code)

-- The pipe of the POSIX half that answers as this one does.
abbrev pub as_posix : Handles → Pipe
as_posix p = record {
  is_open = p.is_open;
  read_buf = p.read_buf;
  incoming = map as_reading p.incoming;
  outgoing = map as_writing p.outgoing;
  sent = p.sent;
}

-- The same value, or an exception on both sides; the texts of the exceptions differ.
abbrev pub Agree : {A : Type 0} → Result A → Result A → Type 0
Agree (ok a) (ok b) = a ≡ b
Agree (err e) (err f) = Unit
Agree (ok a) (err f) = ⊥
Agree (err e) (ok b) = ⊥

-- ReadFile gives no success without a byte: the subprocess writes none.
abbrev pub HasBytes : FileRead → Type 0
HasBytes (got b bs) = Unit
HasBytes nothing = ⊥
HasBytes (read_error code) = Unit

abbrev SameRead :
    Result Bytes × Bytes × List FileRead → Result Bytes × Bytes × List Reading → Type 0
SameRead (r, buf, w) (s, kept, v) = Agree r s × (buf ≡ kept) × (map as_reading w ≡ v)

line_or-SameRead :
    (o : Option (Bytes × Bytes)) (w : List FileRead) (here : Result Bytes × Bytes × List FileRead)
    (there : Result Bytes × Bytes × List Reading)
    → SameRead here there
    → SameRead
        (line_or o (λ line rest. (ok line, rest, w)) here)
        (line_or o (λ line rest. (ok line, rest, map as_reading w)) there)
line_or-SameRead none w here there h = h
line_or-SameRead (some (line, rest)) w here there h = (refl, refl, refl)

at_eof-Agree : (buf : Bytes) → Agree (at_eof buf) (at_eof buf)
at_eof-Agree [] = tt
at_eof-Agree (c ∷ buf) = refl

read_line_loop-SameRead :
    (buf : Bytes) (w : List FileRead)
    → All HasBytes w
    → SameRead (read_line_loop buf w) (Pipe.read_line_loop buf (map as_reading w))
unfolding read_line_loop Pipe.read_line_loop
read_line_loop-SameRead buf [] h =
    line_or-SameRead (split_line buf) [] _ _ (at_eof-Agree buf, refl, refl)
read_line_loop-SameRead buf (nothing ∷ w) h = absurd h.0
read_line_loop-SameRead buf (read_error code ∷ w) h =
    line_or-SameRead (split_line buf) (read_error code ∷ w) _ _ (tt, refl, refl)
read_line_loop-SameRead buf (got b bs ∷ w) h =
    line_or-SameRead (split_line buf) (got b bs ∷ w) _ _
      (read_line_loop-SameRead (buf ++ b ∷ bs) w h.1)

abbrev SameWrite :
    Bytes × List FileWrite × Result (Unit {0}) → Bytes × List Writing × Result (Unit {0}) → Type 0
SameWrite (taken, left, r) (taken', left', s) =
    (taken ≡ taken') × (map as_writing left ≡ left') × Agree r s

write_all-SameWrite :
    (ws : List FileWrite) (bytes : Bytes)
    → SameWrite (write_all ws bytes) (Pipe.write_all (map as_writing ws) bytes)
unfolding write_all Pipe.write_all
write_all-SameWrite ws [] = (refl, refl, refl)
write_all-SameWrite [] (b ∷ bs) = (refl, refl, refl)
write_all-SameWrite (write_error code ∷ ws) (b ∷ bs) = (refl, refl, tt)
write_all-SameWrite (took n ∷ ws) (b ∷ bs) =
    let (same, left, agree) = write_all-SameWrite ws (drop n (b ∷ bs)) in
    (ap (◌++◌ (take n (b ∷ bs))) same, left, agree)

-- The same outcome, and the two pipes still answer alike.
abbrev pub SameReply : Result Bytes × Handles → Result Bytes × Pipe → Type 0
SameReply (r, p) (s, q) = Agree r s × (as_posix p ≡ q)

read_line-SameReply :
    (p : Handles) (q : Pipe)
    → All HasBytes p.incoming
    → as_posix p ≡ q
    → SameReply (read_line p) (Pipe.read_line q)
unfolding read_line Pipe.read_line
read_line-SameReply p q h same =
    rw (← same) (finish _ _ (read_line_loop-SameRead p.read_buf p.incoming h))
  where
    finish :
        (o : Result Bytes × Bytes × List FileRead) (o' : Result Bytes × Bytes × List Reading)
        → SameRead o o'
        → SameReply
            (o.0, record p { read_buf = o.1; incoming = o.2 })
            (o'.0, record (as_posix p) { read_buf = o'.1; incoming = o'.2 })
    finish o o' (agree, kept, left) = (agree, rw (kept, left) refl)

after_write-SameReply :
    (p : Handles) (o : Bytes × List FileWrite × Result (Unit {0}))
    (o' : Bytes × List Writing × Result (Unit {0}))
    → All HasBytes p.incoming
    → SameWrite o o'
    → SameReply
        (after_write o.2 (record p { outgoing = o.1; sent = p.sent ++ o.0 }))
        (Pipe.after_write o'.2 (record (as_posix p) { outgoing = o'.1; sent = p.sent ++ o'.0 }))
after_write-SameReply p (taken, left, ok u) (taken', left', ok v) h (same, kept, agree) =
    read_line-SameReply _ _ h (rw (same, kept) refl)
after_write-SameReply p (taken, left, err e) (taken', left', err f) h (same, kept, agree) =
    (tt, rw (same, kept) refl)
after_write-SameReply p (taken, left, ok u) (taken', left', err f) h (same, kept, agree) =
    absurd agree
after_write-SameReply p (taken, left, err e) (taken', left', ok v) h (same, kept, agree) =
    absurd agree

if-SameReply :
    (b : Bool) (x y : Result Bytes × Handles) (x' y' : Result Bytes × Pipe)
    → SameReply x x'
    → SameReply y y'
    → SameReply (if b then x else y) (if b then x' else y')
if-SameReply true x y x' y' h k = h
if-SameReply false x y x' y' h k = k

take_all : (bs : Bytes) → take (length bs) bs ≡ bs
take_all [] = refl
take_all (b ∷ bs) = ap (◌∷◌ b) (take_all bs)

take-dword : (line : Bytes) → length line < 2 ^ 32 → take (dword (length line)) line ≡ line
take-dword line short =
    let same : dword (length line) ≡ length line = omega arith in rw same (take_all line)

-- send_recv of the two halves, for a request below 4 GiB: on the same answers of the system both
-- return the same reply or both throw, have sent the subprocess the same bytes, keep the same bytes
-- for the calls to come, and so go on alike. ReadFile gives no success without a byte.
pub send_recv-SameReply :
    (line : Bytes) (p : Handles)
    → All HasBytes p.incoming
    → length line < 2 ^ 32
    → SameReply (send_recv line p) (Pipe.send_recv line (as_posix p))
unfolding send_recv Pipe.send_recv
send_recv-SameReply line p h short =
    if-SameReply (not p.is_open) _ _ _ _ (tt, refl)
      (rw (take-dword line short)
        (after_write-SameReply p _ _ h (write_all-SameWrite p.outgoing line)))
