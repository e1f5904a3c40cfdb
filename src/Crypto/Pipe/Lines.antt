-- ===== src/Crypto/Pipe/Lines.antt =====
-- read_line returns the subprocess's lines one by one, however they arrive.
use epic_1bit2qbit.Prelude.{
  ℕ, suc, ◌≡◌, Bool, ◌≢◌, refl, ap, sym, ◌∙◌, ◌⊎◌, inl, inr, true, false, not, List, [], ◌∷◌, ◌++◌,
  Option, none, some, take, drop, All, arith, append_assoc, append-nil, Bool-cases, if◌then◌else◌,
  take-append-drop, if-false, is_empty,
}
use epic_1bit2qbit.Prelude.Text.{Bytes, codes, find, starts_with}
use epic_1bit2qbit.Prelude.Result.{Result, ok, err}
use epic_1bit2qbit.Crypto.Pipe.{
  Reading, chunk, interrupted, failed, Writing, Pipe, newline, split_line, line_or, read_line_loop,
  read_line, write_all, send_recv, wrote, again, refused, after_write,
}

-- The bytes that arrive before the first failure.
unfoldable pub flat : List Reading → Bytes
flat [] = []
flat (chunk b bs ∷ w) = b ∷ bs ++ flat w
flat (interrupted ∷ w) = flat w
flat (failed why ∷ w) = []

abbrev pub IsLine : Bytes → Type 0
IsLine line = All (λ c. c ≢ 10) line

-- A text has one first line.
line_unique :
    (a b line rest : Bytes)
    → IsLine a
    → IsLine line
    → a ++ 10 ∷ b ≡ line ++ 10 ∷ rest
    → (a ≡ line) × (b ≡ rest)
line_unique [] b [] rest ha hl e = (refl, ground (arith, e))
line_unique [] b (c ∷ line) rest ha hl e = absurd (ground (arith, e, hl.0))
line_unique (c ∷ a) b [] rest ha hl e = absurd (ground (arith, e, ha.0))
line_unique (c ∷ a) b (d ∷ line) rest ha hl e =
    let (p, q) = line_unique a b line rest ha.1 hl.1 (ground (arith, e)) in
    (ground (arith, e, p), q)

no_line : (a line rest : Bytes) → IsLine a → a ≢ line ++ 10 ∷ rest
no_line [] [] rest ha e = cc e
no_line [] (c ∷ line) rest ha e = cc e
no_line (c ∷ a) [] rest ha e = ground (arith, e, ha.0)
no_line (c ∷ a) (d ∷ line) rest ha e = no_line a line rest ha.1 (ground (arith, e))

abbrev Found : Bytes → Option ℕ → Type 0
Found buf none = IsLine buf
Found buf (some n) = IsLine (take n buf) × (take n buf ++ 10 ∷ drop (suc n) buf ≡ buf)

Found-step :
    (c : ℕ) (buf : Bytes) (o : Option ℕ)
    → (starts_with newline (c ∷ buf) ≡ true) ⊎ (starts_with newline (c ∷ buf) ≡ false)
    → Found buf o
    → Found (c ∷ buf) (
        if starts_with newline (c ∷ buf)
        then some 0
        else elim o [ none ↦ none | some i ↦ some (suc i) ])
unfolding starts_with
Found-step c buf o (inl here) h = rw here (tt, ground (arith, here))
Found-step c buf none (inr later) h = rw later (ground (arith, later), h)
Found-step c buf (some n) (inr later) h = rw later ((ground (arith, later), h.0), ap (◌∷◌ c) h.1)

find-Found : (buf : Bytes) → Found buf (find newline buf)
unfolding find starts_with
find-Found [] = tt
find-Found (c ∷ buf) =
    Found-step c buf (find newline buf) (Bool-cases (starts_with newline (c ∷ buf)))
      (find-Found buf)

abbrev Split : Bytes → Option (Bytes × Bytes) → Type 0
Split buf none = IsLine buf
Split buf (some (line, rest)) = IsLine line × (line ++ 10 ∷ rest ≡ buf)

split_line-Split : (buf : Bytes) → Split buf (split_line buf)
unfolding split_line
split_line-Split buf = step (find newline buf) (find-Found buf)
  where
    step :
        (o : Option ℕ)
        → Found buf o
        → Split buf (elim o [ none ↦ none | some n ↦ some (take n buf, drop (suc n) buf) ])
    step none h = h
    step (some n) h = h

abbrev Gives : Bytes → Bytes → Result Bytes × Bytes × List Reading → Type 0
Gives line rest (r, buf, w) = (r ≡ ok line) × (buf ++ flat w ≡ rest)

give :
    (line rest buf : Bytes) (w : List Reading) (o : Option (Bytes × Bytes))
    (more : Result Bytes × Bytes × List Reading)
    → IsLine line
    → buf ++ flat w ≡ line ++ 10 ∷ rest
    → Split buf o
    → (IsLine buf → Gives line rest more)
    → Gives line rest (line_or o (λ l r. (ok l, r, w)) more)
give line rest buf w none more hl input s next = next s
give line rest buf w (some (l, r)) more hl input s next =
    let (p, q) =
      line_unique l (r ++ flat w) line rest s.0 hl
        (sym (append_assoc l (10 ∷ r) (flat w)) ∙ ap (λ (b : Bytes). b ++ flat w) s.1 ∙ input) in
    (ap ok p, q)

read_line_loop-Gives :
    (line rest buf : Bytes) (w : List Reading)
    → IsLine line
    → buf ++ flat w ≡ line ++ 10 ∷ rest
    → Gives line rest (read_line_loop buf w)
unfolding read_line_loop flat
read_line_loop-Gives line rest buf [] hl input =
    give line rest buf [] (split_line buf) _ hl input (split_line-Split buf)
      λ h. absurd (no_line buf line rest h (sym (append-nil buf) ∙ input))
read_line_loop-Gives line rest buf (interrupted ∷ w) hl input =
    give line rest buf (interrupted ∷ w) (split_line buf) _ hl input (split_line-Split buf)
      λ h. read_line_loop-Gives line rest buf w hl input
read_line_loop-Gives line rest buf (failed why ∷ w) hl input =
    give line rest buf (failed why ∷ w) (split_line buf) _ hl input (split_line-Split buf)
      λ h. absurd (no_line buf line rest h (sym (append-nil buf) ∙ input))
read_line_loop-Gives line rest buf (chunk b bs ∷ w) hl input =
    give line rest buf (chunk b bs ∷ w) (split_line buf) _ hl input (split_line-Split buf) λ h.
      read_line_loop-Gives line rest (buf ++ b ∷ bs) w hl
        (append_assoc buf (b ∷ bs) (flat w) ∙ input)

abbrev pub is_refusal : Writing → Bool
is_refusal (refused why) = true
is_refusal _ = false

-- Answers of write() that send_recv goes on after: it took some bytes, or it was interrupted.
abbrev pub GoOn : List Writing → Type 0
GoOn = All λ w. is_refusal w ≡ false

abbrev pub write_failed : Bytes → Bytes
write_failed why = codes "CryptoProxy: write to subprocess failed: " ++ why

-- The request went, whatever answers came before; or write() refused, before the request was out.
abbrev Written : List Writing → Bytes → Bytes × List Writing × Result (Unit {0}) → Type 0
Written ws bytes (taken, left, r) =
    (before : List Writing) × GoOn before
    × (((taken ≡ bytes) × (r ≡ ok tt) × (ws ≡ before ++ left))
        ⊎ ((rest : Bytes) × (why : Bytes) × (bytes ≡ taken ++ rest)
            × (is_empty rest ≡ false)
            × (r ≡ err (write_failed why))
            × (ws ≡ before ++ refused why ∷ left)))

write_all-Written : (ws : List Writing) (bytes : Bytes) → Written ws bytes (write_all ws bytes)
unfolding write_all
write_all-Written ws [] = ([], tt, inl (refl, refl, refl))
write_all-Written [] (b ∷ bs) = ([], tt, inl (refl, refl, refl))
write_all-Written (again ∷ ws) (b ∷ bs) =
    step (write_all ws (b ∷ bs)) (write_all-Written ws (b ∷ bs))
  where
    step :
        (o : Bytes × List Writing × Result (Unit {0}))
        → Written ws (b ∷ bs) o
        → Written (again ∷ ws) (b ∷ bs) o
    step o (before, fine, inl (all, good, left)) =
        (again ∷ before, (refl, fine), inl (all, good, ap (◌∷◌ again) left))
    step o (before, fine, inr (rest, why, split, more, bad, left)) =
        (again ∷ before, (refl, fine), inr (rest, why, split, more, bad, ap (◌∷◌ again) left))
write_all-Written (refused why ∷ ws) (b ∷ bs) = ([], tt, inr (b ∷ bs, why, refl, refl, refl, refl))
write_all-Written (wrote n ∷ ws) (b ∷ bs) =
    step (write_all ws (drop n (b ∷ bs))) (write_all-Written ws (drop n (b ∷ bs)))
  where
    step :
        (o : Bytes × List Writing × Result (Unit {0}))
        → Written ws (drop n (b ∷ bs)) o
        → Written (wrote n ∷ ws) (b ∷ bs) (take n (b ∷ bs) ++ o.0, o.1, o.2)
    step o (before, fine, inl (all, good, left)) = (
      wrote n ∷ before,
      (refl, fine),
      inl (rw all (take-append-drop n (b ∷ bs)), good, ap (◌∷◌ (wrote n)) left),
    )
    step o (before, fine, inr (rest, why, split, more, bad, left)) = (
      wrote n ∷ before,
      (refl, fine),
      inr (
        rest,
        why,
        sym (take-append-drop n (b ∷ bs))
            ∙ ap (◌++◌ (take n (b ∷ bs))) split
            ∙ sym (append_assoc (take n (b ∷ bs)) o.0 rest),
        more,
        bad,
        ap (◌∷◌ (wrote n)) left,
      ),
    )

sent_as :
    (line : Bytes) (p : Pipe)
    → p.is_open ≡ true
    → send_recv line p ≡ (
        let (taken, left, r) = write_all p.outgoing line in
        after_write r (record p { outgoing = left; sent = p.sent ++ taken }))
unfolding send_recv
sent_as line p ready = if-false (not p.is_open) _ _ (ap not ready)

-- What a call leaves: the reply, the whole request sent and the next lines kept; or the error of a
-- refused write, a part of the request sent, and the reply still to be read.
abbrev pub Exchange : Bytes → Bytes → Bytes → Pipe → Result Bytes × Pipe → Type 0
Exchange request line rest p (r, p') =
    (before : List Writing) × GoOn before
    × (((r ≡ ok line)
          × (p.outgoing ≡ before ++ p'.outgoing)
          × (p'.sent ≡ p.sent ++ request)
          × (p'.read_buf ++ flat p'.incoming ≡ rest))
        ⊎ ((front : Bytes) × (back : Bytes) × (why : Bytes) × (r ≡ err (write_failed why))
            × (p.outgoing ≡ before ++ refused why ∷ p'.outgoing)
            × (request ≡ front ++ back)
            × (is_empty back ≡ false)
            × (p'.sent ≡ p.sent ++ front)
            × (p'.read_buf ++ flat p'.incoming ≡ line ++ 10 ∷ rest)))

-- One call over the pipe, where the subprocess's next line arrives before read() fails, in whatever
-- pieces and with interruptions. Either the call takes answers of write() none of which is an error,
-- in whatever pieces the request goes and however often write() is interrupted: then the whole request
-- has been sent, the call returns that line, and the lines behind it are kept for the calls to come.
-- Or, behind such answers, write() has refused with an error before the whole request was out: then
-- the call throws that error, a front part of the request has been sent, and nothing has been read.
pub send_recv_lem :
    (request line rest : Bytes) (p : Pipe)
    → p.is_open ≡ true
    → IsLine line
    → p.read_buf ++ flat p.incoming ≡ line ++ 10 ∷ rest
    → Exchange request line rest p (send_recv request p)
unfolding read_line
send_recv_lem request line rest p ready hl input =
    rw (sent_as request p ready)
      (finish (write_all p.outgoing request) (write_all-Written p.outgoing request))
  where
    finish :
        (o : Bytes × List Writing × Result (Unit {0}))
        → Written p.outgoing request o
        → Exchange request line rest p
            (after_write o.2 (record p { outgoing = o.1; sent = p.sent ++ o.0 }))
    finish (taken, left, r) (before, fine, inl (all, good, answers)) =
        let (got, kept) = read_line_loop-Gives line rest p.read_buf p.incoming hl input in
        rw good (before, fine, inl (got, answers, ap (◌++◌ p.sent) all, kept))
    finish (taken, left, r) (before, fine, inr (back, why, split, more, bad, answers)) =
        rw bad (before, fine, inr (taken, back, why, refl, answers, split, more, refl, input))
