-- ===== src/Client/Https/Answers.antt =====
-- What https_post of Client.cpp makes of the server's answer.
use epic_1bit2qbit.Prelude.{
  ℕ, suc, ◌^◌, ◌<◌, ◌≡◌, ◌≢◌, refl, ap, ◌∙◌, ◌⊎◌, inl, inr, true, List, [], ◌∷◌, ◌++◌, some, length,
  drop, All, arith, take-append_length,
}
use epic_1bit2qbit.Prelude.Int.{pos}
use epic_1bit2qbit.Prelude.Text.{Bytes, codes, to_string, find, starts_with}
use epic_1bit2qbit.Prelude.Text.Decimal.{stoi-to_string, to_string-IsDecimal, IsDecimal, is_digit}
use epic_1bit2qbit.Prelude.Result.{Result, ok, err}
use epic_1bit2qbit.Connection.Channel.{SslRead, got, failed, SslWrite, write_loop}
use epic_1bit2qbit.Connection.Channel.Reading.{flat}
use epic_1bit2qbit.Connection.Channel.Writing.{Written, write_loop-Written}
use epic_1bit2qbit.Client.Https.{
  Exchange, read_all, body_of, parse_response, https_post, post_request, exchange, after_tcp,
  written, parsed, first_space, second_space, status_and_body,
}

-- The server closes the connection at the end of its answer, in one of the two ways.
unfoldable pub ClosesAfter : List SslRead → Type 0
ClosesAfter [] = Unit
ClosesAfter (failed code ∷ w) = (code ≡ 6) ⊎ (code ≡ 5)
ClosesAfter (got b bs ∷ w) = ClosesAfter w

read_all-flat : (w : List SslRead) → ClosesAfter w → read_all w ≡ ok (flat w)
unfolding read_all flat ClosesAfter
read_all-flat [] h = refl
read_all-flat (failed code ∷ w) (inl h) = ground (arith, h)
read_all-flat (failed code ∷ w) (inr h) = ground (arith, h)
read_all-flat (got b bs ∷ w) h = rw (read_all-flat w h) refl

-- A text without a space.
abbrev pub NoSpace : Bytes → Type 0
NoSpace s = All (λ c. c ≢ 32) s

find_space : (s rest : Bytes) → NoSpace s → find (codes " ") (s ++ 32 ∷ rest) ≡ some (length s)
unfolding find starts_with
find_space [] rest h = refl
find_space (c ∷ s) rest h = ground (arith, h.0, find_space s rest h.1)

digits-NoSpace : (s : Bytes) → All (λ d. is_digit d ≡ true) s → NoSpace s
digits-NoSpace [] h = tt
digits-NoSpace (c ∷ s) h = (λ e. ground (arith, e, h.0), digits-NoSpace s h.1)

IsDecimal-NoSpace : (s : Bytes) → IsDecimal s → NoSpace s
IsDecimal-NoSpace [] h = absurd h
IsDecimal-NoSpace (c ∷ s) h = digits-NoSpace (c ∷ s) h

drop_past : (s rest : Bytes) → drop (suc (length s)) (s ++ 32 ∷ rest) ≡ rest
drop_past [] rest = refl
drop_past (c ∷ s) rest = drop_past s rest

-- The status that a server writes between the first two spaces of its answer.
abbrev pub answer_of : Bytes → ℕ → Bytes → Bytes
answer_of version n rest = version ++ 32 ∷ (to_string n ++ 32 ∷ rest)

pub parse_response-answer_of :
    (version rest : Bytes) (n : ℕ)
    → NoSpace version
    → n < 2 ^ 31
    → parse_response (answer_of version n rest)
      ≡ ok (record { status = pos n; body = body_of (answer_of version n rest) })
unfolding parse_response first_space second_space status_and_body
parse_response-answer_of version rest n plain small =
    let first = find_space version (to_string n ++ 32 ∷ rest) plain in
    let second =
      find_space (to_string n) rest (IsDecimal-NoSpace (to_string n) (to_string-IsDecimal n)) in
    rw
      (
        first,
        drop_past version (to_string n ++ 32 ∷ rest),
        second,
        take-append_length (to_string n) (32 ∷ rest),
        stoi-to_string n small,
      )
      refl

-- A server that answers an exchange with an HTTP status `n` that fits an int, in pieces of whatever
-- sizes, and closes the connection: the request has been sent in full and the status is `n`, or the
-- request could not be written in full, and https_post throws.
pub https_post_status :
    {C : Type 0} (x : Exchange C) (host path json_body version rest : Bytes) (n : ℕ)
    → x.tcp ≡ ok tt
    → x.negotiation.allocated ≡ true
    → x.negotiation.connected ≡ true
    → NoSpace version
    → n < 2 ^ 31
    → ClosesAfter x.incoming
    → flat x.incoming ≡ answer_of version n rest
    → let (sent, r) = https_post x host path json_body in
      let request = post_request host path json_body in
      ((sent ≡ request)
        × (r ≡ ok (record { status = pos n; body = body_of (answer_of version n rest) })))
      ⊎ ((b : ℕ) × (back : Bytes) × (request ≡ sent ++ b ∷ back)
          × (r ≡ err (codes "SSL_write failed during registration")))
unfolding https_post after_tcp exchange written parsed
https_post_status x host path json_body version rest n tcp allocated connected plain small closes
      input =
    rw (tcp, allocated, connected)
      (finish (write_loop x.outgoing request) (write_loop-Written x.outgoing request))
  where
    request : Bytes
    request = post_request host path json_body

    answered : read_all x.incoming ≡ ok (answer_of version n rest)
    answered = read_all-flat x.incoming closes ∙ ap ok input

    finish :
        (o : Bytes × List SslWrite × Result (Unit {0}))
        → Written request o.0 o.2
        → ((o.0 ≡ request)
            × (written x.incoming o.2
                ≡ ok (record { status = pos n; body = body_of (answer_of version n rest) })))
          ⊎ ((b : ℕ) × (back : Bytes) × (request ≡ o.0 ++ b ∷ back)
              × (written x.incoming o.2 ≡ err (codes "SSL_write failed during registration")))
    finish (taken, left, r) (inl (all, fine)) =
        inl (all, rw (fine, answered) (parse_response-answer_of version rest n plain small))
    finish (taken, left, r) (inr (b, back, split, (e, failure))) =
        inr (b, back, split, rw failure refl)
