-- ===== src/Client/Https.antt =====
-- https_post of client/src/client/Client.cpp: one HTTP exchange over TLS. What Boost.Asio and OpenSSL
-- answer is an input.
pub mod Answers
use epic_1bit2qbit.Prelude.{
  ℕ, suc, ◌+◌, ◌-◌, ◌*◌, ◌^◌, ◌≡◌, Bool, true, false, not, ◌&&◌, ◌||◌, List, [], ◌∷◌, ◌++◌, Option,
  none, some, length, take, drop, ltb, leb, nat_beq, ◌==◌, nat_eq, if◌then◌else◌,
}
use epic_1bit2qbit.Prelude.Int.{ℤ}
use epic_1bit2qbit.Prelude.Text.{Bytes, codes, to_string, find}
use epic_1bit2qbit.Prelude.Text.Decimal.{stoi}
use epic_1bit2qbit.Prelude.Result.{Result, ok, err}
use epic_1bit2qbit.Connection.Channel.{SslRead, got, failed, SslWrite, write_loop}
use epic_1bit2qbit.Connection.Handshake.{crlf, end_of_headers}
use epic_1bit2qbit.Connection.Connect.{Negotiation, connect_error}

-- The answers to one exchange.
pub record Exchange (C : Type 0) : Type 0 where
  -- the exception of resolve or connect, if one of them throws
  pub tcp : Result (Unit {0})
  pub negotiation : Negotiation C
  pub incoming : List SslRead
  pub outgoing : List SslWrite

pub record HttpResponse : Type 0 where
  pub status : ℤ
  pub body : Bytes

unfoldable pub post_request : Bytes → Bytes → Bytes → Bytes
post_request host path json_body =
    codes "POST "
    ++ path
    ++ codes " HTTP/1.1"
    ++ crlf
    ++ codes "Host: "
    ++ host
    ++ crlf
    ++ codes "Content-Type: application/json"
    ++ crlf
    ++ codes "Content-Length: "
    ++ to_string (length json_body)
    ++ crlf
    ++ codes "Connection: close"
    ++ crlf
    ++ crlf
    ++ json_body

abbrev pub prepend_all : Bytes → Result Bytes → Result Bytes
prepend_all bs (ok more) = ok (bs ++ more)
prepend_all bs (err e) = err e

-- The loop of SSL_read: SSL_ERROR_ZERO_RETURN (6) and SSL_ERROR_SYSCALL (5) end it. At the end of the
-- sequence the server has closed the connection.
unfoldable pub read_all : List SslRead → Result Bytes
read_all [] = ok []
read_all (failed code ∷ w) =
    if code == 6 || code == 5 then ok [] else err (codes "SSL_read failed during registration")
read_all (got b bs ∷ w) = prepend_all (b ∷ bs) (read_all w)

abbrev pub malformed : Bytes
malformed = codes "malformed HTTP response from server"

abbrev pub body_of : Bytes → Bytes
body_of response = elim (find end_of_headers response) [
  | none ↦ []
  | some at ↦ drop (at + 4) response
]

status_and_body : Bytes → Result ℤ → Result HttpResponse
status_and_body response (err e) = err e
status_and_body response (ok status) = ok (record { status = status; body = body_of response })

-- The text between the first two spaces is the status.
second_space : Bytes → Bytes → Option ℕ → Result HttpResponse
unfolding status_and_body stoi
second_space response after none = err malformed
second_space response after (some sp2) = status_and_body response (stoi (take sp2 after))

first_space : Bytes → Option ℕ → Result HttpResponse
unfolding second_space
first_space response none = err malformed
first_space response (some sp1) =
    let after = drop (suc sp1) response in second_space response after (find (codes " ") after)

unfoldable pub parse_response : Bytes → Result HttpResponse
unfolding first_space
parse_response response = first_space response (find (codes " ") response)

parsed : Result Bytes → Result HttpResponse
unfolding parse_response
parsed (err e) = err e
parsed (ok response) = parse_response response

written : List SslRead → Result (Unit {0}) → Result HttpResponse
unfolding parsed read_all
written w (err e) = err (codes "SSL_write failed during registration")
written w (ok u) = parsed (read_all w)

exchange : {C : Type 0} → Exchange C → Bytes → Bytes × Result HttpResponse
unfolding written write_loop
exchange x request =
    let (taken, left, r) = write_loop x.outgoing request in (taken, written x.incoming r)

after_tcp : {C : Type 0} → Exchange C → Bytes → Result (Unit {0}) → Bytes × Result HttpResponse
unfolding exchange
after_tcp x request (err e) = ([], err e)
after_tcp x request (ok u) =
    if not x.negotiation.allocated
    then ([], err (codes "SSL_new failed"))
    else if not x.negotiation.connected
    then ([], err (connect_error x.negotiation))
    else exchange x request

-- What the server has been sent, and the response or the exception.
unfoldable pub https_post :
    {C : Type 0} → Exchange C → Bytes → Bytes → Bytes → Bytes × Result HttpResponse
unfolding after_tcp post_request
https_post x host path json_body = after_tcp x (post_request host path json_body) x.tcp
