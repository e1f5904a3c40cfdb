-- ===== src/Crypto/Examples.antt =====
-- Concrete runs of CryptoProxy.cpp.
mod Windows
use epic_1bit2qbit.Prelude.{◌≡◌, ◌⊎◌, refl, inl, true, [], ◌∷◌, ◌++◌, some, none, arith}
use epic_1bit2qbit.Prelude.Text.{Bytes, codes}
use epic_1bit2qbit.Prelude.Result.{ok, err}
use epic_1bit2qbit.Crypto.Json.Sample.{plain}
use epic_1bit2qbit.Crypto.Pipe.{Pipe, chunk, interrupted, again, send_recv}
use epic_1bit2qbit.Crypto.Pipe.Lines.{flat, IsLine, Exchange, send_recv_lem}
use epic_1bit2qbit.Crypto.Process.{fresh}
use epic_1bit2qbit.Crypto.Process.Lifetime.{IsTidy, run, starts, stops, reads, run-IsTidy}
use epic_1bit2qbit.Crypto.Call.{call, request_of}
use epic_1bit2qbit.Crypto.Call.Replies.{Answers, call_lem}

abbrev pipe : Pipe
pipe = record {
  is_open = true;
  read_buf = codes "a";
  incoming = interrupted ∷ chunk 98 (10 ∷ 99 ∷ []) ∷ [];
  outgoing = again ∷ [];
  sent = [];
}

ab : IsLine (codes "ab")
ab = ((λ e. absurd (omega (arith, e))), ((λ e. absurd (omega (arith, e))), tt))

send_recv_lem_example :
    Exchange (codes "q") (codes "ab") (codes "c") pipe (send_recv (codes "q") pipe)
send_recv_lem_example =
    send_recv_lem (codes "q") (codes "ab") (codes "c") pipe refl ab (unfold flat in refl)

run-IsTidy_example : IsTidy (
    run
      (starts (record { first_pipe = none; second_pipe = some (codes "full"); fork = none })
        ∷ reads (codes "x")
        ∷ stops
        ∷ [])
      fresh)
run-IsTidy_example =
    (run-IsTidy
      (starts (record { first_pipe = none; second_pipe = some (codes "full"); fork = none })
        ∷ reads (codes "x")
        ∷ stops
        ∷ [])
      fresh (inl (refl, refl, refl, refl))).0

call_lem_example :
    Answers plain
      (plain.dump (request_of plain (codes "m") (codes "p")) ++ 10 ∷ [])
      (codes "ab")
      (codes "c")
      pipe
      (call plain (codes "m") (codes "p") pipe)
call_lem_example =
    call_lem plain (codes "m") (codes "ab") (codes "c") (codes "p") (codes "ab") pipe refl ab
      (unfold flat in refl) refl
