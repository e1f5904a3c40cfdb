-- ===== src/Crypto/Examples/Windows.antt =====
-- Concrete runs of the Windows half of CryptoProxy.cpp.
use epic_1bit2qbit.Prelude.{◌≡◌, refl, inl, true, [], ◌∷◌, some, none, arith}
use epic_1bit2qbit.Prelude.Text.{codes}
use epic_1bit2qbit.Crypto.Pipe
use epic_1bit2qbit.Crypto.Windows.{Handles, got, took, send_recv}
use epic_1bit2qbit.Crypto.Windows.Agreement.{as_posix, SameReply, send_recv-SameReply}
use epic_1bit2qbit.Crypto.Windows.Process.{Spawn, fresh, stop}
use epic_1bit2qbit.Crypto.Windows.Process.Lifetime.{
  IsTidy, IsIdle, run, starts, reads, run_windows-IsTidy,
}

abbrev handles : Handles
handles = record {
  is_open = true;
  read_buf = codes "a";
  incoming = got 98 (10 ∷ 99 ∷ []) ∷ [];
  outgoing = took 1 ∷ [];
  sent = [];
}

send_recv-SameReply_example :
    SameReply
      (send_recv (codes "request") handles)
      (Pipe.send_recv (codes "request") (as_posix handles))
send_recv-SameReply_example = send_recv-SameReply (codes "request") handles (tt, tt) (omega arith)

abbrev no_process : Spawn
no_process = record { first_pipe = none; second_pipe = none; create_process = some 2 }

abbrev all_well : Spawn
all_well = record { first_pipe = none; second_pipe = none; create_process = none }

run_windows-IsTidy_example :
    let p =
      run
        (starts (codes "a.py") (codes "py") no_process
          ∷ starts (codes "a.py") (codes "py") all_well
          ∷ reads (codes "x")
          ∷ [])
        fresh in
    IsTidy p × IsIdle (stop p) × ((stop p).read_buf ≡ [])
run_windows-IsTidy_example =
    run_windows-IsTidy
      (starts (codes "a.py") (codes "py") no_process
        ∷ starts (codes "a.py") (codes "py") all_well
        ∷ reads (codes "x")
        ∷ [])
      fresh (inl (refl, refl, refl, refl))
