-- ===== src/Crypto/Process.antt =====
-- start and stop of client/src/crypto/CryptoProxy.cpp (the POSIX half): the descriptors that the
-- client holds and the subprocess. What pipe() and fork() answer is an input.
pub mod Lifetime
use epic_1bit2qbit.Prelude.{
  ℕ, ◌+◌, ◌≡◌, Bool, true, false, not, ◌||◌, ◌&&◌, List, [], ◌∷◌, ◌++◌, Option, none, some, keep,
  nat_beq, if◌then◌else◌,
}
use epic_1bit2qbit.Prelude.Text.{Bytes, codes}
use epic_1bit2qbit.Prelude.Result.{Result, ok, err, Exec}

-- The answers: `none` for success, or the text of errno.
pub record Spawn : Type 0 where
  pub first_pipe : Option Bytes
  pub second_pipe : Option Bytes
  pub fork : Option Bytes

pub data Fd : Type 0 where
  to_child_read : Fd
  to_child_write : Fd
  from_child_read : Fd
  from_child_write : Fd

abbrev pub fd_number : Fd → ℕ
fd_number to_child_read = 0
fd_number to_child_write = 1
fd_number from_child_read = 2
fd_number from_child_write = 3

abbrev pub close : Fd → List Fd → List Fd
close fd = keep (λ other. not (nat_beq (fd_number fd) (fd_number other)))

pub record Process : Type 0 where
  pub stdin_fd : Option Fd
  pub stdout_fd : Option Fd
  -- subprocess_pid_ > 0
  pub running : Bool
  pub read_buf : Bytes
  -- the descriptors that the client holds open
  pub open_fds : List Fd

abbrev pub fresh : Process
fresh = record { stdin_fd = none; stdout_fd = none; running = false; read_buf = []; open_fds = [] }

abbrev pub with_fds : Process → List Fd → Process
with_fds p fds = record p { open_fds = fds }

fork_child : Option Bytes → Exec Process (Unit {0})
fork_child (some why) p = (
  err (codes "CryptoProxy: fork() failed: " ++ why),
  with_fds p (
      close from_child_write
        (close from_child_read (close to_child_write (close to_child_read p.open_fds)))),
)
fork_child none p = (
  ok tt,
  record p {
    stdin_fd = some to_child_write;
    stdout_fd = some from_child_read;
    running = true;
    open_fds = close from_child_write (close to_child_read p.open_fds);
  },
)

second_pipe_step : Spawn → Option Bytes → Exec Process (Unit {0})
unfolding fork_child
second_pipe_step s (some why) p = (
  err (codes "CryptoProxy: pipe() failed: " ++ why),
  with_fds p (close to_child_write (close to_child_read p.open_fds)),
)
second_pipe_step s none p =
    fork_child s.fork (with_fds p (from_child_read ∷ from_child_write ∷ p.open_fds))

first_pipe_step : Spawn → Option Bytes → Exec Process (Unit {0})
unfolding second_pipe_step
first_pipe_step s (some why) p = (err (codes "CryptoProxy: pipe() failed: " ++ why), p)
first_pipe_step s none p =
    second_pipe_step s s.second_pipe (with_fds p (to_child_read ∷ to_child_write ∷ p.open_fds))

unfoldable pub start : Spawn → Exec Process (Unit {0})
unfolding first_pipe_step
start s p =
    if p.running
    then (err (codes "CryptoProxy::start called but subprocess is already running"), p)
    else first_pipe_step s s.first_pipe p

abbrev pub close_if : Option Fd → List Fd → List Fd
close_if none fds = fds
close_if (some fd) fds = close fd fds

-- The subprocess gets SIGTERM and is waited for.
unfoldable pub stop : Process → Process
stop p = record {
  stdin_fd = none;
  stdout_fd = none;
  running = false;
  read_buf = [];
  open_fds = close_if p.stdout_fd (close_if p.stdin_fd p.open_fds);
}
