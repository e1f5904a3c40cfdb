-- ===== src/Crypto/Windows/Process.antt =====
-- start and stop of client/src/crypto/CryptoProxy.cpp, the Windows half: the handles that the client
-- holds and the subprocess. What CreatePipe and CreateProcess answer is an input.
pub mod Lifetime
use epic_1bit2qbit.Prelude.{
  ℕ, ◌≡◌, Bool, true, false, not, List, [], ◌∷◌, ◌++◌, Option, none, some, keep, nat_beq,
  if◌then◌else◌,
}
use epic_1bit2qbit.Prelude.Text.{Bytes, codes, to_string}
use epic_1bit2qbit.Prelude.Result.{Result, ok, err, Exec}

-- The answers: `none` for success, or what GetLastError returns.
pub record Spawn : Type 0 where
  pub first_pipe : Option ℕ
  pub second_pipe : Option ℕ
  pub create_process : Option ℕ

pub data Handle : Type 0 where
  child_stdin_read : Handle
  child_stdin_write : Handle
  child_stdout_read : Handle
  child_stdout_write : Handle
  child_process : Handle
  child_thread : Handle

abbrev handle_number : Handle → ℕ
handle_number child_stdin_read = 0
handle_number child_stdin_write = 1
handle_number child_stdout_read = 2
handle_number child_stdout_write = 3
handle_number child_process = 4
handle_number child_thread = 5

abbrev close_handle : Handle → List Handle → List Handle
close_handle h = keep (λ other. not (nat_beq (handle_number h) (handle_number other)))

pub record Subprocess : Type 0 where
  pub stdin_handle : Option Handle
  pub stdout_handle : Option Handle
  pub process_handle : Option Handle
  pub read_buf : Bytes
  -- the handles that the client holds open
  pub open_handles : List Handle
  -- the command line of the subprocess that was started last
  pub command : Bytes

abbrev pub fresh : Subprocess
fresh = record {
  stdin_handle = none;
  stdout_handle = none;
  process_handle = none;
  read_buf = [];
  open_handles = [];
  command = [];
}

-- The script's path is quoted.
abbrev pub command_line : Bytes → Bytes → Bytes
command_line script_path python_exe = python_exe ++ codes " \"" ++ script_path ++ codes "\""

abbrev with_handles : Subprocess → List Handle → Subprocess
with_handles p hs = record p { open_handles = hs }

create_process : Bytes → Option ℕ → Exec Subprocess (Unit {0})
create_process command (some code) p = (
  err (codes "CryptoProxy: CreateProcess failed with error " ++ to_string code),
  with_handles p (
      close_handle child_stdout_read (
        close_handle child_stdin_write
          (close_handle child_stdout_write (close_handle child_stdin_read p.open_handles)))),
)
create_process command none p = (
  ok tt,
  record p {
    stdin_handle = some child_stdin_write;
    stdout_handle = some child_stdout_read;
    process_handle = some child_process;
    command = command;
    open_handles = close_handle child_thread (
        close_handle child_stdout_write
          (close_handle child_stdin_read (child_process ∷ child_thread ∷ p.open_handles)));
  },
)

second_pipe_step : Bytes → Spawn → Option ℕ → Exec Subprocess (Unit {0})
unfolding create_process
second_pipe_step command s (some code) p = (
  err (codes "CryptoProxy: CreatePipe (stdout) failed with error " ++ to_string code),
  with_handles p (close_handle child_stdin_write (close_handle child_stdin_read p.open_handles)),
)
second_pipe_step command s none p =
    create_process command s.create_process
      (with_handles p (child_stdout_read ∷ child_stdout_write ∷ p.open_handles))

first_pipe_step : Bytes → Spawn → Option ℕ → Exec Subprocess (Unit {0})
unfolding second_pipe_step
first_pipe_step command s (some code) p =
    (err (codes "CryptoProxy: CreatePipe (stdin) failed with error " ++ to_string code), p)
first_pipe_step command s none p =
    second_pipe_step command s s.second_pipe
      (with_handles p (child_stdin_read ∷ child_stdin_write ∷ p.open_handles))

abbrev is_set : Option Handle → Bool
is_set none = false
is_set (some h) = true

unfoldable pub start : Bytes → Bytes → Spawn → Exec Subprocess (Unit {0})
unfolding first_pipe_step
start script_path python_exe s p =
    if is_set p.process_handle
    then (err (codes "CryptoProxy::start called but subprocess is already running"), p)
    else first_pipe_step (command_line script_path python_exe) s s.first_pipe p

abbrev close_if : Option Handle → List Handle → List Handle
close_if none hs = hs
close_if (some h) hs = close_handle h hs

-- The subprocess is terminated and waited for.
unfoldable pub stop : Subprocess → Subprocess
stop p = record p {
  stdin_handle = none;
  stdout_handle = none;
  process_handle = none;
  read_buf = [];
  open_handles =
      close_if p.process_handle (close_if p.stdout_handle (close_if p.stdin_handle p.open_handles));
}
