-- ===== src/Crypto/Windows/Process/Lifetime.antt =====
-- The Windows half of CryptoProxy.cpp holds handles exactly while its subprocess runs.
use epic_1bit2qbit.Prelude.{◌≡◌, refl, ◌⊎◌, inl, inr, ℕ, List, [], ◌∷◌, Option, none, some}
use epic_1bit2qbit.Prelude.Text.{Bytes}
use epic_1bit2qbit.Crypto.Windows.Process.{
  Spawn, Subprocess, Handle, child_stdin_write, child_stdout_read, child_process, start, stop,
  first_pipe_step, second_pipe_step, create_process, command_line, fresh,
}

-- Stopped, with nothing open.
abbrev pub IsIdle : Subprocess → Type 0
IsIdle p =
    (p.process_handle ≡ none)
    × (p.stdin_handle ≡ none)
    × (p.stdout_handle ≡ none)
    × (p.open_handles ≡ [])

-- Stopped; or running, with the client's ends of the two pipes and the process.
abbrev pub IsTidy : Subprocess → Type 0
IsTidy p =
    IsIdle p
    ⊎ ((p.process_handle ≡ some child_process)
        × (p.stdin_handle ≡ some child_stdin_write)
        × (p.stdout_handle ≡ some child_stdout_read)
        × (p.open_handles ≡ child_process ∷ child_stdout_read ∷ child_stdin_write ∷ []))

-- What another part of the client may do, in any order; `reads` stands for the calls that only
-- change the buffer.
pub data Event : Type 0 where
  starts : Bytes → Bytes → Spawn → Event
  stops : Event
  reads : Bytes → Event

unfoldable pub run : List Event → Subprocess → Subprocess
unfolding start stop
run [] p = p
run (starts script python s ∷ es) p = run es (start script python s p).1
run (stops ∷ es) p = run es (stop p)
run (reads buf ∷ es) p = run es (record p { read_buf = buf })

-- A stopped subprocess, with a buffer and a command line of the past.
abbrev idle : Bytes → Bytes → List Handle → Subprocess
idle buf old hs = record fresh { read_buf = buf; command = old; open_handles = hs }

create_process-IsTidy :
    (command buf old : Bytes) (o : Option ℕ)
    → IsTidy
        (create_process command o (
          idle buf old (
            child_stdout_read ∷ Handle.child_stdout_write ∷ Handle.child_stdin_read
            ∷ child_stdin_write ∷ []))).1
unfolding create_process
create_process-IsTidy command buf old none = inr (refl, refl, refl, refl)
create_process-IsTidy command buf old (some code) = inl (refl, refl, refl, refl)

second-IsTidy :
    (command buf old : Bytes) (s : Spawn) (o : Option ℕ)
    → IsTidy
        (second_pipe_step command s o
          (idle buf old (Handle.child_stdin_read ∷ child_stdin_write ∷ []))).1
unfolding second_pipe_step
second-IsTidy command buf old s none = create_process-IsTidy command buf old s.create_process
second-IsTidy command buf old s (some code) = inl (refl, refl, refl, refl)

first-IsTidy :
    (command buf old : Bytes) (s : Spawn) (o : Option ℕ)
    → IsTidy (first_pipe_step command s o (idle buf old [])).1
unfolding first_pipe_step
first-IsTidy command buf old s none = second-IsTidy command buf old s s.second_pipe
first-IsTidy command buf old s (some code) = inl (refl, refl, refl, refl)

start-IsTidy :
    (script python : Bytes) (s : Spawn) (p : Subprocess)
    → IsTidy p
    → IsTidy (start script python s p).1
unfolding start
start-IsTidy script python s p (inl (stopped, no_in, no_out, none_open)) =
    rw (stopped, no_in, no_out, none_open)
      (first-IsTidy (command_line script python) p.read_buf p.command s s.first_pipe)
start-IsTidy script python s p (inr h) = rw h.0 (inr (refl, h.1, h.2, h.3))

stop-IsIdle : (p : Subprocess) → IsTidy p → IsIdle (stop p)
unfolding stop
stop-IsIdle p (inl h) = rw (h.0, h.1, h.2, h.3) (refl, refl, refl, refl)
stop-IsIdle p (inr h) = rw (h.0, h.1, h.2, h.3) (refl, refl, refl, refl)

-- However start and stop are called, and wherever CreatePipe or CreateProcess fails, the client
-- holds the process and its two ends of the pipes exactly while a subprocess runs, and no handle
-- otherwise; and a final stop leaves no handle open and no line buffered.
pub run_windows-IsTidy :
    (es : List Event) (p : Subprocess)
    → IsTidy p
    → IsTidy (run es p) × IsIdle (stop (run es p)) × ((stop (run es p)).read_buf ≡ [])
unfolding run
run_windows-IsTidy [] p h = (h, stop-IsIdle p h, unfold stop in refl)
run_windows-IsTidy (starts script python s ∷ es) p h =
    run_windows-IsTidy es (start script python s p).1 (start-IsTidy script python s p h)
run_windows-IsTidy (stops ∷ es) p h = run_windows-IsTidy es (stop p) (inl (stop-IsIdle p h))
run_windows-IsTidy (reads buf ∷ es) p h = run_windows-IsTidy es (record p { read_buf = buf }) h
