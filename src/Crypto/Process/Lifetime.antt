-- ===== src/Crypto/Process/Lifetime.antt =====
-- CryptoProxy.cpp holds descriptors exactly while its subprocess runs.
use epic_1bit2qbit.Prelude.{
  ◌≡◌, refl, ◌⊎◌, inl, inr, true, false, List, [], ◌∷◌, Option, none, some, if-true,
}
use epic_1bit2qbit.Prelude.Text.{Bytes}
use epic_1bit2qbit.Crypto.Process.{
  Spawn, Process, Fd, to_child_write, from_child_read, start, stop, first_pipe_step,
  second_pipe_step, fork_child,
}

-- Stopped, with nothing open; or running, with the client's ends of the two pipes.
abbrev pub IsTidy : Process → Type 0
IsTidy p =
    ((p.running ≡ false) × (p.stdin_fd ≡ none) × (p.stdout_fd ≡ none) × (p.open_fds ≡ []))
    ⊎ ((p.running ≡ true)
        × (p.stdin_fd ≡ some to_child_write)
        × (p.stdout_fd ≡ some from_child_read)
        × (p.open_fds ≡ from_child_read ∷ to_child_write ∷ []))

-- The calls that another part of the client may make, in any order; `read` stands for those that
-- only change the buffer.
pub data Event : Type 0 where
  starts : Spawn → Event
  stops : Event
  reads : Bytes → Event

unfoldable pub run : List Event → Process → Process
unfolding start stop
run [] p = p
run (starts s ∷ es) p = run es (start s p).1
run (stops ∷ es) p = run es (stop p)
run (reads buf ∷ es) p = run es (record p { read_buf = buf })

fork-IsTidy :
    (o : Option Bytes) (buf : Bytes)
    → IsTidy
        (fork_child o (record {
          stdin_fd = none;
          stdout_fd = none;
          running = false;
          read_buf = buf;
          open_fds = from_child_read ∷ Fd.from_child_write ∷ Fd.to_child_read ∷ to_child_write ∷ [];
        })).1
unfolding fork_child
fork-IsTidy none buf = inr (refl, refl, refl, refl)
fork-IsTidy (some why) buf = inl (refl, refl, refl, refl)

second-IsTidy :
    (s : Spawn) (o : Option Bytes) (buf : Bytes)
    → IsTidy
        (second_pipe_step s o (record {
          stdin_fd = none;
          stdout_fd = none;
          running = false;
          read_buf = buf;
          open_fds = Fd.to_child_read ∷ to_child_write ∷ [];
        })).1
unfolding second_pipe_step
second-IsTidy s none buf = fork-IsTidy s.fork buf
second-IsTidy s (some why) buf = inl (refl, refl, refl, refl)

first-IsTidy :
    (s : Spawn) (o : Option Bytes) (buf : Bytes)
    → IsTidy
        (first_pipe_step s o (record {
          stdin_fd = none;
          stdout_fd = none;
          running = false;
          read_buf = buf;
          open_fds = [];
        })).1
unfolding first_pipe_step
first-IsTidy s none buf = second-IsTidy s s.second_pipe buf
first-IsTidy s (some why) buf = inl (refl, refl, refl, refl)

start-IsTidy : (s : Spawn) (p : Process) → IsTidy p → IsTidy (start s p).1
unfolding start
start-IsTidy s p (inl (idle, no_in, no_out, none_open)) =
    rw (idle, no_in, no_out, none_open) (first-IsTidy s s.first_pipe p.read_buf)
start-IsTidy s p (inr h) = rw (if-true p.running _ _ h.0) (inr h)

stop-idle :
    (p : Process)
    → IsTidy p
    → ((stop p).running ≡ false)
      × ((stop p).stdin_fd ≡ none)
      × ((stop p).stdout_fd ≡ none)
      × ((stop p).open_fds ≡ [])
unfolding stop
stop-idle p (inl h) = rw (h.1, h.2, h.3) (refl, refl, refl, refl)
stop-idle p (inr h) = rw (h.1, h.2, h.3) (refl, refl, refl, refl)

-- However start and stop are called, and wherever pipe() or fork() fails, the client holds its two
-- ends of the pipes open exactly while a subprocess runs, and nothing otherwise; and a final stop
-- leaves no descriptor open and no line buffered.
pub run-IsTidy :
    (es : List Event) (p : Process)
    → IsTidy p
    → IsTidy (run es p) × ((stop (run es p)).open_fds ≡ []) × ((stop (run es p)).read_buf ≡ [])
unfolding run
run-IsTidy [] p h = (h, (stop-idle p h).3, unfold stop in refl)
run-IsTidy (starts s ∷ es) p h = run-IsTidy es (start s p).1 (start-IsTidy s p h)
run-IsTidy (stops ∷ es) p h = run-IsTidy es (stop p) (inl (stop-idle p h))
run-IsTidy (reads buf ∷ es) p h = run-IsTidy es (record p { read_buf = buf }) h
