-- ===== src/Connection/Lifecycle/Closing.antt =====
-- disconnect() of client/src/connection/Connection.cpp comes to its end.
use epic_1bit2qbit.Prelude.{ℕ, ◌+◌, ◌<◌, ◌≡◌, Bool, true, false, ◌⊎◌}
use epic_1bit2qbit.Connection.Lifecycle.{
  Reader, no_reader, at_test, in_read, in_catch, in_exchange, Pinger, no_pinger, at_sleep, in_write,
  in_close, Caller, outside, stopped, cleared, shut, joined_one, joined_both, abandoned, Link, Own,
}
use epic_1bit2qbit.Connection.Lifecycle.Drops.{is_closing}

-- How many steps the two threads and the caller can still take in disconnect().
abbrev pub reader_steps : Reader → ℕ
reader_steps in_read = 4
reader_steps in_catch = 3
reader_steps in_exchange = 2
reader_steps at_test = 1
reader_steps _ = 0

abbrev pub pinger_steps : Pinger → ℕ
pinger_steps in_write = 3
pinger_steps in_close = 2
pinger_steps at_sleep = 1
pinger_steps _ = 0

abbrev pub caller_steps : Caller → ℕ
caller_steps stopped = 5
caller_steps cleared = 4
caller_steps shut = 3
caller_steps joined_one = 2
caller_steps joined_both = 1
caller_steps _ = 0

abbrev pub steps_left : Link → ℕ
steps_left l = caller_steps l.caller + reader_steps l.reader + pinger_steps l.pinger

-- What disconnect() leaves behind: no thread, no ssl_, no flag.
abbrev pub IsDown : Link → Type 0
IsDown l =
    (l.caller ≡ outside)
    × (l.reader ≡ no_reader)
    × (l.pinger ≡ no_pinger)
    × (l.ssl ≡ false)
    × (l.running ≡ false)
    × (l.connected ≡ false)

-- A step in disconnect() ends it or stays in it, with fewer steps left.
abbrev pub Advances : Link → Link → Type 0
Advances l l' = (IsDown l' ⊎ (is_closing l'.caller ≡ true)) × (steps_left l' < steps_left l)

abbrev CanStep : Bool → Link → Type 0
CanStep tls l = (l' : Link) × Own tls l l'

-- The program can take a step of its own, or the ping thread has closed the socket without shutdown().
abbrev pub Waits : Bool → Link → Type 0
Waits tls l = (l.socket ≡ abandoned) ⊎ CanStep tls l
