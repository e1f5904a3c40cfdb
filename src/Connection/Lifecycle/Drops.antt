-- ===== src/Connection/Lifecycle/Drops.antt =====
-- What holds in every interleaving of a connection's threads.
use epic_1bit2qbit.Prelude.{◌≤◌, ◌≡◌, refl, ap, Bool, true, false, arith, ◌⊎◌}
use epic_1bit2qbit.Connection.Lifecycle.{
  Caller, has_connected, has_run, has_reader, stopped, cleared, shut, joined_one, joined_both,
  no_reader, no_pinger, Socket, closed, opened, abandoned, shut_down, close_only, Link, Own,
  disconnect_begins, clears_connected, shuts_socket, no_reader_to_join, joins_reader,
  no_pinger_to_join, joins_pinger, frees_ssl, sets_running, starts_reader, starts_pinger,
  reader_goes_on, reader_ends, read_woken, catch_clears, catch_exchanges, pinger_goes_on,
  pinger_ends, write_woken, ping_sent, ping_failed, pinger_closes, Step, own, attempt_failed,
  established, message_read, read_failed, Reachable, start, then_step,
}

-- The caller is in disconnect().
abbrev pub is_closing : Caller → Bool
is_closing stopped = true
is_closing cleared = true
is_closing shut = true
is_closing joined_one = true
is_closing joined_both = true
is_closing _ = false

-- It has cleared both flags there.
abbrev pub is_down : Caller → Bool
is_down stopped = false
is_down k = is_closing k

-- It has closed the socket there.
abbrev pub is_shut : Caller → Bool
is_shut shut = true
is_shut joined_one = true
is_shut joined_both = true
is_shut _ = false

abbrev pub is_open : Socket → Bool
is_open opened = true
is_open closed = false
is_open abandoned = false

-- It is in connect(), behind the handshakes.
abbrev pub is_opening : Caller → Bool
is_opening has_connected = true
is_opening has_run = true
is_opening has_reader = true
is_opening _ = false

-- There is no read thread, or no ping thread, at this place.
abbrev pub lacks_reader : Caller → Bool
lacks_reader has_connected = true
lacks_reader has_run = true
lacks_reader joined_one = true
lacks_reader joined_both = true
lacks_reader _ = false

abbrev pub lacks_pinger : Caller → Bool
lacks_pinger has_connected = true
lacks_pinger has_run = true
lacks_pinger has_reader = true
lacks_pinger joined_both = true
lacks_pinger _ = false

-- on_disconnect has been called once at most, and never while running_ is set; a thread that has not
-- been joined has the ssl_ that connect() made; in disconnect(), running_ is not set, nor is
-- connected_ once it has been cleared there, and the socket that it has shut down is not open.
abbrev pub IsSound : Bool → Link → Type 0
IsSound tls l =
    (l.drops ≤ 1)
    × ((l.running ≡ false) ⊎ (l.drops ≡ 0))
    × ((l.reader ≡ no_reader) ⊎ (l.ssl ≡ tls))
    × ((l.pinger ≡ no_pinger) ⊎ (l.ssl ≡ tls))
    × ((is_closing l.caller ≡ false) ⊎ (l.running ≡ false))
    × ((is_down l.caller ≡ false) ⊎ (l.connected ≡ false))
    × ((is_shut l.caller ≡ false) ⊎ (is_open l.socket ≡ false))
    × ((is_opening l.caller ≡ false) ⊎ (l.ssl ≡ tls))
    × ((lacks_reader l.caller ≡ false) ⊎ (l.reader ≡ no_reader))
    × ((lacks_pinger l.caller ≡ false) ⊎ (l.pinger ≡ no_pinger))

-- No call of on_disconnect in disconnect(), and no change of ssl_ while a thread is not joined.
abbrev pub IsQuiet : Link → Link → Type 0
IsQuiet l l' =
    ((is_closing l.caller ≡ false) ⊎ (l'.drops ≡ l.drops))
    × ((l'.ssl ≡ l.ssl) ⊎ ((l.reader ≡ no_reader) × (l.pinger ≡ no_pinger)))

-- What a place says of the six tests.
abbrev pub Says : Caller → Caller → Type 0
Says k c =
    (is_closing k ≡ is_closing c)
    × (is_down k ≡ is_down c)
    × (is_shut k ≡ is_shut c)
    × (is_opening k ≡ is_opening c)
    × (lacks_reader k ≡ lacks_reader c)
    × (lacks_pinger k ≡ lacks_pinger c)

pub says : {k c : Caller} → k ≡ c → Says k c
says e = (
  ap is_closing e,
  ap is_down e,
  ap is_shut e,
  ap is_opening e,
  ap lacks_reader e,
  ap lacks_pinger e,
)

not_open : (s : Socket) → (is_open (shut_down s) ≡ false) × (is_open (close_only s) ≡ false)
not_open opened = (refl, refl)
not_open closed = (refl, refl)
not_open abandoned = (refl, refl)

Own-IsSound : (tls : Bool) (l l' : Link) → IsSound tls l → Own tls l l' → IsSound tls l'
Own-IsSound tls l _ s (disconnect_begins _ c) = ground (arith, s, says c)
Own-IsSound tls l _ s (clears_connected _ c) = ground (arith, s, says c)
Own-IsSound tls l _ s (shuts_socket _ c) = ground (arith, s, not_open l.socket, says c)
Own-IsSound tls l _ s (no_reader_to_join _ c r) = ground (arith, s, says c)
Own-IsSound tls l _ s (joins_reader _ c r) = ground (arith, s, says c)
Own-IsSound tls l _ s (no_pinger_to_join _ c r) = ground (arith, s, says c)
Own-IsSound tls l _ s (joins_pinger _ c r) = ground (arith, s, says c)
Own-IsSound tls l _ s (frees_ssl _ c) = ground (arith, s, says c)
Own-IsSound tls l _ s (sets_running _ c) = ground (arith, s, says c)
Own-IsSound tls l _ s (starts_reader _ c) = ground (arith, s, says c)
Own-IsSound tls l _ s (starts_pinger _ c) = ground (arith, s, says c)
Own-IsSound tls l _ s (reader_goes_on _ r h) = ground (arith, s)
Own-IsSound tls l _ s (reader_ends _ r h) = ground (arith, s)
Own-IsSound tls l _ s (read_woken _ r h) = ground (arith, s)
Own-IsSound tls l _ s (catch_clears _ r) = ground (arith, s)
Own-IsSound tls l _ s (catch_exchanges _ r) = ground (arith, s)
Own-IsSound tls l _ s (pinger_goes_on _ r h) = ground (arith, s)
Own-IsSound tls l _ s (pinger_ends _ r h) = ground (arith, s)
Own-IsSound tls l _ s (write_woken _ r h) = ground (arith, s)
Own-IsSound tls l _ s (pinger_closes _ r) = ground (arith, s, not_open l.socket)

Step-IsSound : (tls : Bool) (l l' : Link) → IsSound tls l → Step tls l l' → IsSound tls l'
Step-IsSound tls l _ s (own _ l' step) = Own-IsSound tls l l' s step
Step-IsSound tls l _ s (attempt_failed _ o a c r p f) = ground (arith, s, says c)
Step-IsSound tls l _ s (established _ c r p f) = ground (arith, s, says c)
Step-IsSound tls l _ s (message_read _ r) = ground (arith, s)
Step-IsSound tls l _ s (read_failed _ r) = ground (arith, s)
Step-IsSound tls l _ s (ping_sent _ r) = ground (arith, s)
Step-IsSound tls l _ s (ping_failed _ r) = ground (arith, s)

pub Reachable-IsSound : (tls : Bool) (l : Link) → Reachable tls l → IsSound tls l
Reachable-IsSound tls _ start = ground arith
Reachable-IsSound tls _ (then_step l l' r s) = Step-IsSound tls l l' (Reachable-IsSound tls l r) s

Own-IsQuiet : (tls : Bool) (l l' : Link) → IsSound tls l → Own tls l l' → IsQuiet l l'
Own-IsQuiet tls l _ s (disconnect_begins _ c) = ground (arith, s, says c)
Own-IsQuiet tls l _ s (clears_connected _ c) = ground (arith, s, says c)
Own-IsQuiet tls l _ s (shuts_socket _ c) = ground (arith, s, says c)
Own-IsQuiet tls l _ s (no_reader_to_join _ c r) = ground (arith, s, says c)
Own-IsQuiet tls l _ s (joins_reader _ c r) = ground (arith, s, says c)
Own-IsQuiet tls l _ s (no_pinger_to_join _ c r) = ground (arith, s, says c)
Own-IsQuiet tls l _ s (joins_pinger _ c r) = ground (arith, s, says c)
Own-IsQuiet tls l _ s (frees_ssl _ c) = ground (arith, s, says c)
Own-IsQuiet tls l _ s (sets_running _ c) = ground (arith, s, says c)
Own-IsQuiet tls l _ s (starts_reader _ c) = ground (arith, s, says c)
Own-IsQuiet tls l _ s (starts_pinger _ c) = ground (arith, s, says c)
Own-IsQuiet tls l _ s (reader_goes_on _ r h) = ground (arith, s)
Own-IsQuiet tls l _ s (reader_ends _ r h) = ground (arith, s)
Own-IsQuiet tls l _ s (read_woken _ r h) = ground (arith, s)
Own-IsQuiet tls l _ s (catch_clears _ r) = ground (arith, s)
Own-IsQuiet tls l _ s (catch_exchanges _ r) = ground (arith, s)
Own-IsQuiet tls l _ s (pinger_goes_on _ r h) = ground (arith, s)
Own-IsQuiet tls l _ s (pinger_ends _ r h) = ground (arith, s)
Own-IsQuiet tls l _ s (write_woken _ r h) = ground (arith, s)
Own-IsQuiet tls l _ s (pinger_closes _ r) = ground (arith, s)

Step-IsQuiet : (tls : Bool) (l l' : Link) → IsSound tls l → Step tls l l' → IsQuiet l l'
Step-IsQuiet tls l _ s (own _ l' step) = Own-IsQuiet tls l l' s step
Step-IsQuiet tls l _ s (attempt_failed _ o a c r p f) = ground (arith, s, says c)
Step-IsQuiet tls l _ s (established _ c r p f) = ground (arith, s, says c)
Step-IsQuiet tls l _ s (message_read _ r) = ground (arith, s)
Step-IsQuiet tls l _ s (read_failed _ r) = ground (arith, s)
Step-IsQuiet tls l _ s (ping_sent _ r) = ground (arith, s)
Step-IsQuiet tls l _ s (ping_failed _ r) = ground (arith, s)

-- In every interleaving of the caller, the read thread and the ping thread, with each access to a
-- shared member a step of its own: on_disconnect has been called at most once since connect() and
-- not at all while running_ is set, disconnect() itself never leads to a call, in disconnect() the flags
-- stay down once they have been cleared, and ssl_ is neither freed nor replaced before both threads
-- have been joined.
pub Step-Reachable :
    (tls : Bool) (l l' : Link) → Reachable tls l → Step tls l l' → IsSound tls l' × IsQuiet l l'
Step-Reachable tls l l' r s =
    let sound = Reachable-IsSound tls l r in
    (Step-IsSound tls l l' sound s, Step-IsQuiet tls l l' sound s)
