-- ===== src/Connection/Lifecycle.antt =====
-- The lifetime of a connection, of client/src/connection/Connection.cpp: connect and disconnect on
-- the caller's thread, read_loop and ping_loop on threads of their own, in any interleaving. Each
-- access to an atomic member, a thread, the socket or ssl_ is a step of its own.
pub mod Drops
pub mod Closing
use epic_1bit2qbit.Prelude.{ℕ, zero, suc, ◌≡◌, Bool, true, false, if◌then◌else◌}

-- Where read_loop is: at the test of its loop, in ws_decode_frame or on_message, in the catch block
-- before connected_ is cleared, and there before running_ is exchanged.
pub data Reader : Type 0 where
  no_reader at_test in_read in_catch in_exchange reader_done : Reader

-- Where ping_loop is: at its tests and its sleep, in ws_send_frame, and in the catch block.
pub data Pinger : Type 0 where
  no_pinger at_sleep in_write in_close pinger_done : Pinger

-- Where the caller's thread is: outside; in connect() with connected_ set, with running_ set, with
-- the first thread started; in disconnect() with running_ cleared, with connected_ cleared, with the
-- socket closed, with one thread joined, with both joined.
pub data Caller : Type 0 where
  outside : Caller
  has_connected has_run has_reader : Caller
  stopped cleared shut joined_one joined_both : Caller

-- A socket that is closed without shutdown() while a read is blocked is `abandoned`.
pub data Socket : Type 0 where
  closed opened abandoned : Socket

pub record Link : Type 0 where
  -- connected_ and running_
  pub connected : Bool
  pub running : Bool
  pub socket : Socket
  -- ssl_ is allocated
  pub ssl : Bool
  pub reader : Reader
  pub pinger : Pinger
  pub caller : Caller
  -- how often on_disconnect has been called since connect()
  pub drops : ℕ

abbrev pub created : Link
created = record {
  connected = false;
  running = false;
  socket = closed;
  ssl = false;
  reader = no_reader;
  pinger = no_pinger;
  caller = outside;
  drops = 0;
}

-- disconnect(): shutdown() and close() of a socket that is open.
abbrev pub shut_down : Socket → Socket
shut_down opened = closed
shut_down closed = closed
shut_down abandoned = abandoned

-- ping_loop: close() alone.
abbrev pub close_only : Socket → Socket
close_only opened = abandoned
close_only closed = closed
close_only abandoned = abandoned

-- `tls` is tls_. The steps that wait for nobody outside the program.
pub data Own (tls : Bool) : Link → Link → Type 0 where
  -- disconnect()
  disconnect_begins :
      (l : Link) → l.caller ≡ outside → Own tls l (record l { running = false; caller = stopped })
  clears_connected :
      (l : Link) → l.caller ≡ stopped → Own tls l (record l { connected = false; caller = cleared })
  shuts_socket :
      (l : Link)
      → l.caller ≡ cleared
      → Own tls l (record l { socket = shut_down l.socket; caller = shut })
  no_reader_to_join :
      (l : Link)
      → l.caller ≡ shut
      → l.reader ≡ no_reader
      → Own tls l (record l { caller = joined_one })
  joins_reader :
      (l : Link)
      → l.caller ≡ shut
      → l.reader ≡ reader_done
      → Own tls l (record l { reader = no_reader; caller = joined_one })
  no_pinger_to_join :
      (l : Link)
      → l.caller ≡ joined_one
      → l.pinger ≡ no_pinger
      → Own tls l (record l { caller = joined_both })
  joins_pinger :
      (l : Link)
      → l.caller ≡ joined_one
      → l.pinger ≡ pinger_done
      → Own tls l (record l { pinger = no_pinger; caller = joined_both })
  frees_ssl :
      (l : Link) → l.caller ≡ joined_both → Own tls l (record l { ssl = false; caller = outside })
  -- connect(), behind ws_handshake
  sets_running :
      (l : Link)
      → l.caller ≡ has_connected
      → Own tls l (record l { running = true; drops = 0; caller = has_run })
  starts_reader :
      (l : Link)
      → l.caller ≡ has_run
      → Own tls l (record l { reader = at_test; caller = has_reader })
  starts_pinger :
      (l : Link)
      → l.caller ≡ has_reader
      → Own tls l (record l { pinger = at_sleep; caller = outside })
  -- read_loop: its test, a read that a shutdown wakes, and the catch block
  reader_goes_on :
      (l : Link) → l.reader ≡ at_test → l.running ≡ true → Own tls l (record l { reader = in_read })
  reader_ends :
      (l : Link)
      → l.reader ≡ at_test
      → l.running ≡ false
      → Own tls l (record l { reader = reader_done })
  read_woken :
      (l : Link)
      → l.reader ≡ in_read
      → l.socket ≡ closed
      → Own tls l (record l { reader = in_catch })
  catch_clears :
      (l : Link)
      → l.reader ≡ in_catch
      → Own tls l (record l { connected = false; reader = in_exchange })
  catch_exchanges :
      (l : Link)
      → l.reader ≡ in_exchange
      → Own tls l (record l {
        running = false;
        drops = if l.running then suc l.drops else l.drops;
        reader = at_test;
      })
  -- ping_loop: its tests, a write on a closed socket, and the catch block
  pinger_goes_on :
      (l : Link)
      → l.pinger ≡ at_sleep
      → l.running ≡ true
      → Own tls l (record l { pinger = in_write })
  pinger_ends :
      (l : Link)
      → l.pinger ≡ at_sleep
      → l.running ≡ false
      → Own tls l (record l { pinger = pinger_done })
  write_woken :
      (l : Link)
      → l.pinger ≡ in_write
      → l.socket ≡ closed
      → Own tls l (record l { pinger = in_close })
  pinger_closes :
      (l : Link)
      → l.pinger ≡ in_close
      → Own tls l (record l { socket = close_only l.socket; pinger = pinger_done })

-- A step of the program, or one that the peer decides on.
pub data Step (tls : Bool) : Link → Link → Type 0 where
  own : (l l' : Link) → Own tls l l' → Step tls l l'
  -- connect(), after its call of disconnect(): a failure leaves the socket and ssl_ as they are
  attempt_failed :
      (l : Link) (kept allocated : Bool)
      → l.caller ≡ outside
      → l.reader ≡ no_reader
      → l.pinger ≡ no_pinger
      → l.ssl ≡ false
      → Step tls l (record l { socket = if kept then opened else closed; ssl = allocated })
  -- connect(): the handshakes are done, and connected_ is set
  established :
      (l : Link)
      → l.caller ≡ outside
      → l.reader ≡ no_reader
      → l.pinger ≡ no_pinger
      → l.ssl ≡ false
      → Step tls l
          (record l { connected = true; socket = opened; ssl = tls; caller = has_connected })
  -- read_loop: a message has been handed to on_message
  message_read : (l : Link) → l.reader ≡ in_read → Step tls l (record l { reader = at_test })
  -- the read fails, or on_message throws
  read_failed : (l : Link) → l.reader ≡ in_read → Step tls l (record l { reader = in_catch })
  -- ping_loop: the write of a ping ends, or fails
  ping_sent : (l : Link) → l.pinger ≡ in_write → Step tls l (record l { pinger = at_sleep })
  ping_failed : (l : Link) → l.pinger ≡ in_write → Step tls l (record l { pinger = in_close })

-- A run from `created`.
pub data Reachable (tls : Bool) : Link → Type 0 where
  start : Reachable tls created
  then_step : (l l' : Link) → Reachable tls l → Step tls l l' → Reachable tls l'
