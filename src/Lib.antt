-- ===== src/Lib.antt =====
-- The C++ client of EPIC-1bit2qbit, an end-to-end encrypted messenger for the terminal.
--
-- The program. `Client` (client/src/client) owns four parts and joins them: `Connection`
-- (client/src/connection), which carries WebSocket messages over TLS; `CryptoProxy`
-- (client/src/crypto), which asks a Python subprocess, over two pipes, for all cryptography;
-- `MessageStore` (client/src/messaging), the SQLite database of messages, session states and keys; and
-- `App` (client/src/ui), the window. The window calls the client (`do_register`, `do_login`,
-- `do_send`, ...), the connection's read thread calls it with each frame (`handle_ws_frame`) and with
-- the reason of a drop (`on_disconnect`), and the client pushes what happened into the store, into its
-- conversations in memory and into the window.
--
-- Files and code. Each function of the model has the name of the C++ function that it translates.
-- - Prelude/: tests on numbers and bytes, lists over the native numbers, integers, texts as lists of
--   bytes, and `Exec`, the monad of code that changes a state and may throw (`Result` and the state
--   after it, also where it throws).
-- - Messaging/Message: client/src/messaging/Message.h. Messaging/Conversation:
--   client/src/messaging/Conversation.h and .cpp. Messaging/Sqlite, Table and Rows: the tables and the
--   statements of client/src/messaging/MessageStore.cpp; Messaging/Store: its operations;
--   Messaging/Schema: its constructor, with the migrations, and its destructor.
-- - Connection/Channel: `ssl_read_exact` and `ssl_write_all` of client/src/connection/Connection.cpp,
--   over the pieces in which OpenSSL gives and takes bytes; Connection/Frame: the framing in both
--   directions; Connection/Handshake: the upgrade; Connection/Connect: `tls_handshake` and `connect`
--   up to its threads; Connection/Lifecycle: connect, disconnect and the two threads as a step
--   relation in which each access to a shared member is a step; Connection/Tls: client/src/connection/TlsContext.cpp.
-- - Crypto/Pipe and Process: the POSIX half of client/src/crypto/CryptoProxy.cpp; Crypto/Windows and its
--   Process: the Windows half; Crypto/Call: the methods over both. Crypto/Json: what the client uses
--   of the JSON library, with its laws (Crypto/Json/Laws) and an instance (Crypto/Json/Tree).
-- - Ui/App: the state of client/src/ui/App.h and what the client calls of App.cpp; Ui/Login and
--   Ui/Chat: the buttons and keys of the two screens; Ui/Url: the link of the web verifier; Ui/Render:
--   the texts of both screens.
-- - Client/State: the members of client/src/client/Client.h; Client/Content: the helpers of
--   client/src/client/Client.cpp; Client/Session: its ratchet and session helpers; Client/Outbound:
--   what the window calls, and the ends of a session; Client/Inbound: messages and key bundles that
--   arrive; Client/Https: `https_post`; Client/Register and Client/Login: registration and login;
--   Client/Unlock: the server's confirmation, with the PIN, the lockout and the loading of
--   conversations; Client/Frames: `handle_ws_frame`.
-- Client/Inbound/Delivery composes the sender's client, the server's relay and the receiver's client;
-- Client/Login/Certificate composes `do_login` with `connect` and the pin.
-- A child module proves what its name says of its parent (Connection/Frame/Limits); the modules named
-- Examples hold concrete runs, and those named Sample an instance of a parameter.
--
-- State. A C++ object is a record, a call a function on it; an `std::string` is a list of bytes, a
-- `std::map` an association list in the order of its keys, a null pointer or a null JSON value `none`.
-- Code that throws stops there and keeps what it has changed so far. What the outside does is part of
-- the state: the pieces that SSL_read, SSL_write, read and write deliver or take, the bytes that
-- RAND_bytes draws, the readings of the clock and the callbacks that the window has made.
--
-- Parameters. Code of libraries is never defined here: `Sqlite` (the choice of a fresh id, and the order
-- of rows with one timestamp), `JsonLib` (the JSON values and their functions), `Base64`,
-- SHA-1 and EVP_EncodeBlock, and X509_digest. The answers of Boost.Asio, OpenSSL and the Windows calls are
-- inputs. Theorems name the documented laws that they rely on.
--
-- Fuel. `decode_loop` takes a round per frame; a frame has two bytes at least, so that a fuel above
-- the number of bytes to come is enough. The response of the upgrade is
-- read with a fuel of 8194, one more than the bytes after which the code gives up. The loops on the
-- pipes and on the channel recurse on the list of the outcomes of their system calls.
--
-- Bounds. Lengths of frames are 64-bit and are checked against the limit of 16384; the 32-bit
-- arithmetic of the lockout's delay is written out with its wrap-around. Row ids are natural numbers.
--
-- Simplified: `dump` of the JSON library is total, where the C++ library throws on a string that is not
-- UTF-8; the menu of conversations, which FTXUI drives through a pointer to `selected_conv_`, selects
-- entries that it has, and writes nothing where it has none.
--
-- Not modelled: what Boost.Asio and OpenSSL do inside, the branch of the two I/O functions without TLS,
-- the layout of the screens and the event loop of the window, logging, paths of files and
-- main.cpp. Each operation of `Client` is one step: its mutex is what makes it so in the code; threads
-- are interleaved in Connection/Lifecycle only. The Python subprocess, the server, the web verifier
-- and the contract are other programs: their answers are arbitrary, but for the frame that the server
-- makes of an accepted one (server/backend/handlers/messaging.py, in Client/Inbound/Delivery/Frame).
pub mod Prelude
pub mod Messaging
pub mod Connection
pub mod Crypto
pub mod Ui
pub mod Client
