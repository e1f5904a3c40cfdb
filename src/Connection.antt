-- ===== src/Connection.antt =====
-- client/src/connection: the TLS byte stream, the WebSocket upgrade and framing, certificate pins.
pub mod Bits
pub mod Channel
pub mod Frame
pub mod Lifecycle
pub mod Tls
pub mod Handshake
pub mod Connect
mod Examples
