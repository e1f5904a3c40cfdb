-- ===== src/Client.antt =====
-- client/src/client/Client.h and Client.cpp: the client that joins the store, the connection, the
-- crypto subprocess and the window.
pub mod Maps
pub mod State
pub mod Steps
pub mod Content
pub mod Session
pub mod Outbound
pub mod Inbound
pub mod Unlock
pub mod Https
pub mod Login
pub mod Register
pub mod Frames
mod Examples
