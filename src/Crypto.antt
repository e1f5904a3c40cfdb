-- ===== src/Crypto.antt =====
-- client/src/crypto/CryptoProxy.cpp: the pipe to the subprocess that does the cryptography, its
-- lifetime, and the calls made over it.
pub mod Json
pub mod Pipe
pub mod Process
pub mod Call
pub mod Windows
mod Examples
