-- ===== src/Messaging.antt =====
-- client/src/messaging: messages, conversations and their local store.
pub mod Message
pub mod Conversation
pub mod Table
pub mod Sqlite
pub mod Rows
pub mod Store
pub mod Schema
mod Examples
