-- ===== src/ChatStore.antt =====
-- src/hermes_vylen_gateway/chat_store.py: the chat events that are kept in SQLite.
pub mod Tables
pub mod Rows
pub mod Texts
pub mod Ids
pub mod Store
pub mod Append
pub mod Reads
pub mod Sweep
pub mod Listing
pub mod Tail
pub mod Valid
pub mod Appended
pub mod Clients
pub mod Writers
pub mod System
pub mod Replay
pub mod Snapshot
pub mod Tests
