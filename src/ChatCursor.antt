-- ===== src/ChatCursor.antt =====
-- The relay of chat events in src/hermes_vylen_gateway/chat_cursor.py, in parts: its frames, the
-- snapshots and lists that it answers, the pushes that it sends, and the subscriptions that it serves.
pub mod Frames
pub mod Queries
pub mod Push
pub mod Subscriptions
mod Tests
