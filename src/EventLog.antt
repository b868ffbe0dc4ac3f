-- ===== src/EventLog.antt =====
-- src/hermes_vylen_gateway/event_log.py: bounded logs of retained events, their tailers, and the
-- registry of logs.
pub mod Log
pub mod Window
pub mod History
pub mod Append
pub mod Replay
pub mod Tail
pub mod Registry
mod Tests
