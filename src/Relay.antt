-- ===== src/Relay.antt =====
-- src/hermes_vylen_gateway/relay.py: requests answered by response frames, and their resumption.
pub mod Frames
pub mod Writer
pub mod Mirror
pub mod Resume
pub mod Blobs
mod Tests
