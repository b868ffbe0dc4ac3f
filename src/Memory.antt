-- ===== src/Memory.antt =====
-- src/hermes_vylen_gateway/memory.py: the entries of the agent's memory files, and the edits, snapshots
-- and proposals that change them.
pub mod Entries
pub mod Ops
pub mod Files
pub mod Drafts
pub mod Proposals
mod Tests
