-- ===== src/Runs.antt =====
-- The runs of `InProcessAgentRunner` in src/hermes_vylen_gateway/agent_runner.py, in parts: what a request
-- says, the state of the runner with the life of a run, and the requests and the sweeper.
pub mod Requests
pub mod State
pub mod Handlers
pub mod Approvals
pub mod Reach
pub mod Retry
mod Tests
