-- ===== src/Process.antt =====
-- process/: the child processes that the agent runs.
pub mod Budget
pub mod State
pub mod Capture
pub mod Reading
pub mod Lifecycle
pub mod Waiting
mod Examples
