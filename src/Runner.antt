-- ===== src/Runner.antt =====
-- src/runner.rs: the process that owns the PTY and serves one attachment at a time.
pub mod State
pub mod Monad
pub mod Ensures
pub mod Connections
pub mod Pty
pub mod Loop
pub mod Bounds
pub mod Attached
pub mod Frame
pub mod Logs
pub mod Peers
pub mod Startup
pub mod Launch
pub mod Ending
pub mod Stopping
pub mod Truth
mod Tests
pub mod Delivery
pub mod Views
