-- ===== src/Runner/Attached.antt =====
-- src/runner.rs: the `attached` field of the session's record.
mod Covers
mod Phases
mod Candidates
mod Rounds
pub use Covers.{IsHonest}
pub use Rounds.{tick-IsHonest, run_loop-IsHonest}
