-- ===== src/Runner/Views.antt =====
-- src/runner.rs: what an attachment is shown, over a whole run.
pub mod Log
pub mod Lasting
pub mod Seen
pub mod Phases
pub mod Replays
pub mod Candidates
pub mod Rounds
