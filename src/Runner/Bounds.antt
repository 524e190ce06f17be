-- ===== src/Runner/Bounds.antt =====
-- src/runner.rs: the memory that the event loop holds.
mod Parts
mod Rules
mod Phases
mod Candidates
mod Rounds
pub use Parts.{Within, ActiveFits, CandidateFits, ConnectionFits, QueueFits, TailFits}
pub use Rules.{IsWithin}
pub use Rounds.{run_loop-IsWithin, start-IsWithin, tick-IsWithin}
