-- ===== src/Registry/Metadata.antt =====
-- src/registry.rs: the record of a session, as its metadata file holds it.
use afk_cli.Prelude.{ℕ, ◌-◌, ◌≡◌, refl, List, Bool, false, leb}
use afk_cli.Limits.{completed_retention_seconds}
use afk_cli.Ipc.{ProcessExit}

pub data ExitMetadata : Type 0 where
  code signal : ℕ → ExitMetadata

-- The two `From` implementations.
unfoldable pub to_metadata : ProcessExit → ExitMetadata
to_metadata (ProcessExit.code c) = ExitMetadata.code c
to_metadata (ProcessExit.signal s) = ExitMetadata.signal s

unfoldable pub to_process_exit : ExitMetadata → ProcessExit
to_process_exit (ExitMetadata.code c) = ProcessExit.code c
to_process_exit (ExitMetadata.signal s) = ProcessExit.signal s

-- `SessionMetadata::Live`; an identifier is the bytes of its text.
pub record Live : Type 0 where
  pub session_id : List ℕ
  pub runner_pid : ℕ
  pub child_pid : ℕ
  pub started_at : ℕ
  pub attached : Bool

-- `SessionMetadata::Completed`
pub record Completed : Type 0 where
  pub session_id : List ℕ
  pub started_at : ℕ
  pub finished_at : ℕ
  pub exit : ExitMetadata
  pub output_bytes : ℕ
  pub truncated : Bool

pub data SessionMetadata : Type 0 where
  live : Live → SessionMetadata
  completed : Completed → SessionMetadata

abbrev pub session_id : SessionMetadata → List ℕ
session_id (live l) = l.session_id
session_id (completed c) = c.session_id

-- The key that a listing is sorted by.
abbrev pub started_at : SessionMetadata → ℕ
started_at (live l) = l.started_at
started_at (completed c) = c.started_at

-- `saturating_sub` is the subtraction of natural numbers.
unfoldable pub is_expired : SessionMetadata → ℕ → Bool
is_expired (completed c) now = leb completed_retention_seconds (now - c.finished_at)
is_expired (live l) now = false

pub to_process_exit-to_metadata :
    (status : ProcessExit) → to_process_exit (to_metadata status) ≡ status
unfolding to_process_exit to_metadata
to_process_exit-to_metadata (ProcessExit.code c) = refl
to_process_exit-to_metadata (ProcessExit.signal s) = refl
