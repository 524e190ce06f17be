-- ===== src/Runner/Frame.antt =====
-- src/runner.rs: what an invariant of the tail, the input queue and the effects must survive. Whoever
-- shows that it survives these steps has it for the whole event loop.
pub mod Phases
pub mod Rounds
use afk_cli.Prelude.{
  ℕ, ◌≡◌, refl, ◌+◌, List, [], ◌∷◌, ◌++◌, Bool, true, false, Option, none, some, is_empty, not,
  ◌&&◌, ◌==◌, if◌then◌else◌, length, Result, ok, err, IoError, IoResult, String, arith, ltb, inl,
  inr, Bool-cases,
}
use afk_cli.Limits.{max_pty_bytes_per_tick}
use afk_cli.Ipc.{Record, attach, input, output, resize, stop, exit}
use afk_cli.Ipc.Codec.{IsDimension}
use afk_cli.ByteQueue.{ByteQueue, WriteOutcome, flush}
use afk_cli.ByteQueue
use afk_cli.OutputTail.{OutputTail, extend}
use afk_cli.Terminal.{set_window_size, validate_dimensions}
use afk_cli.Runner.State
use afk_cli.Runner.State.{
  Connection, Runner, start, Host, Effect, traced, traced_error, read_pty, took_input, wrote_pty,
  wrote_stream, resized, recorded, emit, ReadOutcome, received, read_failed, AcceptOutcome,
  connected, accept_failed, Events, poll_failed, polled, PollOutcome, ExitStatus,
}
use afk_cli.Runner.Monad.{
  Run, pure, fail, lift, gets, modify, ◌>>=◌, ◌>>◌, when, trace_event, trace_io_error,
  record_attached, set_attached,
}
use afk_cli.Runner.Connections.{
  push_input, resize_pty, apply_active_records, admit, is_would_block, accept_candidate,
  enqueue_replay, read_slot,
}
use afk_cli.Runner.Pty.{
  take_output, ReadError, not_ready, closed, again, fatal, read_error, drain_failed, drain_pty_loop,
  drain_pty,
}
use afk_cli.Runner.Loop.{
  Turn, exited, stopping, set_active, set_candidate, flush_result, drain_phase, flush_pty,
  pty_phase, flush_active, active_records, read_active, active_phase, activate, take_candidate,
  apply_candidate_records, candidate_records, read_candidate, candidate_phase, wants_read,
  is_interrupted, output_queued, serve, poll_phase, after_wait, tick, proceed, run_loop,
}
use afk_cli.Runner.Loop
use afk_cli.Runner.Ensures.{
  Ensures, Keeps, Outcome, Keeps-bind, Keeps-seq, Keeps-when, Keeps-modify, Keeps-pure, Keeps-fail,
  Keeps-lift, Keeps-gets, Keeps-if, Keeps-trace_event, Keeps-trace_io_error, Ensures-bind,
  Ensures-lift, Ensures-record_attached, Ensures-modify, Ensures-fact,
}

-- Effects that say nothing of the terminal.
abbrev pub IsQuiet : Effect → Type 0
IsQuiet (traced event) = Unit {0}
IsQuiet (traced_error event e) = Unit {0}
IsQuiet (wrote_stream stream bytes) = Unit {0}
IsQuiet (recorded value) = Unit {0}
IsQuiet _ = ⊥

pub record Survives (P : OutputTail → ByteQueue → List Effect → Type 0) : Type 0 where
  pub quiet :
      (t : OutputTail) (q : ByteQueue) (es : List Effect) (e : Effect)
      → IsQuiet e
      → P t q es
      → P t q (es ++ e ∷ [])
  pub takes_output :
      (t : OutputTail) (q : ByteQueue) (es : List Effect) (bytes : List ℕ)
      → P t q es
      → P (extend t bytes) q (es ++ read_pty bytes ∷ [])
  pub takes_input :
      (t : OutputTail) (q : ByteQueue) (es : List Effect) (bytes : List ℕ)
      → P t q es
      → P t
          (ByteQueue.push q bytes).0
          (if (ByteQueue.push q bytes).1 then es ++ took_input bytes ∷ [] else es)
  pub flushes :
      (t : OutputTail) (q : ByteQueue) (es : List Effect) (os : List WriteOutcome)
      → P t q es
      → P t (flush q os).queue (es ++ wrote_pty (flush q os).sent ∷ [])
  pub resizes :
      (t : OutputTail) (q : ByteQueue) (es : List Effect) (rows columns : ℕ)
      → IsDimension rows
      → IsDimension columns
      → P t q es
      → P t q (es ++ resized rows columns ∷ [])
