-- ===== src/Runner/Pty.antt =====
-- src/runner.rs, `drain_pty`: the terminal's output goes to the tail and to the attachment.
use afk_cli.Prelude.{
  ℕ, ◌+◌, List, [], ◌∷◌, Bool, false, Option, none, some, ltb, ◌==◌, if◌then◌else◌, length,
  is_empty, ok, err, IoError, would_block, interrupted,
}
use afk_cli.Limits.{max_pty_bytes_per_tick}
use afk_cli.OutputTail.{extend}
use afk_cli.Runner.Connections.{enqueue_output}
use afk_cli.Runner.State.{Connection, Runner, ReadOutcome, received, read_failed, read_pty, emit}
use afk_cli.Runner.Monad.{Run, ◌>>◌, pure, fail, modify, trace_event, trace_io_error}

-- A chunk for the attachment; one whose queue is full is given up.
unfoldable pub forward : List ℕ → Option Connection → Option Connection
forward bytes none = none
forward bytes (some c) =
    let (result, c') = enqueue_output c bytes in elim result [ ok _ ↦ some c' | err _ ↦ none ]

-- A read that gave bytes.
unfoldable pub take_output : List ℕ → Runner → Runner
unfolding forward
take_output bytes s =
    emit (read_pty bytes) (record s { tail = extend s.tail bytes; active = forward bytes s.active })

-- How the loop takes an error of `read`: EIO is what Linux gives when the other end is closed.
pub data ReadError : Type 0 where
  not_ready closed again fatal : ReadError

abbrev pub is_eio : Option ℕ → Bool
is_eio none = false
is_eio (some code) = code == 5

abbrev pub read_error : IoError → ReadError
read_error error = elim error.kind [
  | would_block ↦ not_ready
  | interrupted ↦ (if is_eio error.os_code then closed else again)
  | _ ↦ (if is_eio error.os_code then closed else fatal)
]

-- What the loop does on an error of `read`; `retry` is the rest of the loop.
unfoldable pub drain_failed : ReadError → IoError → Run (Unit {0}) → Run (Unit {0})
drain_failed not_ready error retry = pure tt
drain_failed closed error retry = trace_io_error "pty_eio" error
drain_failed again error retry = retry
drain_failed fatal error retry = do trace_io_error "pty_read_failed" error; fail error

-- The loop, with the bytes that it has processed.
unfoldable pub drain_pty_loop : ℕ → List ReadOutcome → Run (Unit {0})
drain_pty_loop processed [] = pure tt
drain_pty_loop processed (received bytes ∷ reads) =
    let more : Run (Unit {0}) = (do
      modify (take_output bytes)
      drain_pty_loop (processed + length bytes) reads) in
    if ltb processed max_pty_bytes_per_tick
    then (if is_empty bytes then trace_event "pty_eof" else more)
    else pure tt
drain_pty_loop processed (read_failed error ∷ reads) =
    let retry = drain_pty_loop processed reads in
    if ltb processed max_pty_bytes_per_tick
    then drain_failed (read_error error) error retry
    else pure tt

unfoldable pub drain_pty : List ReadOutcome → Run (Unit {0})
drain_pty reads = drain_pty_loop 0 reads
