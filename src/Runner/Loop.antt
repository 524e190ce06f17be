-- ===== src/Runner/Loop.antt =====
-- src/runner.rs, `run_event_loop`: one round of the loop, phase by phase.
use afk_cli.Prelude.{
  ℕ, List, [], ◌∷◌, Bool, true, false, not, ◌&&◌, ◌||◌, Option, none, some, if◌then◌else◌, is_empty,
  is_some, is_none, String, ok, err, IoResult, ErrorKind, interrupted,
}
use afk_cli.Ipc.{Record, attach, stop}
use afk_cli.ByteQueue.{flush}
use afk_cli.Runner.State.{
  Connection, wrote_pty, wrote_stream, Events, PollOutcome, poll_failed, polled, ExitStatus, Host,
  emit,
}
use afk_cli.Runner.Monad.{
  Run, ◌>>=◌, ◌>>◌, pure, fail, lift, gets, modify, when, trace_event, trace_io_error,
  record_attached,
}
use afk_cli.Runner.Connections.{
  enqueue_replay, read_slot, resize_pty, apply_active_records, accept_candidate,
}
use afk_cli.Runner.Pty.{drain_pty}

-- How a round ends: another one, the child's exit, or a stop that was asked for.
pub data Turn : Type 0 where
  again : Turn
  exited : ExitStatus → Turn
  stopping : Turn

abbrev pub set_active : Option Connection → Run (Unit {0})
set_active c = modify (λ s. record s { active = c })

abbrev pub set_candidate : Option Connection → Run (Unit {0})
set_candidate c = modify (λ s. record s { candidate = c })

-- What an event asks to be read for.
abbrev pub wants_read : Events → Bool
wants_read e = e.readable || (e.hangup || e.error)

-- After a flush; one that failed takes the attachment with it.
unfoldable pub flush_result : String → IoResult (Unit {0}) → Run (Unit {0})
flush_result event (ok _) = pure tt
flush_result event (err error) = do trace_io_error event error; set_active none

abbrev pub is_interrupted : ErrorKind → Bool
is_interrupted interrupted = true
is_interrupted _ = false

abbrev pub output_queued : Option Connection → Bool
output_queued none = false
output_queued (some c) = not (is_empty c.output.bytes)

module _ (host : Host) where
  -- The output first; an attachment that cannot take it is gone, and the record says so.
  unfoldable pub drain_phase : Run (Unit {0})
  drain_phase = do
    had_attachment ← gets (λ s. is_some s.active)
    drain_pty host.pty_reads
    lost ← gets (λ s. had_attachment && is_none s.active)
    when lost (do trace_event "attachment_output_queue_full"; record_attached host false)

  unfoldable pub flush_pty : Run (Unit {0})
  flush_pty = λ s.
      let f = flush s.pty_input host.pty_writes in
      let s' = emit (wrote_pty f.sent) (record s { pty_input = f.queue }) in
      flush_result "pty_input_write_failed" f.result s'

  -- `poll` reports writability only where it was asked for, which is where bytes are queued.
  unfoldable pub pty_phase : Events → Run (Unit {0})
  pty_phase events = do
    writable ← gets (λ s. events.writable && not (is_empty s.pty_input.bytes))
    when writable flush_pty

  unfoldable pub flush_active : Option Connection → Run (Unit {0})
  flush_active none = pure tt
  flush_active (some c) = λ s.
      let f = flush c.output host.active_writes in
      let c' = record c { output = f.queue } in
      let s' = emit (wrote_stream c.stream f.sent) (record s { active = some c' }) in
      flush_result "attachment_write_failed" f.result s'

  unfoldable pub active_records : IoResult (List Record) → Run (Unit {0})
  active_records (ok rs) = do
    accepted ← apply_active_records host rs
    when (not accepted) (do trace_event "attachment_input_rejected"; set_active none)
  active_records (err error) = do trace_io_error "attachment_read_failed" error; set_active none

  -- The records of the attachment.
  unfoldable pub read_active : Run (Unit {0})
  read_active = λ s.
      let (records, slot) = read_slot host.active_read s.active in
      active_records records (record s { active = slot })

  -- The block of `active_index`. `writable` was asked for if output was queued then.
  unfoldable pub active_phase : Bool → Events → Run (Unit {0})
  active_phase writable event = do
    when event.hangup (trace_event "attachment_poll_hangup")
    when event.error (trace_event "attachment_poll_error")
    when (event.writable && writable) (λ s. flush_active s.active s)
    present ← gets (λ s. is_some s.active)
    when (present && wants_read event) read_active
    gone ← gets (λ s. is_none s.active)
    when gone (record_attached host false)

  -- A candidate that asked to attach becomes the attachment, in the place of any other: replay
  -- first, then what it sent behind its request.
  unfoldable pub activate : ℕ → ℕ → List Record → Connection → Run (Unit {0})
  activate rows columns rest c = do
    set_candidate none
    resize_pty host rows columns
    (replayed, c') ← gets (λ s. enqueue_replay c s.tail)
    lift replayed
    accepted ← apply_active_records host rest
    when accepted (do
      replaces ← gets (λ s. is_some s.active)
      when replaces (trace_event "attachment_replaced")
      trace_event "attachment_activated"
      set_active (some c')
      record_attached host true)

  unfoldable pub take_candidate : ℕ → ℕ → List Record → Option Connection → Run (Unit {0})
  take_candidate rows columns rest none = pure tt
  take_candidate rows columns rest (some c) = activate rows columns rest c

  abbrev pub reject_candidate : Run (Unit {0})
  reject_candidate = do trace_event "candidate_rejected"; set_candidate none

  -- The first record decides what the candidate is.
  unfoldable pub apply_candidate_records : List Record → Run (Unit {0})
  apply_candidate_records [] = pure tt
  apply_candidate_records (attach rows columns ∷ rest) =
      λ s. take_candidate rows columns rest s.candidate s
  apply_candidate_records (stop ∷ []) = do
    trace_event "stop_requested"
    set_candidate none
    modify (λ s. record s { stop_requested = true })
  apply_candidate_records (_ ∷ _) = reject_candidate

  unfoldable pub candidate_records : IoResult (List Record) → Run (Unit {0})
  candidate_records (ok rs) = apply_candidate_records rs
  candidate_records (err error) = do
    trace_io_error "candidate_read_failed" error
    set_candidate none

  unfoldable pub read_candidate : Run (Unit {0})
  read_candidate = λ s.
      let (records, slot) = read_slot host.candidate_read s.candidate in
      candidate_records records (record s { candidate = slot })

  -- The block of `candidate_index`.
  abbrev pub candidate_phase : Events → Run (Unit {0})
  candidate_phase event = when (wants_read event) read_candidate

  -- The round past `poll`. The two indices were made before it.
  unfoldable pub serve : Events → Events → Events → Events → Run Turn
  serve master listener candidate active = do
    had_active ← gets (λ s. is_some s.active)
    had_candidate ← gets (λ s. is_some s.candidate)
    writable ← gets (λ s. output_queued s.active)
    pty_phase master
    when had_active (active_phase writable active)
    when listener.readable (accept_candidate host host.accepts)
    when had_candidate (candidate_phase candidate)
    gets (λ s. if s.stop_requested then stopping else again)

  unfoldable pub poll_phase : PollOutcome → Run Turn
  poll_phase (polled master listener candidate active) = serve master listener candidate active
  poll_phase (poll_failed error) =
      if is_interrupted error.kind
      then pure again
      else (do trace_io_error "runner_poll_failed" error; fail error)

  unfoldable pub after_wait : Option ExitStatus → Run Turn
  after_wait (some status) = do trace_event "child_exited"; pure (exited status)
  after_wait none = poll_phase host.poll

  unfoldable pub tick : Run Turn
  tick = do drain_phase; status ← lift host.try_wait; after_wait status

unfoldable pub proceed : Run Turn → Turn → Run Turn
proceed more again = more
proceed more (exited status) = pure (exited status)
proceed more stopping = pure stopping

-- The loop, one round for each answer of the host, until a round ends it.
unfoldable pub run_loop : List Host → Run Turn
run_loop [] = pure again
run_loop (host ∷ hosts) = do turn ← tick host; proceed (run_loop hosts) turn
