-- ===== src/Attach/Loop.antt =====
-- src/attach.rs, `attach_live`: the loop, and what comes before it.
use Prim.Native.String.{String}
use afk_cli.Prelude.{
  ℕ, min, take, List, [], ◌∷◌, ◌++◌, Bool, true, false, ◌&&◌, ◌||◌, Option, none, some, ◌==◌,
  if◌then◌else◌, is_empty, ok, err, IoResult, io_error, invalid_data, Result,
}
use afk_cli.Ipc.{Record, attach, output, exit, code, remaining_capacity, DecodeError}
use afk_cli.Ipc.Framing.{receive}
use afk_cli.ByteQueue.{WriteOutcome, Flushed}
use afk_cli.ByteQueue
use afk_cli.Terminal.{window_size}
use afk_cli.Runner.State.{io_chunk_bytes}
use afk_cli.Prelude.Exec.{◌>>=◌, ◌>>◌, pure, fail, lift, attempt}
use afk_cli.Attach.{
  Client, event, event_error, event_exit, InputAnswer, ReadAnswer, got, read_error, SocketEvent,
  PollAnswer, poll_error, polled, Surroundings, OutputAnswer, all_written, cut_off, Act, modify,
  gets, trace, Turn, again, finished, proceed, leave, queue_record, attachment_closed, is_retried,
  is_intr, resize_to, receive_input,
}

unfoldable pub when : Bool → Act (Unit {0}) → Act (Unit {0})
unfolding pure
when b m = if b then m else pure tt

-- The standard input, until it has ended.
unfoldable pub set_closed : Bool → Act (Unit {0})
unfolding ◌>>=◌ modify
set_closed closed = do
  when closed (trace (event "stdin_closed"))
  modify (λ s. record s { stdin_closed = closed })

unfoldable pub stdin_phase : InputAnswer → Bool → Act (Unit {0})
unfolding attempt ◌>>=◌
stdin_phase answer true = pure tt
stdin_phase answer false =
    attempt (receive_input answer) set_closed
      (λ e. do trace (event_error "stdin_read_failed" e); fail e)

-- `socket_output.flush(&mut stream)`
unfoldable pub flush_socket : List WriteOutcome → Act (IoResult (Unit {0}))
flush_socket writes s =
    let f = ByteQueue.flush s.socket_output writes in
    (ok f.result, record s { socket_output = f.queue; sent = s.sent ++ f.sent })

unfoldable pub flushed : IoResult (Unit {0}) → Act Turn
unfolding ◌>>=◌
flushed (ok _) = pure again
flushed (err error) =
    if attachment_closed error.kind
    then (do
      trace (event_error "runner_socket_closed_during_write" error)
      pure (finished (code 0)))
    else (do trace (event_error "runner_socket_write_failed" error); fail error)

unfoldable pub write_phase : Bool → List WriteOutcome → Act Turn
unfolding ◌>>=◌
write_phase writable writes =
    if writable then (do result ← flush_socket writes; flushed result) else pure again

-- All input has been sent, and there will be no more.
abbrev pub is_done : Client → Bool
is_done s = s.stdin_closed && is_empty s.socket_output.bytes

unfoldable pub end_phase : Bool → Act Turn
end_phase done = if done then leave "attachment_ended_after_stdin_close" else pure again

-- What the bytes of a read decode to.
unfoldable pub decode : List ℕ → Act (Result DecodeError (List Record))
decode bytes s =
    let (records, decoder) = receive s.decoder bytes in
    (ok records, record s { decoder = decoder; received = s.received ++ bytes })

unfoldable pub decoded : Result DecodeError (List Record) → Act (Option (List Record))
decoded records = elim records [ ok rs ↦ pure (some rs) | err _ ↦ fail (io_error invalid_data) ]

-- `read_records`, where there is room; `none` says that the runner has closed the connection.
unfoldable pub take_read : ReadAnswer → Act (Option (List Record))
unfolding ◌>>=◌
take_read (got bytes) =
    if is_empty bytes then pure none else (do records ← decode bytes; decoded records)
take_read (read_error e) =
    if is_retried e.kind
    then pure (some [])
    else if attachment_closed e.kind
    then pure none
    else fail e

abbrev pub read_capacity : Client → ℕ
read_capacity s = min (remaining_capacity s.decoder) io_chunk_bytes

unfoldable pub read_records : ReadAnswer → Act (Option (List Record))
unfolding ◌>>=◌
read_records answer = do
  capacity ← gets read_capacity
  if capacity == 0 then fail (io_error invalid_data) else take_read answer

-- The bytes that a `write_all` leaves behind, and its result.
abbrev pub written : List ℕ → OutputAnswer → List ℕ
written bytes all_written = bytes
written bytes (cut_off n e) = take n bytes

abbrev pub write_result : OutputAnswer → IoResult (Unit {0})
write_result all_written = ok tt
write_result (cut_off n e) = err e

module _ (w : Surroundings) where
  -- `output.write_all(&bytes)`
  unfoldable pub show : List ℕ → Act (Unit {0})
  unfolding ◌>>=◌
  show bytes = do
    modify (λ s. record s { shown = s.shown ++ written bytes (w.write_output bytes) })
    lift (write_result (w.write_output bytes))

  -- `output.flush()`
  unfoldable pub flush_shown : Act (Unit {0})
  unfolding ◌>>=◌
  flush_shown = do lift w.flush_output; modify (λ s. record s { visible = s.shown })

  -- The loop over the records of a read, with `wrote_output`, and the flush behind it.
  unfoldable pub show_records : Bool → List Record → Act Turn
  unfolding ◌>>=◌
  show_records wrote [] = do when wrote flush_shown; pure again
  show_records wrote (output bytes ∷ rest) = do show bytes; show_records true rest
  show_records wrote (exit status ∷ rest) = do
    trace (event_exit "runner_reported_exit" status)
    flush_shown
    pure (finished status)
  show_records wrote (_ ∷ rest) = do
    trace (event "invalid_runner_response")
    fail (io_error invalid_data)

  unfoldable pub take_records : Option (List Record) → Act Turn
  take_records none = leave "runner_socket_eof"
  take_records (some records) = show_records false records

  unfoldable pub read_phase : SocketEvent → Act Turn
  unfolding ◌>>=◌ attempt
  read_phase e =
      if e.readable || e.hangup || e.error
      then (do
        when e.hangup (trace (event "runner_socket_poll_hangup"))
        when e.error (trace (event "runner_socket_poll_error"))
        found ←
            attempt (read_records w.read) pure
              (λ error. do trace (event_error "runner_socket_read_failed" error); fail error)
        take_records found)
      else pure again

  -- Behind `poll`.
  unfoldable pub serve : SocketEvent → Act Turn
  unfolding ◌>>=◌
  serve e = do
    written ← write_phase e.writable w.writes
    proceed written (do done ← gets is_done; ended ← end_phase done; proceed ended (read_phase e))

  unfoldable pub poll_phase : PollAnswer → Act Turn
  unfolding ◌>>=◌
  poll_phase (poll_error e) =
      if is_intr e.kind
      then pure again
      else (do trace (event_error "attachment_poll_failed" e); fail e)
  poll_phase (polled e) = serve e

  -- The part of a round behind the signals that end it.
  unfoldable pub attend : Act Turn
  unfolding ◌>>=◌
  attend = do
    when w.sigwinch (resize_to (window_size w.tcgetwinsize))
    closed ← gets (λ s. s.stdin_closed)
    stdin_phase w.try_recv closed
    poll_phase w.poll

  unfoldable pub round : Act Turn
  round =
      if w.sighup
      then leave "attachment_received_sighup"
      else if w.sigterm
      then leave "attachment_received_sigterm"
      else attend

-- One round for each element of the list, as long as the function has not returned.
unfoldable pub run_rounds : List Surroundings → Act Turn
unfolding ◌>>=◌
run_rounds [] = pure again
run_rounds (w ∷ ws) = do turn ← round w; proceed turn (run_rounds ws)

-- `window_size(..).unwrap_or((24, 80))`
abbrev pub dimensions : IoResult (ℕ × ℕ) → ℕ × ℕ
dimensions (ok size) = size
dimensions (err _) = (24, 80)

-- The results of `set_nonblocking`, `RawTerminal::enter` and `SignalFlags::register`.
pub record Preparation : Type 0 where
  pub set_nonblocking : IoResult (Unit {0})
  pub enter_raw : IoResult (Unit {0})
  pub register : IoResult (Unit {0})

-- `inspect_err` writes the error to the trace.
unfoldable pub inspected : String → IoResult (Unit {0}) → Act (Unit {0})
unfolding ◌>>=◌
inspected line (ok _) = pure tt
inspected line (err e) = do trace (event_error line e); fail e

unfoldable pub prepare : Preparation → Act (Unit {0})
unfolding ◌>>=◌
prepare p = do
  lift p.set_nonblocking
  inspected "raw_terminal_entry_failed" p.enter_raw
  trace (event "raw_terminal_entered")
  inspected "signal_registration_failed" p.register

unfoldable pub attach_live : Preparation → IoResult (ℕ × ℕ) → List Surroundings → Act Turn
unfolding ◌>>=◌
attach_live prepared size ws = do
  prepare prepared
  (let d = dimensions (window_size size) in queue_record (attach d.0 d.1))
  run_rounds ws
