-- ===== src/Runner/Connections.antt =====
-- src/runner.rs: what the runner does with a connection.
use afk_cli.Prelude.{
  ◌++◌, ℕ, min, List, [], ◌∷◌, Bool, true, false, Option, none, some, ◌==◌, if◌then◌else◌, chunks,
  ok, err, map_err, IoResult, io_error, ErrorKind, would_block, interrupted, invalid_data,
  unexpected_eof, is_empty, is_some,
}
use afk_cli.Limits.{max_ipc_payload_bytes}
use afk_cli.Ipc.{Record, input, output, resize, remaining_capacity, encode}
use afk_cli.Ipc.Framing.{receive}
use afk_cli.ByteQueue.{ByteQueue}
use afk_cli.ByteQueue
use afk_cli.OutputTail.{OutputTail, snapshot, is_truncated, truncation_marker}
use afk_cli.Terminal.{set_window_size}
use afk_cli.Runner.State.{
  Connection, new_connection, resized, took_input, ReadOutcome, received, read_failed,
  AcceptOutcome, connected, accept_failed, Host, io_chunk_bytes, emit,
}
use afk_cli.Runner.Monad.{Run, ◌>>=◌, ◌>>◌, pure, fail, lift, gets, modify, when, trace_event}

-- One chunk of `enqueue_output`, encoded.
unfoldable pub queue_encoded : Connection → IoResult (List ℕ) → IoResult (Unit {0}) × Connection
queue_encoded c (err e) = (err e, c)
queue_encoded c (ok encoded) =
    let (queue, fits) = ByteQueue.push c.output encoded in
    (if fits then ok tt else err (io_error would_block), record c { output = queue })

-- The loop of `enqueue_output`. The chunks that were queued before one failed stay queued.
unfoldable pub enqueue_chunks : Connection → List (List ℕ) → IoResult (Unit {0}) × Connection
unfolding queue_encoded
enqueue_chunks c [] = (ok tt, c)
enqueue_chunks c (chunk ∷ rest) =
    let (queued, c') = queue_encoded c (encode (output chunk)) in
    let more = enqueue_chunks c' rest in elim queued [ ok _ ↦ more | err e ↦ (err e, c') ]

unfoldable pub enqueue_output : Connection → List ℕ → IoResult (Unit {0}) × Connection
unfolding enqueue_chunks
enqueue_output c bytes = enqueue_chunks c (chunks max_ipc_payload_bytes bytes)

unfoldable pub enqueue_replay : Connection → OutputTail → IoResult (Unit {0}) × Connection
enqueue_replay c tail =
    if is_truncated tail
    then (let (marked, c') = enqueue_output c truncation_marker in
        elim marked [ err e ↦ (err e, c') | ok _ ↦ enqueue_output c' (snapshot tail) ])
    else enqueue_output c (snapshot tail)

-- How `read_records` takes an error of `read`.
abbrev pub no_records_yet : ErrorKind → Bool
no_records_yet would_block = true
no_records_yet interrupted = true
no_records_yet _ = false

abbrev pub read_capacity : Connection → ℕ
read_capacity c = min (remaining_capacity c.decoder) io_chunk_bytes

unfoldable pub read_records : ReadOutcome → Connection → IoResult (List Record) × Connection
read_records (received bytes) c =
    if read_capacity c == 0
    then (err (io_error invalid_data), c)
    else if is_empty bytes
    then (err (io_error unexpected_eof), c)
    else (let (records, decoder) = receive c.decoder bytes in
        (map_err records (io_error invalid_data), record c { decoder = decoder }))
read_records (read_failed error) c =
    if read_capacity c == 0
    then (err (io_error invalid_data), c)
    else if no_records_yet error.kind
    then (ok [], c)
    else (err error, c)

-- `read_records(slot.as_mut())`
abbrev pub read_slot : ReadOutcome → Option Connection → IoResult (List Record) × Option Connection
read_slot outcome none = (ok [], none)
read_slot outcome (some c) = (let (records, c') = read_records outcome c in (records, some c'))

abbrev pub is_would_block : ErrorKind → Bool
is_would_block would_block = true
is_would_block _ = false

-- `pty_input.push(&bytes)`
unfoldable pub push_input : List ℕ → Run Bool
push_input bytes s =
    let (queue, fits) = ByteQueue.push s.pty_input bytes in
    (
      ok fits,
      record s {
        pty_input = queue;
        effects = if fits then s.effects ++ took_input bytes ∷ [] else s.effects;
      },
    )

module _ (host : Host) where
  unfoldable pub resize_pty : ℕ → ℕ → Run (Unit {0})
  resize_pty rows columns = do
    lift (set_window_size host.tcsetwinsize rows columns)
    modify (emit (resized rows columns))

  -- `false`: the record is not one for a runner to take, or the input queue is full.
  unfoldable pub apply_active_records : List Record → Run Bool
  apply_active_records [] = pure true
  apply_active_records (input bytes ∷ rest) = do
    fits ← push_input bytes
    if fits then apply_active_records rest else pure false
  apply_active_records (resize rows columns ∷ rest) = do
    resize_pty rows columns
    apply_active_records rest
  apply_active_records (_ ∷ rest) = pure false

  -- One connection that `accept` gave.
  unfoldable pub admit : ℕ → IoResult ℕ → IoResult (Unit {0}) → Run (Unit {0})
  admit stream peer set_nonblocking = do
    uid ← lift peer
    if uid == host.uid
        then (do
          lift set_nonblocking
          replaced ← gets (λ s. is_some s.candidate)
          when replaced (trace_event "candidate_replaced")
          trace_event "candidate_accepted"
          modify (λ s. record s { candidate = some (new_connection stream) }))
        else trace_event "candidate_peer_rejected"

  unfoldable pub accept_candidate : List AcceptOutcome → Run (Unit {0})
  accept_candidate [] = pure tt
  accept_candidate (connected stream peer set_nonblocking ∷ rest) = do
    admit stream peer set_nonblocking
    accept_candidate rest
  accept_candidate (accept_failed error ∷ rest) =
      if is_would_block error.kind then pure tt else fail error
