-- ===== src/Attach.antt =====
-- src/attach.rs: the client of a session, which shows its output and sends its input.
--
-- The terminal is in raw mode meanwhile; that is left out, as its restoring at the end.
--
-- `queued`, `sent`, `received`, `shown` and `visible` are what the client did so far, and no variables of
-- the source: the records that it queued for the runner, the bytes that went to the runner and came
-- from it, the bytes that it wrote to its output, and those of them that it flushed.
pub mod Loop
pub mod Sends
pub mod Shows
pub mod Replay
pub mod Frame
mod Tests
use Prim.Native.String.{String}
use afk_cli.Prelude.{
  ℕ, min, List, [], ◌∷◌, ◌++◌, Bool, true, false, ◌&&◌, ◌||◌, Option, none, some, ltb, ◌==◌,
  if◌then◌else◌, length, is_empty, ok, err, map_err, IoError, IoResult, io_error, ErrorKind,
  invalid_data, invalid_input, would_block, interrupted, broken_pipe, connection_aborted,
  connection_reset, unexpected_eof,
}
use afk_cli.Limits.{max_attachment_queue_bytes, max_ipc_payload_bytes}
use afk_cli.Ipc.{
  ProcessExit, Record, attach, input, output, resize, stop, exit, code, signal, Decoder,
  empty_decoder, remaining_capacity, encode,
}
use afk_cli.Ipc.Framing.{receive}
use afk_cli.ByteQueue.{ByteQueue, new_queue, WriteOutcome, Flushed}
use afk_cli.ByteQueue
use afk_cli.Terminal.{window_size}
use afk_cli.Prelude.Exec.{Exec, ◌>>=◌, ◌>>◌, pure, fail, lift}

-- What the client tells its trace.
pub data TraceLine : Type 0 where
  event : String → TraceLine
  event_error : String → IoError → TraceLine
  event_exit : String → ProcessExit → TraceLine

pub record Client : Type 0 where
  pub socket_output : ByteQueue
  pub decoder : Decoder
  pub stdin_closed : Bool
  pub tracing : Bool
  pub traced : List TraceLine
  pub queued : List Record
  pub sent : List ℕ
  pub received : List ℕ
  pub shown : List ℕ
  pub visible : List ℕ

abbrev pub new_client : Bool → Client
new_client tracing = record {
  socket_output = new_queue max_attachment_queue_bytes;
  decoder = empty_decoder;
  stdin_closed = false;
  tracing = tracing;
  traced = [];
  queued = [];
  sent = [];
  received = [];
  shown = [];
  visible = [];
}

-- The answer of `try_recv`, from the thread that reads the standard input.
pub data InputAnswer : Type 0 where
  typed : List ℕ → InputAnswer
  closed : InputAnswer
  disconnected : InputAnswer
  failed : IoError → InputAnswer
  nothing : InputAnswer

-- The answer of `read`; `got []` is `Ok(0)`.
pub data ReadAnswer : Type 0 where
  got : List ℕ → ReadAnswer
  read_error : IoError → ReadAnswer

pub record SocketEvent : Type 0 where
  pub readable : Bool
  pub writable : Bool
  pub hangup : Bool
  pub error : Bool

pub data PollAnswer : Type 0 where
  poll_error : IoError → PollAnswer
  polled : SocketEvent → PollAnswer

-- What the system answers in one round of the loop.
-- The answer of `output.write_all`; `cut_off` has the number of the bytes that were written.
pub data OutputAnswer : Type 0 where
  all_written : OutputAnswer
  cut_off : ℕ → IoError → OutputAnswer

pub record Surroundings : Type 0 where
  pub sighup : Bool
  pub sigterm : Bool
  pub sigwinch : Bool
  pub tcgetwinsize : IoResult (ℕ × ℕ)
  pub try_recv : InputAnswer
  pub poll : PollAnswer
  pub writes : List WriteOutcome
  pub read : ReadAnswer
  pub write_output : List ℕ → OutputAnswer
  pub flush_output : IoResult (Unit {0})

abbrev pub Act : Type 0 → Type 0
Act A = Exec Client A

unfoldable pub modify : (Client → Client) → Act (Unit {0})
modify f s = (ok tt, f s)

unfoldable pub gets : {A : Type 0} → (Client → A) → Act A
gets f s = (ok (f s), s)

-- `trace_event`, `trace_io_error` and `trace_process_exit`.
unfoldable pub trace : TraceLine → Act (Unit {0})
unfolding modify
trace line = modify (λ s. if s.tracing then record s { traced = s.traced ++ line ∷ [] } else s)

-- How a round ends: the loop goes on, or the function returns.
pub data Turn : Type 0 where
  again : Turn
  finished : ProcessExit → Turn

-- What follows, if the function has not returned.
unfoldable pub proceed : Turn → Act Turn → Act Turn
unfolding pure
proceed again next = next
proceed (finished status) next = pure (finished status)

-- `drop(terminal); return Ok(ProcessExit::Code(0))`
unfoldable pub leave : String → Act Turn
unfolding ◌>>=◌
leave line = do trace (event line); pure (finished (code 0))

abbrev pub is_too_large : Record → Bool
is_too_large (input bytes) = ltb max_ipc_payload_bytes (length bytes)
is_too_large (output bytes) = ltb max_ipc_payload_bytes (length bytes)
is_too_large _ = false

unfoldable pub push_encoded : Record → List ℕ → Act Bool
push_encoded r encoded s =
    let (queue, fits) = ByteQueue.push s.socket_output encoded in
    (
      ok fits,
      record s { socket_output = queue; queued = if fits then s.queued ++ r ∷ [] else s.queued },
    )

-- The push of an encoded record.
unfoldable pub queue_encoded : Record → List ℕ → Act (Unit {0})
unfolding ◌>>=◌
queue_encoded r encoded = do
  fits ← push_encoded r encoded
  if fits then pure tt else fail (io_error would_block)

unfoldable pub queue_record : Record → Act (Unit {0})
unfolding ◌>>=◌
queue_record r =
    if is_too_large r
    then fail (io_error invalid_input)
    else (do encoded ← lift (encode r); queue_encoded r encoded)

abbrev pub attachment_closed : ErrorKind → Bool
attachment_closed broken_pipe = true
attachment_closed connection_aborted = true
attachment_closed connection_reset = true
attachment_closed unexpected_eof = true
attachment_closed _ = false

abbrev pub is_retried : ErrorKind → Bool
is_retried would_block = true
is_retried interrupted = true
is_retried _ = false

abbrev pub is_intr : ErrorKind → Bool
is_intr interrupted = true
is_intr _ = false

-- What a new size of the terminal does.
unfoldable pub resize_to : IoResult (ℕ × ℕ) → Act (Unit {0})
unfolding ◌>>=◌
resize_to (ok (rows, columns)) = do
  queue_record (resize rows columns)
  trace (event "resize_queued")
resize_to (err _) = trace (event "resize_dimensions_unavailable")

-- `receive_input`: says if the input has ended.
unfoldable pub receive_input : InputAnswer → Act Bool
unfolding ◌>>=◌
receive_input (typed bytes) = do queue_record (input bytes); pure false
receive_input closed = pure true
receive_input disconnected = pure true
receive_input (failed e) = fail e
receive_input nothing = pure false
