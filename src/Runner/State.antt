-- ===== src/Runner/State.antt =====
-- src/runner.rs: the state of the event loop, and what the operating system answers in one round.
use Prim.Native.String.{String}
use afk_cli.Prelude.{ℕ, ◌*◌, ◌++◌, List, [], ◌∷◌, Bool, false, Option, none, IoError, IoResult}
use afk_cli.Limits.{max_attachment_queue_bytes, output_tail_bytes}
use afk_cli.Ipc.{Decoder, empty_decoder}
use afk_cli.ByteQueue.{ByteQueue, new_queue, WriteOutcome}
use afk_cli.OutputTail.{OutputTail, empty_tail}

abbrev pub io_chunk_bytes : ℕ
io_chunk_bytes = 16 * 1024

-- `struct Connection`; a `UnixStream` is known by a number.
pub record Connection : Type 0 where
  pub stream : ℕ
  pub decoder : Decoder
  pub output : ByteQueue

-- `Connection::new`
abbrev pub new_connection : ℕ → Connection
new_connection stream = record {
  stream = stream;
  decoder = empty_decoder;
  output = new_queue max_attachment_queue_bytes;
}

-- What the runner did to the world outside, in order.
pub data Effect : Type 0 where
  traced : String → Effect
  traced_error : String → IoError → Effect
  read_pty : List ℕ → Effect
  took_input : List ℕ → Effect
  wrote_pty : List ℕ → Effect
  wrote_stream : ℕ → List ℕ → Effect
  resized : ℕ → ℕ → Effect
  recorded : Bool → Effect

-- The variables of `run_event_loop`. `attached` is that field of the metadata file as it stands,
-- `tracing` says if there is a trace.
pub record Runner : Type 0 where
  pub tail : OutputTail
  pub pty_input : ByteQueue
  pub active : Option Connection
  pub candidate : Option Connection
  pub stop_requested : Bool
  pub tracing : Bool
  pub attached : Bool
  pub effects : List Effect

-- At the head of the loop; `start_runner` has recorded a session with no attachment.
abbrev pub start : Bool → Runner
start tracing = record {
  tail = empty_tail output_tail_bytes;
  pty_input = new_queue max_attachment_queue_bytes;
  active = none;
  candidate = none;
  stop_requested = false;
  tracing = tracing;
  attached = false;
  effects = [];
}

-- The answer to a `read`. `received []` is `Ok(0)`.
pub data ReadOutcome : Type 0 where
  received : List ℕ → ReadOutcome
  read_failed : IoError → ReadOutcome

-- The answer to an `accept`: a stream, with what `peer_uid` and `set_nonblocking` say of it.
pub data AcceptOutcome : Type 0 where
  connected : ℕ → IoResult ℕ → IoResult (Unit {0}) → AcceptOutcome
  accept_failed : IoError → AcceptOutcome

-- `PollFd::revents`
pub record Events : Type 0 where
  pub readable : Bool
  pub writable : Bool
  pub hangup : Bool
  pub error : Bool

pub data PollOutcome : Type 0 where
  poll_failed : IoError → PollOutcome
  polled : (master listener candidate active : Events) → PollOutcome

-- `std::process::ExitStatus`: the two readings that the program takes of it.
pub record ExitStatus : Type 0 where
  pub code : Option ℕ
  pub signal : Option ℕ

-- What the operating system answers in one round of the loop. Of a list of answers one is used for
-- each call; where it ends, the descriptor is not ready, and a further call gives `WouldBlock`.
pub record Host : Type 0 where
  pub uid : ℕ
  pub pty_reads : List ReadOutcome
  pub try_wait : IoResult (Option ExitStatus)
  pub poll : PollOutcome
  pub pty_writes : List WriteOutcome
  pub active_writes : List WriteOutcome
  pub active_read : ReadOutcome
  pub accepts : List AcceptOutcome
  pub candidate_read : ReadOutcome
  pub tcsetwinsize : ℕ → ℕ → IoResult (Unit {0})
  pub write_metadata : Bool → IoResult (Unit {0})

abbrev pub emit : Effect → Runner → Runner
emit e s = record s { effects = s.effects ++ e ∷ [] }
