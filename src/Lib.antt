-- ===== src/Lib.antt =====
-- AFK CLI keeps a shell running when the SSH connection to it does not: `afk session` starts a runner
-- process that owns a pseudo-terminal, and later invocations attach to it over a Unix socket.
--
-- The parts, each with its file and the code that it follows (paths from the repository's root):
--   * Limits: the bounds that the parts share (src/limits.rs).
--   * Identity: session identifiers and their hexadecimal text (src/identity.rs).
--   * Ipc: the records between an attachment and the runner, `encode` and `Decoder` (src/ipc.rs).
--     Ipc/Codec and Ipc/Canonical are about one record, Ipc/Framing, Ipc/Stream and Ipc/Room about a
--     connection whose bytes arrive in reads of any size.
--   * ByteQueue: the bounded queue in front of a writer (src/byte_queue.rs). The writer is the list of
--     the answers that it gives to `write`.
--   * OutputTail: the last bytes of the terminal's output (src/output_tail.rs).
--   * Terminal: the size of a terminal and its bounds (src/platform/unix.rs).
--   * Runner: the event loop (src/runner.rs, `run_event_loop` and what it calls). Runner/State has its
--     variables as the record `Runner`, and what the system answers in one round as the record `Host`:
--     the outcomes of `read`, `write`, `accept`, `poll`, `try_wait`, `tcsetwinsize` and of the write
--     of the metadata file. Runner/Monad is the monad of functions that change the variables and may
--     fail: what was changed before a failure stays changed. Runner/Connections, Runner/Pty and
--     Runner/Loop have the functions and the phases of a round in the order of the source; `tick` is a
--     round, and `run_loop` runs one for each `Host`. The `effects` of the state are what the runner
--     did to the world outside, in order; the code has no such variable.
--     Runner/Ensures has a rule for each way to build a function, Runner/Frame the steps that an
--     invariant of the terminal must survive to hold for the loop, and Runner/Bounds,
--     Runner/Attached, Runner/Truth, Runner/Delivery, Runner/Views and Runner/Peers the properties.
--     Runner/Startup is the configuration that the launcher writes and the runner reads
--     (`write_startup_config`, `read_startup_config`).
--     Runner/Launch is the launch of a runner and its response to the launcher (`launch_runner`,
--     `hidden_runner`, `start_runner`).
--     Runner/Ending is what follows when the child has ended (`process_exit`, `complete_session`).
--     Runner/Stopping is the stop of a child that still runs (`stop_child`).
--   * Registry: the files of the sessions (src/registry.rs). Registry/Disk is the file system: a function
--     from paths to entries, and the list of the faults with which the system answers the calls. Each
--     call of `std::fs` is one function there; it may fail, also where nothing is in its way, and a
--     `write_all` that fails has written a part. The `history` is what the files were behind each
--     call. Registry/Metadata, Registry/Files, Registry/Sessions and Registry/Listing have the
--     functions of the source, from the metadata to the listing, and Registry/Opening has
--     `Registry::open`. Registry/Atomic is about the moments
--     of a write, Registry/Reading about reading a session, Registry/Frame and Registry/Binding about
--     the files that are touched, and Registry/RoundTrip about a disk without faults.
--   * Attach: the client of a live session (src/attach.rs, `attach_live` and what it calls). The record
--     `Client` has its variables, `Surroundings` what the system answers in one round, and Attach/Loop
--     the phases of a round. Attach/Frame has the steps that an invariant must survive, Attach/Shows
--     is about the output that is shown, and Attach/Sends about the records that are sent.
--     Attach/Replay has `attach` itself with the replay of a session that has ended, and `stop`.
--   * Trace: the file of diagnostics (src/trace.rs), on the file system of Registry/Disk. Trace/Counting is
--     about one trace, and Trace/Shared about the turns of those who append to the same file.
--   * Entry: `run`, which reads the command line, calls the commands and reports (src/lib.rs).
--     Entry/Expected is a description of its results that does not use `run`, or what it calls to report.
--   * Session: whether a session is started (src/session.rs, `connect_or_start`).
--   * Cli: the command line (src/cli.rs). Cli/Accepts, Cli/Sound and Cli/Complete say which are accepted.
--   * Prelude: names and lemmas that the others share.
--
-- How they interact: the runner reads the terminal, extends the tail with what it read and queues it as
-- `Output` records for the attachment; it decodes the records of the attachment and of a candidate that
-- connected, queues `Input` for the terminal, and resizes it. A candidate whose first record is
-- `Attach` gets the tail as a replay and becomes the attachment, in the place of any other. The client
-- sends `Attach` first and shows the output of each record. The runner's socket and the record of the
-- session are files of the registry; when the shell has ended, the output and the record stay there, and
-- an attachment replays them.
--
-- Bounds and fuel: a byte is a number below 256 where a statement needs it, and lengths are unbounded
-- numbers except where the source saturates. The decoder's loop runs on fuel, the number of buffered
-- bytes, and each record takes five of them at least. The loops over `read`, `write` and `accept` are
-- recursion on the list of answers. That a list ends stands for `WouldBlock`, which is how the kernel
-- ends them on a descriptor that does not block. `ensure_private_directory` calls itself, and has a number
-- of rounds here; more rounds than the system fails calls are proved to be enough.
--
-- Assumed of the system: no other process changes the registry's files while a function of it runs;
-- what a listing of a directory yields is any list of names and errors. The names of the registry's
-- files are ASCII. serde_json is two functions, and a theorem that needs them to fit says so.
--
-- Not modelled: what a new process is and inherits, raw mode, and the registration of signals. In Runner and
-- Attach an event of the trace is only recorded; what it does to the file is in Trace. The text of an
-- error is left out; its kind and its system code are kept.
pub mod Prelude
pub mod Limits
pub mod Identity
pub mod Ipc
pub mod ByteQueue
pub mod OutputTail
pub mod Terminal
pub mod Registry
pub mod Trace
pub mod Runner
pub mod Attach
pub mod Cli
pub mod Session
pub mod Entry
