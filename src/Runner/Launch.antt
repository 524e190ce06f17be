-- ===== src/Runner/Launch.antt =====
-- src/runner.rs: how a runner is launched, and tells the launcher that it runs (`launch_runner`,
-- `hidden_runner`, `start_runner`). What the system and the registry answer is an argument.
-- The events of the trace, that files and processes are closed and waited for, and a `kill` that fails,
-- whose result the code ignores, are left out.
pub mod Agreement
mod Tests
use afk_cli.Prelude.{
  ℕ, zero, suc, List, [], ◌∷◌, ◌++◌, Bool, true, false, Option, none, some, if◌then◌else◌, is_empty,
  ok, err, IoError, IoResult, io_error, ErrorKind, already_exists, interrupted, write_zero, other,
  unexpected_eof,
}
use afk_cli.Identity.{SessionId, display}
use afk_cli.Prelude.Exec.{Exec, ◌>>=◌, ◌>>◌, pure, fail, lift, attempt}
use afk_cli.Registry.Metadata.{SessionMetadata, live}
use afk_cli.Runner.Startup.{StartupConfig}

abbrev pub startup_ready : ℕ
startup_ready = 0

abbrev pub startup_exists : ℕ
startup_exists = 1

abbrev pub startup_failed : ℕ
startup_failed = 2

-- What the start of a runner did: the responses that were written, the record of the session, and if the
-- child was killed, which is that `kill` was called.
pub record Start : Type 0 where
  pub responses : List ℕ
  pub recorded : Option SessionMetadata
  pub killed : Bool

abbrev pub nothing_done : Start
nothing_done = record { responses = []; recorded = none; killed = false }

-- The answers to `start_runner`, in the order of its calls; `ready_writes` and `error_writes` are those of
-- `write` to the two responses.
pub record StartHost : Type 0 where
  pub become_session_leader : IoResult (Unit {0})
  pub open_registry : IoResult (Unit {0})
  pub bind_session : IoResult (Unit {0})
  pub create_trace : Bool → IoResult (Unit {0})
  pub create_pty : ℕ → ℕ → IoResult (Unit {0})
  pub default_shell : List ℕ
  pub dup_stdout : IoResult (Unit {0})
  pub dup_stderr : IoResult (Unit {0})
  pub spawn : List (List ℕ) → IoResult ℕ
  pub now_seconds : IoResult ℕ
  pub getpid : IoResult ℕ
  pub write_metadata : SessionMetadata → IoResult (Unit {0})
  pub ready_writes : List (IoResult ℕ)
  pub set_nonblocking : IoResult (Unit {0})
  pub run_event_loop : IoResult (Unit {0})
  pub error_writes : List (IoResult ℕ)

unfoldable pub live_metadata : SessionId → ℕ → ℕ → ℕ → Bool → SessionMetadata
live_metadata session runner_pid child_pid started_at attached = live (record {
  session_id = display session;
  runner_pid = runner_pid;
  child_pid = child_pid;
  started_at = started_at;
  attached = attached;
})

unfoldable pub respond : ℕ → Exec Start (Unit {0})
respond response s = (ok tt, record s { responses = s.responses ++ response ∷ [] })

abbrev pub was_interrupted : ErrorKind → Bool
was_interrupted interrupted = true
was_interrupted _ = false

-- The loop of `write_startup_response`, which writes one byte.
unfoldable pub write_startup_response : List (IoResult ℕ) → ℕ → Exec Start (Unit {0})
unfolding fail
write_startup_response [] response = respond response
write_startup_response (ok zero ∷ rest) response = fail (io_error write_zero)
write_startup_response (ok (suc n) ∷ rest) response = respond response
write_startup_response (err error ∷ rest) response =
    let again = write_startup_response rest response in
    if was_interrupted error.kind then again else fail error

unfoldable pub record_session : IoResult (Unit {0}) → SessionMetadata → Exec Start (Unit {0})
record_session (ok _) metadata s = (ok tt, record s { recorded = some metadata })
record_session (err e) metadata s = (err e, s)

unfoldable pub kill_child : Exec Start (Unit {0})
kill_child s = (ok tt, record s { killed = true })

abbrev pub command_or_shell : StartHost → List (List ℕ) → List (List ℕ)
command_or_shell host command = if is_empty command then host.default_shell ∷ [] else command

-- The registration of the runner, and the response.
unfoldable pub become_ready : StartHost → SessionMetadata → Exec Start (Unit {0})
unfolding ◌>>=◌ attempt
become_ready host metadata =
    attempt
      (do
        record_session (host.write_metadata metadata) metadata
        write_startup_response host.ready_writes startup_ready)
      pure (λ error. do kill_child; fail error)

unfoldable pub start_runner : StartHost → SessionId → StartupConfig → Exec Start (Unit {0})
unfolding ◌>>=◌
start_runner host session config = do
  lift host.become_session_leader
  lift host.open_registry
  lift host.bind_session
  lift (host.create_trace config.trace)
  lift (host.create_pty config.rows config.columns)
  lift host.dup_stdout
  lift host.dup_stderr
  child_pid ← lift (host.spawn (command_or_shell host config.command))
  started_at ← lift host.now_seconds
  runner_pid ← lift host.getpid
  become_ready host (live_metadata session runner_pid child_pid started_at false)
  lift host.set_nonblocking
  lift host.run_event_loop

abbrev pub session_exists : ErrorKind → Bool
session_exists already_exists = true
session_exists _ = false

-- The response to an error, whose own failure is ignored, and the error.
unfoldable pub report_error : StartHost → ℕ → IoError → Exec Start (Unit {0})
unfolding attempt
report_error host response error =
    attempt (write_startup_response host.error_writes response) (λ _. fail error) (λ _. fail error)

abbrev pub error_response : IoError → ℕ
error_response error = if session_exists error.kind then startup_exists else startup_failed

unfoldable pub hidden_runner :
    StartHost → SessionId → IoResult StartupConfig → Exec Start (Unit {0})
unfolding attempt
hidden_runner host session (err error) = report_error host startup_failed error
hidden_runner host session (ok config) =
    attempt (start_runner host session config) pure
      (λ error. report_error host (error_response error) error)

-- What `launch_runner` makes of the bytes that the runner has written; `read_exact` fails where there
-- are none.
unfoldable pub read_response : List ℕ → IoResult (Unit {0})
read_response [] = err (io_error unexpected_eof)
read_response (zero ∷ rest) = ok tt
read_response (suc zero ∷ rest) = err (io_error already_exists)
read_response (suc (suc n) ∷ rest) = err (io_error other)

-- `spawned` is the answer of the calls up to `spawn`, `configured` that of `write_startup_config`, and
-- `responses` what the runner writes until it closes its end, or an error of `read`.
unfoldable pub launch_runner :
    (spawned configured : IoResult (Unit {0})) (responses : IoResult (List ℕ)) → IoResult (Unit {0})
launch_runner (err e) configured responses = err e
launch_runner (ok _) (err e) responses = err e
launch_runner (ok _) (ok _) (err e) = err e
launch_runner (ok _) (ok _) (ok responses) = read_response responses
