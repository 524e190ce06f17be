-- ===== src/Session.antt =====
-- src/session.rs, `connect_or_start`: attach to a session, or start it and attach. What the client, the
-- registry and the launcher answer is an argument.
pub mod Cautious
mod Tests
use afk_cli.Prelude.{
  ℕ, List, [], ◌∷◌, Bool, true, false, Option, none, some, if◌then◌else◌, Result, ok, err, IoError,
  IoResult, io_error, ErrorKind, not_found, connection_refused, connection_aborted, already_exists,
}
use afk_cli.Ipc.{ProcessExit}
use afk_cli.Terminal.{window_size}

-- `attach` and `attach_again` are the answers of the two calls of `attach::attach`, and
-- `has_metadata` says if `read_metadata` found any.
pub record SessionHost : Type 0 where
  pub attach : IoResult ProcessExit
  pub has_metadata : IoResult Bool
  pub tcgetwinsize : IoResult (ℕ × ℕ)
  pub launch_runner : ℕ → ℕ → IoResult (Unit {0})
  pub attach_again : IoResult ProcessExit

-- The errors of an attach that say that there is no session.
abbrev pub is_missing : ErrorKind → Bool
is_missing not_found = true
is_missing connection_refused = true
is_missing _ = false

abbrev pub is_already_exists : ErrorKind → Bool
is_already_exists already_exists = true
is_already_exists _ = false

-- `window_size(..).unwrap_or((24, 80))`
abbrev pub size_or_default : IoResult (ℕ × ℕ) → ℕ × ℕ
size_or_default (ok size) = size
size_or_default (err _) = (24, 80)

-- After the launch; a runner that another invocation has started serves as well.
abbrev pub after_launch : SessionHost → IoResult (Unit {0}) → IoResult ProcessExit
after_launch host (ok _) = host.attach_again
after_launch host (err error) =
    if is_already_exists error.kind then host.attach_again else err error

-- The launch, with the size that the runner is given.
unfoldable pub launch : SessionHost → ℕ × ℕ → IoResult ProcessExit × List (ℕ × ℕ)
launch host size = (after_launch host (host.launch_runner size.0 size.1), size ∷ [])

unfoldable pub start_session : SessionHost → IoResult Bool → IoResult ProcessExit × List (ℕ × ℕ)
start_session host (err e) = (err e, [])
start_session host (ok true) = (err (io_error connection_aborted), [])
start_session host (ok false) = launch host (size_or_default (window_size host.tcgetwinsize))

unfoldable pub connect_failed : SessionHost → IoError → IoResult ProcessExit × List (ℕ × ℕ)
connect_failed host error =
    let started = start_session host host.has_metadata in
    if is_missing error.kind then started else (err error, [])

abbrev pub connect : SessionHost → IoResult ProcessExit → IoResult ProcessExit × List (ℕ × ℕ)
connect host (ok status) = (ok status, [])
connect host (err error) = connect_failed host error

-- How the session ended, and the size of each runner that was launched.
unfoldable pub connect_or_start : SessionHost → IoResult ProcessExit × List (ℕ × ℕ)
connect_or_start host = connect host host.attach
