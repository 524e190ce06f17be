-- ===== src/Entry.antt =====
-- src/lib.rs: `run`, the whole program behind its arguments and its two streams.
--
-- What the session commands do besides is an argument: the record `Commands` has their results. A stream
-- is what was written to it, and the list of the answers that it gives to `write_all`.
mod Writing
pub mod Expected
mod Texts
pub mod Honest
mod Tests
use Prim.Native.String.{String}
use afk_cli.Prelude.{
  ℕ, List, [], ◌∷◌, ◌++◌, Bool, Option, take, codes, Result, ok, err, IoError, IoResult, ErrorKind,
  not_found, connection_refused, connection_aborted, permission_denied,
}
use afk_cli.Prelude.Exec.{Exec, attempt, pure, ◌>>=◌, ◌>>◌}
use afk_cli.Identity.{SessionId}
use afk_cli.Ipc.{ProcessExit, status_code}
use afk_cli.Cli.{
  Command, help, version, session, sessions, stop, hidden_runner, hidden_child, ParseError,
  missing_command, unsupported_command, invalid_session_id, invalid_arguments, command_too_large,
  parse,
}
use afk_cli.Session.{SessionHost, connect_or_start}

pub data ExitStatus : Type 0 where
  success failure usage : ExitStatus
  child : ℕ → ExitStatus

unfoldable pub exit_code : ExitStatus → ℕ
exit_code success = 0
exit_code failure = 1
exit_code usage = 2
exit_code (child code) = code

-- A line break and the blanks behind it are no part of a literal that goes on with a backslash.
abbrev pub help_text : List ℕ
help_text =
    codes "AFK CLI keeps a remote terminal process alive across SSH disconnections.\n\n"
    ++ (codes "Usage:\nafk --help\nafk --version\n"
        ++ (codes "afk session SESSION_ID [--trace] [-- COMMAND [ARG...]]\n"
            ++ (codes "afk sessions [--json]\nafk stop SESSION_ID\n\n"
                ++ codes "Session commands require Linux or macOS.\n")))

abbrev pub missing_command_text : List ℕ
missing_command_text = codes "error: a command or option is required\nTry 'afk --help' for usage.\n"

abbrev pub unsupported_command_text : List ℕ
unsupported_command_text =
    codes "error: unsupported command or option\nTry 'afk --help' for usage.\n"

-- The answer of `write_all`; `partial` has the number of the bytes that were written.
pub data WriteAnswer : Type 0 where
  whole : WriteAnswer
  partial : ℕ → IoError → WriteAnswer

pub record Stream : Type 0 where
  pub written : List ℕ
  pub answers : List WriteAnswer

abbrev pub take_bytes : List ℕ → List ℕ → List WriteAnswer → IoResult (Unit {0}) × Stream
take_bytes bytes written [] = (ok tt, record { written = written ++ bytes; answers = [] })
take_bytes bytes written (whole ∷ rest) =
    (ok tt, record { written = written ++ bytes; answers = rest })
take_bytes bytes written (partial n e ∷ rest) =
    (err e, record { written = written ++ take n bytes; answers = rest })

unfoldable pub write_all : List ℕ → Exec Stream (Unit {0})
write_all bytes s = take_bytes bytes s.written s.answers

-- Each writer below ends with a status whatever the stream answers.
unfoldable pub write_failure : List ℕ → Exec Stream ExitStatus
unfolding attempt pure
write_failure message = attempt (write_all message) (λ _. pure failure) (λ _. pure failure)

unfoldable pub write_static : List ℕ → Exec Stream ExitStatus
unfolding attempt pure
write_static message = attempt (write_all message) (λ _. pure success) (λ _. pure failure)

unfoldable pub write_version : (package_version : List ℕ) → Exec Stream ExitStatus
unfolding attempt pure ◌>>=◌
write_version package_version =
    attempt (do write_all (codes "afk "); write_all package_version; write_all (codes "\n"))
      (λ _. pure success) (λ _. pure failure)

unfoldable pub write_usage_error : List ℕ → Exec Stream ExitStatus
unfolding attempt pure
write_usage_error message = attempt (write_all message) (λ _. pure usage) (λ _. pure failure)

abbrev pub session_error_text : ErrorKind → List ℕ
session_error_text not_found = codes "error: session not found\n"
session_error_text connection_refused = codes "error: session not found\n"
session_error_text connection_aborted = codes "error: session unavailable\n"
session_error_text permission_denied = codes "error: unsafe session runtime entry\n"
session_error_text _ = codes "error: session operation failed\n"

unfoldable pub write_session_error : ErrorKind → Exec Stream ExitStatus
write_session_error kind = write_failure (session_error_text kind)

-- The results of the commands that `run` calls. They write to the standard output; what they write is
-- not a part of the console here.
pub record Commands : Type 0 where
  pub session_host : SessionId → Bool → List (List ℕ) → SessionHost
  pub list_sessions : Bool → IoResult (Unit {0})
  pub stop_session : SessionId → IoResult (Unit {0})
  pub run_runner : SessionId → IoResult (Unit {0})
  pub run_child : List (List ℕ) → IoResult (Unit {0})

abbrev pub succeeds : IoResult (Unit {0}) → IoResult ExitStatus
succeeds (ok _) = ok success
succeeds (err e) = err e

abbrev pub child_status : IoResult ProcessExit → IoResult ExitStatus
child_status (ok status) = ok (child (status_code status))
child_status (err e) = err e

unfoldable pub session_result : Commands → Command → IoResult ExitStatus
session_result c (session id trace command) =
    child_status (connect_or_start (c.session_host id trace command)).0
session_result c (sessions json) = succeeds (c.list_sessions json)
session_result c (stop id) = succeeds (c.stop_session id)
session_result c (hidden_runner id) = succeeds (c.run_runner id)
session_result c (hidden_child command) = succeeds (c.run_child command)
session_result c help = ok success
session_result c version = ok success

pub record Console : Type 0 where
  pub stdout : Stream
  pub stderr : Stream

unfoldable pub to_stdout : {A : Type 0} → Exec Stream A → Exec Console A
to_stdout m s = let (r, stream) = m s.stdout in (r, record s { stdout = stream })

unfoldable pub to_stderr : {A : Type 0} → Exec Stream A → Exec Console A
to_stderr m s = let (r, stream) = m s.stderr in (r, record s { stderr = stream })

abbrev pub report : IoResult ExitStatus → Exec Console ExitStatus
report (ok status) = pure status
report (err error) = to_stderr (write_session_error error.kind)

unfoldable pub run_session_command : Commands → Command → Exec Console ExitStatus
unfolding pure
run_session_command c command = report (session_result c command)

abbrev pub usage_text : ParseError → List ℕ
usage_text missing_command = missing_command_text
usage_text _ = unsupported_command_text

abbrev pub run_parsed : Commands → List ℕ → Result ParseError Command → Exec Console ExitStatus
run_parsed c package_version (ok help) = to_stdout (write_static help_text)
run_parsed c package_version (ok version) = to_stdout (write_version package_version)
run_parsed c package_version (ok command) = run_session_command c command
run_parsed c package_version (err e) = to_stderr (write_usage_error (usage_text e))

unfoldable pub run : Commands → (package_version : List ℕ) → List (List ℕ) → Exec Console ExitStatus
run c package_version arguments = run_parsed c package_version (parse arguments)
