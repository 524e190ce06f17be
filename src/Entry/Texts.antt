-- ===== src/Entry/Texts.antt =====
-- src/lib.rs: the texts and status codes of `run` are the expected ones.
use afk_cli.Prelude.{
  ◌≡◌, refl, ap, [], codes, ok, err, IoResult, IoError, ErrorKind, not_found, permission_denied,
  connection_refused, connection_reset, connection_aborted, not_connected, broken_pipe,
  already_exists, would_block, invalid_input, invalid_data, timed_out, write_zero, interrupted,
  unexpected_eof, out_of_memory, addr_in_use, other,
}
use afk_cli.Ipc.{ProcessExit, code, signal, status_code}
use afk_cli.Cli.{
  Command, ParseError, missing_command, unsupported_command, invalid_session_id, invalid_arguments,
  command_too_large,
}
use afk_cli.Cli.Complete.{IsNamed}
use afk_cli.Entry.{
  ExitStatus, failure, exit_code, session_error_text, succeeds, child_status, usage_text,
}
use afk_cli.Entry.Expected.{Verdict, quiet, message, failed, done, ended}

-- What `run` makes of a result, on streams that do not fail.
abbrev pub judged : IoResult ExitStatus → Verdict
judged (ok status) = quiet (exit_code status)
judged (err e) = record {
  returns = exit_code failure;
  on_stdout = [];
  on_stderr = session_error_text e.kind;
}

session_error_text-message : (k : ErrorKind) → session_error_text k ≡ message k
session_error_text-message not_found = refl
session_error_text-message permission_denied = refl
session_error_text-message connection_refused = refl
session_error_text-message connection_reset = refl
session_error_text-message connection_aborted = refl
session_error_text-message not_connected = refl
session_error_text-message broken_pipe = refl
session_error_text-message already_exists = refl
session_error_text-message would_block = refl
session_error_text-message invalid_input = refl
session_error_text-message invalid_data = refl
session_error_text-message timed_out = refl
session_error_text-message write_zero = refl
session_error_text-message interrupted = refl
session_error_text-message unexpected_eof = refl
session_error_text-message out_of_memory = refl
session_error_text-message addr_in_use = refl
session_error_text-message other = refl

judged-failed : (e : IoError) → judged (err e) ≡ failed e.kind
unfolding exit_code
judged-failed e =
    ap (λ text. record { returns = 1; on_stdout = []; on_stderr = text })
      (session_error_text-message e.kind)

pub judged-done : (r : IoResult (Unit {0})) → judged (succeeds r) ≡ done r
unfolding exit_code
judged-done (ok _) = refl
judged-done (err e) = judged-failed e

pub judged-ended : (r : IoResult ProcessExit) → judged (child_status r) ≡ ended r
unfolding exit_code status_code
judged-ended (ok (code n)) = refl
judged-ended (ok (signal n)) = refl
judged-ended (err e) = judged-failed e

pub usage_text-unsupported :
    (e : ParseError)
    → IsNamed {A = Command} (err e)
    → usage_text e ≡ codes "error: unsupported command or option\nTry 'afk --help' for usage.\n"
usage_text-unsupported missing_command h = absurd h
usage_text-unsupported unsupported_command h = refl
usage_text-unsupported invalid_session_id h = refl
usage_text-unsupported invalid_arguments h = refl
usage_text-unsupported command_too_large h = refl
