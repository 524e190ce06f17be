-- ===== src/Entry/Expected.antt =====
-- src/lib.rs: what `run` is to say and return, from the user's point of view: the commands that are
-- accepted as they are written, the results of the functions behind them, and the texts as they are
-- printed. Nothing here is computed by `run` or by a function that it calls.
use afk_cli.Prelude.{
  ℕ, ◌+◌, min, List, [], ◌∷◌, ◌++◌, codes, ok, err, IoResult, ErrorKind, not_found,
  connection_refused, connection_aborted, permission_denied,
}
use afk_cli.Ipc.{ProcessExit, code, signal}
use afk_cli.Session.{connect_or_start}
use afk_cli.Cli.{Command, help, version, session, sessions, stop, hidden_runner, hidden_child}
use afk_cli.Cli.Sound.{Accepted}
use afk_cli.Entry.{Commands}

-- The exit code of the program, and its texts.
pub record Verdict : Type 0 where
  pub returns : ℕ
  pub on_stdout : List ℕ
  pub on_stderr : List ℕ

abbrev pub quiet : ℕ → Verdict
quiet n = record { returns = n; on_stdout = []; on_stderr = [] }

abbrev pub message : ErrorKind → List ℕ
message not_found = codes "error: session not found\n"
message connection_refused = codes "error: session not found\n"
message connection_aborted = codes "error: session unavailable\n"
message permission_denied = codes "error: unsafe session runtime entry\n"
message _ = codes "error: session operation failed\n"

abbrev pub failed : ErrorKind → Verdict
failed kind = record { returns = 1; on_stdout = []; on_stderr = message kind }

abbrev pub done : IoResult (Unit {0}) → Verdict
done (ok _) = quiet 0
done (err e) = failed e.kind

-- A shell's code is handed on; a signal is 128 above its number, as far as a byte goes.
abbrev pub ended : IoResult ProcessExit → Verdict
ended (ok (code n)) = quiet n
ended (ok (signal n)) = quiet (min (128 + n) 255)
ended (err e) = failed e.kind

abbrev pub misused : List ℕ → Verdict
misused text = record { returns = 2; on_stdout = []; on_stderr = text }

abbrev pub expected : Commands → (package_version : List ℕ) → Command → Verdict
expected c v help = record {
  returns = 0;
  on_stdout =
      codes "AFK CLI keeps a remote terminal process alive across SSH disconnections.\n\n"
      ++ (codes "Usage:\n"
          ++ (codes "afk --help\n"
              ++ (codes "afk --version\n"
                  ++ (codes "afk session SESSION_ID [--trace] [-- COMMAND [ARG...]]\n"
                      ++ (codes "afk sessions [--json]\n"
                          ++ (codes "afk stop SESSION_ID\n\n"
                              ++ codes "Session commands require Linux or macOS.\n"))))));
  on_stderr = [];
}
expected c v version = record {
  returns = 0;
  on_stdout = codes "afk " ++ (v ++ codes "\n");
  on_stderr = [];
}
expected c v (session id trace command) =
    ended (connect_or_start (c.session_host id trace command)).0
expected c v (sessions json) = done (c.list_sessions json)
expected c v (stop id) = done (c.stop_session id)
expected c v (hidden_runner id) = done (c.run_runner id)
expected c v (hidden_child command) = done (c.run_child command)

-- What a command line calls for.
pub data Reports (c : Commands) (package_version : List ℕ) : List (List ℕ) → Verdict → Type 0 where
  commanded :
      (arguments : List (List ℕ)) (command : Command)
      → Accepted arguments command
      → Reports c package_version arguments (expected c package_version command)
  unnamed :
      Reports c package_version []
        (misused (codes "error: a command or option is required\nTry 'afk --help' for usage.\n"))
  unaccepted :
      (first : List ℕ) (rest : List (List ℕ))
      → ((command : Command) → ¬ Accepted (first ∷ rest) command)
      → Reports c package_version
          (first ∷ rest)
          (misused (codes "error: unsupported command or option\nTry 'afk --help' for usage.\n"))
