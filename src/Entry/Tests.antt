-- ===== src/Entry/Tests.antt =====
-- src/lib.rs on the version, with a stream that breaks behind its first bytes.
use afk_cli.Prelude.{[], ◌∷◌, codes, ok, err, io_error, broken_pipe, not_found}
use afk_cli.Entry.{whole, partial, Commands, Console, run}
use afk_cli.Entry.Expected.{Verdict, Reports}
use afk_cli.Entry.Honest.{Honest, run-Honest}

abbrev commands : Commands
commands = record {
  session_host = λ session trace command. record {
    attach = err (io_error not_found);
    has_metadata = err (io_error not_found);
    tcgetwinsize = ok (24, 80);
    launch_runner = λ rows columns. ok tt;
    attach_again = err (io_error not_found);
  };
  list_sessions = λ json. ok tt;
  stop_session = λ session. err (io_error not_found);
  run_runner = λ session. ok tt;
  run_child = λ command. ok tt;
}

abbrev console : Console
console = record {
  stdout = record { written = []; answers = whole ∷ partial 1 (io_error broken_pipe) ∷ [] };
  stderr = record { written = []; answers = [] };
}

run-Honest_example :
    let out = run commands (codes "0.1.0") (codes "--version" ∷ []) console in
    (verdict : Verdict) × Reports commands (codes "0.1.0") (codes "--version" ∷ []) verdict
    × Honest verdict console out.0 out.1
run-Honest_example = run-Honest commands (codes "0.1.0") (codes "--version" ∷ []) console
