-- ===== src/Runner/Launch/Tests.antt =====
-- src/runner.rs on a start whose event loop fails behind the response.
use afk_cli.Prelude.{[], ◌∷◌, false, ok, err, io_error, other, interrupted, codes}
use afk_cli.Identity.{SessionId}
use afk_cli.Runner.Startup.{StartupConfig}
use afk_cli.Runner.Launch.{StartHost, nothing_done, hidden_runner, launch_runner}
use afk_cli.Runner.Launch.Agreement.{Agrees, hidden_runner-Agrees}

abbrev session : SessionId
session = record {
  bytes = 1 ∷ 2 ∷ 3 ∷ 4 ∷ 5 ∷ 6 ∷ 7 ∷ 8 ∷ 9 ∷ 10 ∷ 11 ∷ 12 ∷ 13 ∷ 14 ∷ 15 ∷ 16 ∷ [];
}

abbrev start_host : StartHost
start_host = record {
  become_session_leader = ok tt;
  open_registry = ok tt;
  bind_session = ok tt;
  create_trace = λ trace. ok tt;
  create_pty = λ rows columns. ok tt;
  default_shell = codes "/bin/sh";
  dup_stdout = ok tt;
  dup_stderr = ok tt;
  spawn = λ command. ok 77;
  now_seconds = ok 1000;
  getpid = ok 76;
  write_metadata = λ metadata. ok tt;
  ready_writes = err (io_error interrupted) ∷ ok 1 ∷ [];
  set_nonblocking = ok tt;
  run_event_loop = err (io_error other);
  error_writes = ok 1 ∷ [];
}

abbrev config : StartupConfig
config = record { trace = false; command = []; rows = 24; columns = 80 }

hidden_runner-Agrees_example :
    let s = (hidden_runner start_host session (ok config) nothing_done).1 in
    Agrees session (launch_runner (ok tt) (ok tt) (ok s.responses)) s
hidden_runner-Agrees_example = hidden_runner-Agrees start_host session (ok config)
