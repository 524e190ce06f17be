-- ===== src/Attach/Replay/Tests.antt =====
-- src/attach.rs on a session that has ended with output that was truncated.
use afk_cli.Prelude.{
  ◌≡◌, refl, [], ◌∷◌, ◌++◌, true, false, none, some, if◌then◌else◌, ok, err, io_error, not_found,
  connection_refused, codes, bytes_eq, arith, length-append,
}
use afk_cli.Identity.{SessionId, IsSessionId, display}
use afk_cli.Identity.RoundTrip.{length-display}
use afk_cli.Prelude.Exec.{◌>>◌}
use afk_cli.Registry.Disk.{Files}
use afk_cli.Registry.Disk.Calls.{disk}
use afk_cli.Registry.Metadata.{completed, Completed, ExitMetadata, to_process_exit}
use afk_cli.Registry.Sessions.{
  Registry, RegistryHost, session_paths, paths, write_output, write_metadata,
}
use afk_cli.Attach.{new_client, finished}
use afk_cli.Attach.Replay.{replay}
use afk_cli.Attach.Replay.Whole.{marker, completion, sound, replay-stored}

abbrev session : SessionId
session = record {
  bytes = 1 ∷ 2 ∷ 3 ∷ 4 ∷ 5 ∷ 6 ∷ 7 ∷ 8 ∷ 9 ∷ 10 ∷ 11 ∷ 12 ∷ 13 ∷ 14 ∷ 15 ∷ 16 ∷ [];
}

session-IsSessionId : IsSessionId session
session-IsSessionId = record { width = refl; are_bytes = omega arith }

abbrev registry : Registry
registry = record { root = codes "/h/.afk/run"; uid = 1000 }

abbrev ended : Completed
ended = record {
  session_id = display session;
  started_at = 100;
  finished_at = 200;
  exit = ExitMetadata.signal 9;
  output_bytes = 2;
  truncated = true;
}

-- The text of every record is `{`.
abbrev host : RegistryHost
host = record {
  process_id = codes "42";
  now_seconds = ok 1000;
  connect = λ p. err (io_error not_found);
  peer_uid = λ stream. ok 1000;
  to_vec = λ m. some (b'{' ∷ []);
  from_slice = λ bytes. if bytes_eq bytes (b'{' ∷ []) then some (completed ended) else none;
}

abbrev no_files : Files
no_files _ = none

session_path_fits : paths registry session ≡ ok (session_paths registry session)
unfolding paths
session_path_fits = ground (
  arith,
  length-append (display session) (codes ".sock"),
  length-display session session-IsSessionId,
)

replay-stored_example :
    let written =
      (write_output host registry (session_paths registry session) (codes "hi")
          >> write_metadata host registry (session_paths registry session) (completed ended))
        (disk no_files []) in
    let out =
      replay host registry session
        (ok tt)
        (io_error connection_refused)
        (record { disk = written.1; client = new_client false; output = sound [] }) in
    (written.0 ≡ ok tt)
    × (out.0 ≡ ok (finished (to_process_exit (ExitMetadata.signal 9))))
    × (out.1.output.written
        ≡ []
          ++ (marker true ++ (codes "hi" ++ completion (to_process_exit (ExitMetadata.signal 9)))))
replay-stored_example =
    replay-stored host registry session ended (codes "hi") no_files (new_client false) []
      (io_error connection_refused)
      (record {
        short = session_path_fits;
        free_output = refl;
        free_json = refl;
        target_output = refl;
        target_json = refl;
      })
      (record { encoded = b'{' ∷ []; written = refl; read = refl; small = omega arith }) refl
      (omega arith)
