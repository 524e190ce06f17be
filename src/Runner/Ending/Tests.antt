-- ===== src/Runner/Ending/Tests.antt =====
-- src/runner.rs, the end of a session, on a short one.
use afk_cli.Prelude.{
  ◌≡◌, refl, List, [], ◌∷◌, some, none, ok, true, err, io_error, would_block, arith, other,
}
use afk_cli.Ipc.{code, exit}
use afk_cli.Ipc.Codec.{wire}
use afk_cli.ByteQueue.{WriteOutcome, accepted, refused}
use afk_cli.OutputTail.{empty_tail}
use afk_cli.Runner.State.{Connection, ExitStatus}
use afk_cli.Runner.Ending.{send_exit, EndHost, stored_output, complete_at, complete_session}
use afk_cli.Runner.Ending.Durable.{IsDurable, is_final, complete_session-IsDurable}
use afk_cli.Runner.Ending.Delivers.{IsPrefix, send_exit-IsPrefix, send_exit_complete}

abbrev killed : ExitStatus
killed = record { code = none; signal = some 9 }

-- A client with two bytes still to be sent.
abbrev client : Connection
client = record {
  stream = 7;
  decoder = record { buffer = [] };
  output = record { bytes = 36 ∷ 32 ∷ []; limit = 100 };
}

send_exit-IsPrefix_example :
    IsPrefix
      (send_exit
        (code 3)
        (accepted 1 ∷ refused (io_error would_block) ∷ [])
        (accepted 8 ∷ [])
        client)
      (36 ∷ 32 ∷ wire (exit (code 3)))
send_exit-IsPrefix_example =
    send_exit-IsPrefix (code 3) (accepted 1 ∷ refused (io_error would_block) ∷ []) (accepted 8 ∷ [])
      client (omega arith)

abbrev byte_by_byte : List WriteOutcome
byte_by_byte =
    accepted 1 ∷ accepted 1 ∷ accepted 1 ∷ accepted 1 ∷ accepted 1 ∷ accepted 1 ∷ accepted 1 ∷ []

send_exit_complete_example :
    send_exit (code 3) byte_by_byte byte_by_byte client ≡ 36 ∷ 32 ∷ wire (exit (code 3))
send_exit_complete_example =
    send_exit_complete (code 3) byte_by_byte byte_by_byte client (omega arith) (omega arith)
      (ground arith) (omega arith) (ground arith) (omega arith)

-- A registry that fails to take the metadata: the live files stay.
abbrev full_disk : EndHost
full_disk = record {
  write_output = λ bytes. ok tt;
  now_seconds = ok 1000;
  write_metadata = λ metadata. err (io_error other);
  first_writes = [];
  second_writes = [];
}

full_disk_keeps :
    complete_session full_disk (record { bytes = [] }) (empty_tail 4) (some client) 900 (code 0)
    ≡ (err (io_error other), stored_output [] ∷ [])
unfolding complete_session complete_at
full_disk_keeps = refl

abbrev healthy : EndHost
healthy = record {
  write_output = λ bytes. ok tt;
  now_seconds = ok 1000;
  write_metadata = λ metadata. ok tt;
  first_writes = byte_by_byte;
  second_writes = byte_by_byte;
}

healthy-is_final :
    is_final
      (complete_session healthy (record { bytes = [] }) (empty_tail 4) (some client) 900 (code 0)).1
    ≡ true
unfolding complete_session complete_at
healthy-is_final = refl

complete_session-IsDurable_example :
    IsDurable
      (empty_tail 4)
      (code 0)
      (complete_session healthy (record { bytes = [] }) (empty_tail 4) (some client) 900 (code 0)).1
complete_session-IsDurable_example =
    complete_session-IsDurable healthy (record { bytes = [] }) (empty_tail 4) (some client) 900
      (code 0) healthy-is_final
