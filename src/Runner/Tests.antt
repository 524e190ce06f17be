-- ===== src/Runner/Tests.antt =====
-- src/runner.rs on two rounds: a client connects, and attaches.
use afk_cli.Prelude.{◌≡◌, refl, List, [], ◌∷◌, ◌++◌, true, false, none, some, ok, length, ltb, All}
use afk_cli.Prelude.Chunks.{chunks}
use afk_cli.Limits.{output_tail_bytes}
use afk_cli.Ipc.{
  remaining_capacity, push, encode, encoded_shape, write_record, write_payload, next, take_record,
  decode_payload, decode_dimensions, drain, drain_loop,
}
use afk_cli.Ipc.Framing.{receive}
use afk_cli.ByteQueue.{ByteQueue, flush, WriteOutcome}
use afk_cli.ByteQueue
use afk_cli.OutputTail.{extend, snapshot, is_truncated}
use afk_cli.OutputTail.Suffix.{last_bytes}
use afk_cli.Terminal.{set_window_size, validate_dimensions}
use afk_cli.Runner.State.{
  new_connection, Runner, start, Host, received, AcceptOutcome, connected, Events, polled,
}
use afk_cli.Runner.Monad.{◌>>=◌, when, trace_event, trace_io_error, record_attached}
use afk_cli.Runner.Connections.{
  queue_encoded, enqueue_chunks, enqueue_output, enqueue_replay, read_records, push_input,
  resize_pty, apply_active_records, admit, accept_candidate,
}
use afk_cli.Runner.Pty.{forward, take_output, drain_failed, drain_pty_loop, drain_pty}
use afk_cli.Runner.Loop.{
  again, drain_phase, flush_pty, pty_phase, flush_result, active_phase, activate, take_candidate,
  apply_candidate_records, candidate_records, read_candidate, serve, poll_phase, after_wait, tick,
  proceed, run_loop,
}
use afk_cli.Runner.Bounds.{IsWithin, run_loop-IsWithin}
use afk_cli.Runner.Attached.{IsHonest, run_loop-IsHonest}
use afk_cli.Runner.Logs.{read_bytes, taken_bytes, written_bytes}
use afk_cli.Runner.Truth.{IsSized, run_loop-tail, run_loop-input, run_loop-resizes}
use afk_cli.Runner.Delivery.{queued_behind}
use afk_cli.Runner.Views.Seen.{Attends}
use afk_cli.Runner.Views.Rounds.{run_loop-Attends}
use afk_cli.Runner.Peers.{IsOwn, accept_candidate-IsOwn}

abbrev silent : Events
silent = record { readable = false; writable = false; hangup = false; error = false }

abbrev readable : Events
readable = record { readable = true; writable = false; hangup = false; error = false }

-- The shell prints two bytes, and a client of the same user connects.
abbrev first_round : Host
first_round = record {
  uid = 501;
  pty_reads = received (36 ∷ 32 ∷ []) ∷ [];
  try_wait = ok none;
  poll = polled readable readable silent silent;
  pty_writes = [];
  active_writes = [];
  active_read = received [];
  accepts = connected 7 (ok 501) (ok tt) ∷ [];
  candidate_read = received [];
  tcsetwinsize = λ rows columns. ok tt;
  write_metadata = λ value. ok tt;
}

-- The client asks to attach, and types two bytes.
abbrev second_round : Host
second_round = record {
  uid = 501;
  pty_reads = [];
  try_wait = ok none;
  poll = polled silent silent readable silent;
  pty_writes = [];
  active_writes = [];
  active_read = received [];
  accepts = [];
  candidate_read =
      received (1 ∷ 0 ∷ 0 ∷ 0 ∷ 4 ∷ 0 ∷ 24 ∷ 0 ∷ 80 ∷ 2 ∷ 0 ∷ 0 ∷ 0 ∷ 2 ∷ 108 ∷ 115 ∷ []);
  tcsetwinsize = λ rows columns. ok tt;
  write_metadata = λ value. ok tt;
}

abbrev rounds : List Host
rounds = first_round ∷ second_round ∷ []

abbrev after : List Host → Runner
after hosts = (run_loop hosts (start false)).1

first-run :
    ((after (first_round ∷ [])).candidate ≡ some (new_connection 7))
    × (snapshot (after (first_round ∷ [])).tail ≡ 36 ∷ 32 ∷ [])
unfolding run_loop tick drain_phase drain_pty drain_pty_loop take_output forward drain_failed extend
    after_wait poll_phase serve pty_phase flush_pty flush_result active_phase accept_candidate admit
    read_candidate candidate_records proceed ◌>>=◌ when trace_event trace_io_error record_attached
first-run = (refl, refl)

-- Both rounds succeed, and the client has the shell's output before anything else.
rounds-run :
    ((run_loop rounds (start false)).0 ≡ ok again)
    × ((after rounds).active
        ≡ some (queued_behind (new_connection 7) (3 ∷ 0 ∷ 0 ∷ 0 ∷ 2 ∷ 36 ∷ 32 ∷ [])))
unfolding run_loop tick drain_phase drain_pty drain_pty_loop take_output forward drain_failed extend
    after_wait poll_phase serve pty_phase flush_pty flush_result active_phase accept_candidate admit
    read_candidate candidate_records apply_candidate_records take_candidate activate resize_pty
    set_window_size validate_dimensions enqueue_replay enqueue_output enqueue_chunks queue_encoded
    chunks encode write_record write_payload encoded_shape ByteQueue.push apply_active_records
    push_input read_records remaining_capacity receive push drain drain_loop next take_record
    decode_payload decode_dimensions proceed ◌>>=◌ when trace_event trace_io_error record_attached
rounds-run = (refl, refl)

run_loop-IsWithin_example : IsWithin (after rounds)
run_loop-IsWithin_example = run_loop-IsWithin false rounds

run_loop-IsHonest_example : IsHonest (after rounds)
run_loop-IsHonest_example = run_loop-IsHonest false rounds again rounds-run.0

run_loop-tail_example :
    (snapshot (after rounds).tail
      ≡ last_bytes output_tail_bytes (read_bytes (after rounds).effects))
    × (is_truncated (after rounds).tail
        ≡ ltb output_tail_bytes (length (read_bytes (after rounds).effects)))
run_loop-tail_example = run_loop-tail false rounds

run_loop-input_example :
    written_bytes (after rounds).effects ++ (after rounds).pty_input.bytes
    ≡ taken_bytes (after rounds).effects
run_loop-input_example = run_loop-input false rounds

run_loop-resizes_example : All IsSized (after rounds).effects
run_loop-resizes_example = run_loop-resizes false rounds

run_loop-Attends_example : Attends (after rounds).active (after rounds).effects
run_loop-Attends_example = run_loop-Attends false rounds again rounds-run.0

-- A connection of another user, and then one of the same.
abbrev two_peers : List AcceptOutcome
two_peers = connected 8 (ok 502) (ok tt) ∷ connected 9 (ok 501) (ok tt) ∷ []

accept_candidate-IsOwn_example :
    IsOwn first_round none two_peers
      (accept_candidate first_round two_peers (start false)).1.candidate
accept_candidate-IsOwn_example = accept_candidate-IsOwn first_round two_peers (start false)
