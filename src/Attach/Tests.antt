-- ===== src/Attach/Tests.antt =====
-- src/attach.rs on one round: input is typed, and the runner sends output and reports the exit.
use afk_cli.Prelude.{◌≡◌, refl, List, [], ◌∷◌, ◌++◌, true, false, ok, All, arith}
use afk_cli.Ipc.{
  Record, output, exit, code, remaining_capacity, push, encode, write_record, write_payload,
  encoded_shape, next, take_record, decode_payload, decode_exit, drain, drain_loop,
}
use afk_cli.Ipc.Codec.{IsRecord}
use afk_cli.Ipc.Framing.{wires, receive}
use afk_cli.ByteQueue.{accepted, flush}
use afk_cli.ByteQueue
use afk_cli.Terminal.{window_size, validate_dimensions}
use afk_cli.Prelude.Exec.{◌>>=◌, pure, fail, lift, attempt}
use afk_cli.Attach.{
  new_client, Surroundings, all_written, typed, got, polled, modify, gets, trace, proceed, leave,
  push_encoded, queue_encoded, queue_record, resize_to, receive_input,
}
use afk_cli.Attach.Loop.{
  when, set_closed, stdin_phase, flush_socket, flushed, write_phase, end_phase, decode, decoded,
  take_read, read_records, show, flush_shown, show_records, take_records, read_phase, serve,
  poll_phase, attend, round, run_rounds, Preparation, inspected, prepare, attach_live,
}
use afk_cli.Attach.Sends.{IsSending, attach_live-IsSending}
use afk_cli.Attach.Shows.{Shows, attach_live-Shows}

abbrev reported : List Record
reported = output (104 ∷ 105 ∷ []) ∷ exit (code 3) ∷ []

reported-All : All IsRecord reported
reported-All = ((omega arith, (omega arith, (omega arith, tt))), (omega arith, tt))

abbrev prepared : Preparation
prepared = record { set_nonblocking = ok tt; enter_raw = ok tt; register = ok tt }

abbrev surroundings : Surroundings
surroundings = record {
  sighup = false;
  sigterm = false;
  sigwinch = false;
  tcgetwinsize = ok (24, 80);
  try_recv = typed (108 ∷ 115 ∷ []);
  poll = polled (record { readable = true; writable = true; hangup = false; error = false });
  writes = accepted 4 ∷ [];
  read = got (wires reported);
  write_output = λ bytes. all_written;
  flush_output = ok tt;
}

reported-received :
    (attach_live prepared (ok (24, 80)) (surroundings ∷ []) (new_client true)).1.received ++ []
    ≡ wires reported
unfolding attach_live prepare inspected run_rounds round attend poll_phase serve read_phase
    take_records show_records flush_shown show read_records take_read decoded decode end_phase
    write_phase flushed flush_socket stdin_phase set_closed when receive_input resize_to
    queue_record queue_encoded push_encoded leave proceed trace gets modify ◌>>=◌ pure fail lift
    attempt window_size validate_dimensions ByteQueue.push flush receive drain drain_loop
    decode_payload decode_exit take_record next encode write_record write_payload encoded_shape push
    remaining_capacity
reported-received = refl

attach_live-Shows_example :
    let out = attach_live prepared (ok (24, 80)) (surroundings ∷ []) (new_client true) in
    Shows reported [] out.0 out.1
attach_live-Shows_example =
    attach_live-Shows reported true prepared (ok (24, 80)) (surroundings ∷ []) [] reported-All
      reported-received

attach_live-IsSending_example :
    IsSending (attach_live prepared (ok (24, 80)) (surroundings ∷ []) (new_client true)).1
attach_live-IsSending_example =
    attach_live-IsSending true prepared (ok (24, 80)) (surroundings ∷ [])
