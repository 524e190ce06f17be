-- ===== src/Attach/Replay/Whole.antt =====
-- src/attach.rs: what a runner has left of a session, its replay shows.
use afk_cli.Prelude.{
  ℕ, ◌≤◌, ◌≡◌, refl, ap, sym, ◌∙◌, List, [], ◌++◌, append_assoc, append-nil, Bool, true, false,
  length, codes, ok, IoError, IoResult,
}
use afk_cli.Limits.{output_tail_bytes}
use afk_cli.Identity.{SessionId, display}
use afk_cli.Ipc.{ProcessExit}
use afk_cli.OutputTail.{truncation_marker}
use afk_cli.Prelude.Exec.{◌>>=◌, ◌>>◌, pure, lift, attempt}
use afk_cli.Entry.{Stream}
use afk_cli.Entry
use afk_cli.Registry.Disk.{Files}
use afk_cli.Registry.Disk.Calls.{disk}
use afk_cli.Registry.Metadata.{completed, Completed, to_process_exit}
use afk_cli.Registry.Sessions.{Registry, RegistryHost, session_paths, write_output, write_metadata}
use afk_cli.Registry.RoundTrip.{Encodes, read_metadata-calm}
use afk_cli.Registry.RoundTrip.Calm.{calm, replaced_same}
use afk_cli.Attach.{Client, Turn, finished, trace, modify}
use afk_cli.Attach.Replay.{
  World, on_disk, on_client, on_output, completion_start, completion_number, write_completion,
  write_marker, write_found, replay_completed, replay_found, replay,
}
use afk_cli.Attach.Replay.Left.{
  IsReady, json_path, with_output, same_free, same_target, left, stored-calm, read_output-calm,
}

abbrev pub marker : Bool → List ℕ
marker true = truncation_marker
marker false = []

abbrev pub completion : ProcessExit → List ℕ
completion status = completion_start status ++ (completion_number status ++ codes "]\n")

-- A stream that fails no write.
abbrev pub sound : List ℕ → Stream
sound written = record { written = written; answers = [] }

write_marker-sound :
    (truncated : Bool) (before : List ℕ)
    → write_marker truncated (sound before) ≡ (ok tt, sound (before ++ marker truncated))
unfolding write_marker pure Entry.write_all
write_marker-sound true before = refl
write_marker-sound false before = ap (λ l. (ok tt, sound l)) (sym (append-nil before))

write_completion-sound :
    (status : ProcessExit) (before : List ℕ)
    → write_completion (ok tt) status (sound before) ≡ (ok tt, sound (before ++ completion status))
unfolding write_completion Entry.write_all ◌>>=◌ attempt lift
write_completion-sound status before =
    ap (λ l. (ok tt, sound l))
      (append_assoc (before ++ completion_start status) (completion_number status) _
        ∙ append_assoc before (completion_start status) _)

module _ (host : RegistryHost) (r : Registry) (session : SessionId) (files : Files)
    (ready : IsReady host r session files) (output : List ℕ)
    (small : length output ≤ output_tail_bytes) (c : Completed)
    (json : Encodes host (completed c)) where
  abbrev world : List Files → Client → List ℕ → World
  world history client before = record {
    disk = calm (left host r session files ready output small c json) history;
    client = client;
    output = sound before;
  }

  abbrev Shows : IoResult Turn × World → List ℕ → Type 0
  Shows out before =
      (out.0 ≡ ok (finished (to_process_exit c.exit)))
      × (out.1.output.written
          ≡ before ++ (marker c.truncated ++ (output ++ completion (to_process_exit c.exit))))

  replay_completed-Shows :
      (history : List Files) (client : Client) (before : List ℕ)
      → Shows (replay_completed host r session (ok tt) c (world history client before)) before
  unfolding replay_completed on_output on_disk on_client write_found Entry.write_all ◌>>=◌ attempt
      pure trace modify
  replay_completed-Shows history client before =
      let o = read_output-calm host r session files ready output small c json history in
      rw
        (
          write_marker-sound c.truncated before,
          o.1,
          write_completion-sound (to_process_exit c.exit)
              ((before ++ marker c.truncated) ++ output),
        )
        (refl, append_assoc (before ++ marker c.truncated) output _ ∙ append_assoc before _ _)

  replay-Shows :
      (history : List Files) (client : Client) (before : List ℕ) (error : IoError)
      → c.session_id ≡ display session
      → Shows (replay host r session (ok tt) error (world history client before)) before
  unfolding replay on_disk on_client replay_found ◌>>=◌ attempt trace modify
  replay-Shows history client before error own_name =
      let m =
        read_metadata-calm host r session (completed c) json
          (left host r session files ready output small c json) history
          (replaced_same r.uid host.process_id (json_path r session) json.encoded
            (with_output host r session files ready output small)
            (same_free host r session files ready output small)
            (same_target host r session files ready output small))
          own_name ready.short in
      rw m.1 (replay_completed-Shows m.0 _ before)

-- What a runner has stored of a session that has ended, the output and then the record, both succeed, and
-- an attachment that finds no runner shows it whole: the marker if the output was truncated, the
-- output, and how the process ended; and it returns the status of the process. The system fails no
-- call, and nothing is in the way of the files.
pub replay-stored :
    (host : RegistryHost) (r : Registry) (session : SessionId) (c : Completed) (output : List ℕ)
    (files : Files) (client : Client) (before : List ℕ) (connect_error : IoError)
    → IsReady host r session files
    → Encodes host (completed c)
    → c.session_id ≡ display session
    → length output ≤ output_tail_bytes
    → let written =
        (write_output host r (session_paths r session) output
            >> write_metadata host r (session_paths r session) (completed c))
          (disk files []) in
      let out =
        replay host r session
          (ok tt)
          connect_error
          (record { disk = written.1; client = client; output = sound before }) in
      (written.0 ≡ ok tt)
      × (out.0 ≡ ok (finished (to_process_exit c.exit)))
      × (out.1.output.written
          ≡ before ++ (marker c.truncated ++ (output ++ completion (to_process_exit c.exit))))
replay-stored host r session c output files client before connect_error ready json own_name small =
    let w = stored-calm host r session files ready output small c json in
    let shown =
      replay-Shows host r session files ready output small c json w.0 client before connect_error
        own_name in
    rw w.1 (refl, shown.0, shown.1)
