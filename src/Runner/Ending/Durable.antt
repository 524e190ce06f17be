-- ===== src/Runner/Ending/Durable.antt =====
-- src/runner.rs, `complete_session`: in which order things are stored.
use afk_cli.Prelude.{
  ℕ, ◌≡◌, refl, List, [], ◌∷◌, Bool, true, false, Option, length, arith, inl, inr, Result-cases,
}
use afk_cli.Identity.{SessionId}
use afk_cli.Ipc.{ProcessExit}
use afk_cli.OutputTail.{OutputTail, snapshot, is_truncated}
use afk_cli.Runner.State.{Connection}
use afk_cli.Registry.Metadata.{Completed, to_process_exit, to_process_exit-to_metadata}
use afk_cli.Runner.Ending.{
  Ending, stored_output, stored_metadata, removed_live_files, sent, EndHost, send_active,
  complete_at, complete_session,
}

-- The live session's files were removed, or the attachment was sent something.
abbrev pub is_final : List Ending → Bool
is_final [] = false
is_final (removed_live_files ∷ es) = true
is_final (sent bytes ∷ es) = true
is_final (stored_output bytes ∷ es) = is_final es
is_final (stored_metadata m ∷ es) = is_final es

-- First the output is stored, then metadata that describe it, and only then come the other steps.
pub record IsDurable (tail : OutputTail) (status : ProcessExit) (es : List Ending) : Type 0 where
  pub metadata : Completed
  pub behind : List Ending
  pub order : es ≡ stored_output (snapshot tail) ∷ stored_metadata metadata ∷ behind
  pub same_length : metadata.output_bytes ≡ length (snapshot tail)
  pub same_mark : metadata.truncated ≡ is_truncated tail
  pub same_exit : to_process_exit metadata.exit ≡ status

complete_at-IsDurable :
    (host : EndHost) (tail : OutputTail) (m : Completed) (status : ProcessExit)
    (active : Option Connection)
    → m.output_bytes ≡ length (snapshot tail)
    → m.truncated ≡ is_truncated tail
    → to_process_exit m.exit ≡ status
    → let out = complete_at host m status active (stored_output (snapshot tail) ∷ []) in
      is_final out.1 ≡ true → IsDurable tail status out.1
unfolding complete_at
complete_at-IsDurable host tail m status active len mark exit final =
    elim (Result-cases (host.write_metadata m)) [
      | inl (u, e) ↦
          rw (e, complete_at)
            (record {
              metadata = m;
              behind = removed_live_files ∷ send_active host status active;
              order = refl;
              same_length = len;
              same_mark = mark;
              same_exit = exit;
            })
      | inr (error, e) ↦ ground (arith, rw (e, complete_at) at final)
    ]

-- The live files are removed and the attachment is told only after the output and then the metadata
-- have been stored, and the metadata have the length of that output, its mark and the child's exit.
pub complete_session-IsDurable :
    (host : EndHost) (session : SessionId) (tail : OutputTail) (active : Option Connection)
    (started_at : ℕ) (status : ProcessExit)
    → is_final (complete_session host session tail active started_at status).1 ≡ true
    → IsDurable tail status (complete_session host session tail active started_at status).1
unfolding complete_session
complete_session-IsDurable host session tail active started_at status final =
    elim (Result-cases (host.write_output (snapshot tail))) [
      | inr (error, e) ↦ ground (arith, rw (e, complete_session) at final)
      | inl (u, e) ↦ elim (Result-cases host.now_seconds) [
        | inr (error, e') ↦ ground (arith, rw (e, complete_session, e', complete_session) at final)
        | inl (now, e') ↦
            rw (e, complete_session, e', complete_session)
              (complete_at-IsDurable host tail _ status active refl refl
                (to_process_exit-to_metadata status)
                (rw (e, complete_session, e', complete_session) at final))
      ]
    ]
