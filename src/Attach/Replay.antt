-- ===== src/Attach/Replay.antt =====
-- src/attach.rs, `attach`: the client of a live session, or the replay of one that has ended; and `stop`.
--
-- `Registry::open` comes first; its registry is an argument. The events of the trace are recorded in the
-- client, behind those that the opening of the file writes.
mod Left
pub mod Whole
mod Tests
use afk_cli.Prelude.{
  ℕ, List, [], ◌∷◌, ◌++◌, Bool, true, false, Option, none, some, if◌then◌else◌, codes, is_empty, ok,
  err, IoError, IoResult, ErrorKind, timed_out, interrupted,
}
use afk_cli.Identity.{SessionId}
use afk_cli.Ipc.{ProcessExit, code, signal, stop, encode}
use afk_cli.Prelude.Exec.{Exec, ◌>>=◌, ◌>>◌, pure, fail, lift, attempt}
use afk_cli.Entry.{Stream}
use afk_cli.Entry
use afk_cli.Registry.Disk.{Disk}
use afk_cli.Registry.Metadata.{SessionMetadata, live, completed, Completed, to_process_exit}
use afk_cli.Registry.Files.{is_not_found}
use afk_cli.Registry.Sessions.{
  Registry, RegistryHost, SessionPaths, paths, connect, read_metadata, read_output,
}
use afk_cli.OutputTail.{truncation_marker}
use afk_cli.Trace.{Moment, open_trace, decimal}
use afk_cli.Attach.{
  Client, event, event_error, event_exit, Surroundings, Act, modify, trace, Turn, finished,
  ReadAnswer, got, read_error,
}
use afk_cli.Attach.Loop.{Preparation, attach_live}

-- The files, the client, and the output that a replay writes to.
pub record World : Type 0 where
  pub disk : Disk
  pub client : Client
  pub output : Stream

unfoldable pub on_disk : {A : Type 0} → Exec Disk A → Exec World A
on_disk m w = let (r, disk) = m w.disk in (r, record w { disk = disk })

unfoldable pub on_client : {A : Type 0} → Act A → Exec World A
on_client m w = let (r, client) = m w.client in (r, record w { client = client })

unfoldable pub on_output : {A : Type 0} → Exec Stream A → Exec World A
on_output m w = let (r, output) = m w.output in (r, record w { output = output })

-- The pieces of the two formats of `write_completion`.
abbrev pub completion_start : ProcessExit → List ℕ
completion_start (code c) = codes "\r\n[afk: process exited with code "
completion_start (signal s) = codes "\r\n[afk: process exited with signal "

abbrev pub completion_number : ProcessExit → List ℕ
completion_number (code c) = decimal c
completion_number (signal s) = decimal s

-- `flush_output` is the answer of the last call.
unfoldable pub write_completion : IoResult (Unit {0}) → ProcessExit → Exec Stream (Unit {0})
unfolding ◌>>=◌
write_completion flush_output status = do
  Entry.write_all (completion_start status)
  Entry.write_all (completion_number status)
  Entry.write_all (codes "]\n")
  lift flush_output

unfoldable pub write_marker : Bool → Exec Stream (Unit {0})
unfolding pure
write_marker truncated = if truncated then Entry.write_all truncation_marker else pure tt

unfoldable pub write_found : Option (List ℕ) → Exec Stream (Unit {0})
unfolding pure
write_found none = pure tt
write_found (some bytes) = Entry.write_all bytes

module _ (host : RegistryHost) (r : Registry) (session : SessionId)
    (flush_output : IoResult (Unit {0})) where
  unfoldable pub replay_completed : Completed → Exec World Turn
  unfolding ◌>>=◌
  replay_completed c =
      let process_exit = to_process_exit c.exit in
      do
        on_output (write_marker c.truncated)
        bytes ← on_disk (read_output host r session)
        on_output (write_found bytes)
        on_output (write_completion flush_output process_exit)
        on_client (trace (event_exit "completed_session_replayed" process_exit))
        pure (finished process_exit)

  unfoldable pub replay_found : IoError → Option SessionMetadata → Exec World Turn
  replay_found connect_error (some (completed c)) = replay_completed c
  replay_found connect_error _ = fail connect_error

  unfoldable pub replay : IoError → Exec World Turn
  unfolding ◌>>=◌
  replay connect_error = do
    on_client (trace (event_error "runner_socket_connect_failed" connect_error))
    metadata ← on_disk (read_metadata host r session)
    replay_found connect_error metadata

  -- A trace that was asked for, where the session has one.
  unfoldable pub open_existing : Moment → SessionPaths → Exec World Bool
  unfolding attempt pure
  open_existing moment found =
      attempt (on_disk (open_trace r.uid moment found.trace "attachment")) (λ _. pure true)
        (λ error. if is_not_found error.kind then pure false else fail error)

  unfoldable pub start_trace : Moment → (trace_enabled : Bool) → Exec World Bool
  unfolding pure ◌>>=◌
  start_trace moment trace_enabled =
      if trace_enabled
      then (do found ← lift (paths r session); open_existing moment found)
      else pure false

  -- The rest are the answers that a live session gives.
  unfoldable pub attach :
      Moment
      → (trace_enabled : Bool) → Preparation
      → IoResult (ℕ × ℕ)
      → List Surroundings
      → Exec World Turn
  unfolding ◌>>=◌ attempt
  attach moment trace_enabled prepared size ws = do
    tracing ← start_trace moment trace_enabled
    on_client (modify (λ s. record s { tracing = tracing }))
    on_client (trace (event "attachment_process_started"))
    attempt (on_disk (connect host r session))
        (λ _. do
          on_client (trace (event "runner_socket_connected"))
          on_client (attach_live prepared size ws))
        replay

-- The loop of `stop`: a runner that closes the connection, or that does not in time; `none` where it still
-- waits behind the last answer.
unfoldable pub await_close : List ReadAnswer → IoResult (Option (Unit {0}))
await_close [] = ok none
await_close (got bytes ∷ rest) =
    let more = await_close rest in if is_empty bytes then ok (some tt) else more
await_close (read_error error ∷ rest) =
    let more = await_close rest in
    elim error.kind [ timed_out ↦ ok (some tt) | interrupted ↦ more | _ ↦ err error ]

-- `set_read_timeout` is the answer of that call.
unfoldable pub stop_session :
    RegistryHost
    → Registry
    → SessionId
    → (set_read_timeout : IoResult (Unit {0})) → List ReadAnswer
    → Exec World (Option (Unit {0}))
unfolding ◌>>=◌
stop_session host r session set_read_timeout reads = do
  on_disk (connect host r session)
  encoded ← lift (encode stop)
  on_output (Entry.write_all encoded)
  lift set_read_timeout
  lift (await_close reads)
