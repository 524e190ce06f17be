-- ===== src/Runner/Ending.antt =====
-- src/runner.rs, `process_exit` and `complete_session`: how a session ends. What the registry and the
-- clock answer are arguments.
pub mod Delivers
pub mod Durable
mod Tests
use afk_cli.Prelude.{
  ℕ, List, [], ◌∷◌, ◌++◌, Bool, Option, none, some, ltb, if◌then◌else◌, length, Result, ok, err,
  IoResult,
}
use afk_cli.Identity.{SessionId, display}
use afk_cli.Ipc.{ProcessExit, code, signal, exit, encode}
use afk_cli.ByteQueue.{ByteQueue, WriteOutcome, flush}
use afk_cli.ByteQueue
use afk_cli.OutputTail.{OutputTail, snapshot, is_truncated}
use afk_cli.Registry.Metadata.{Completed, to_metadata}
use afk_cli.Runner.State.{Connection, ExitStatus}

-- `u8::try_from(n).ok()`, of a reading that is never negative.
abbrev pub try_byte : Option ℕ → Option ℕ
try_byte none = none
try_byte (some n) = if ltb n 256 then some n else none

abbrev pub signal_exit : Option ℕ → ProcessExit
signal_exit none = code 1
signal_exit (some s) = signal s

abbrev pub code_exit : Option ℕ → ProcessExit → ProcessExit
code_exit none other = other
code_exit (some c) other = code c

unfoldable pub process_exit : ExitStatus → ProcessExit
process_exit status = code_exit (try_byte status.code) (signal_exit (try_byte status.signal))

-- What the end of a session did to the world outside, in order.
pub data Ending : Type 0 where
  stored_output : List ℕ → Ending
  stored_metadata : Completed → Ending
  removed_live_files : Ending
  sent : List ℕ → Ending

-- The second half of what the attachment is sent: the exit record, behind what is still queued.
unfoldable pub send_record : ByteQueue → IoResult (List ℕ) → List WriteOutcome → List ℕ
send_record queue (err e) writes = []
send_record queue (ok encoded) writes =
    let (queue', fits) = ByteQueue.push queue encoded in
    if fits then (flush queue' writes).sent else []

-- The bytes that the attachment is sent at the end. The two flushes are answered by two lists of
-- writes; the stream blocks then, and a write that times out is a `WouldBlock`.
unfoldable pub send_exit : ProcessExit → List WriteOutcome → List WriteOutcome → Connection → List ℕ
send_exit status first second c =
    let f = flush c.output first in
    elim f.result [
      | err e ↦ f.sent
      | ok _ ↦ f.sent ++ send_record f.queue (encode (exit status)) second
    ]

pub record EndHost : Type 0 where
  pub write_output : List ℕ → IoResult (Unit {0})
  pub now_seconds : IoResult ℕ
  pub write_metadata : Completed → IoResult (Unit {0})
  pub first_writes : List WriteOutcome
  pub second_writes : List WriteOutcome

abbrev pub send_active : EndHost → ProcessExit → Option Connection → List Ending
send_active host status none = []
send_active host status (some c) =
    sent (send_exit status host.first_writes host.second_writes c) ∷ []

-- With the time of the end: the metadata, and then the files of the live session and the attachment.
unfoldable pub complete_at :
    EndHost
    → Completed
    → ProcessExit
    → Option Connection
    → List Ending
    → IoResult (Unit {0}) × List Ending
complete_at host metadata status active before = elim (host.write_metadata metadata) [
  | err e ↦ (err e, before)
  | ok _ ↦ (
    ok tt,
    before ++ stored_metadata metadata ∷ removed_live_files ∷ send_active host status active,
  )
]

unfoldable pub complete_session :
    EndHost
    → SessionId
    → OutputTail
    → Option Connection
    → ℕ
    → ProcessExit
    → IoResult (Unit {0}) × List Ending
complete_session host session tail active started_at status =
    let output = snapshot tail in
    elim (host.write_output output) [
      | err e ↦ (err e, [])
      | ok _ ↦ elim host.now_seconds [
        | err e ↦ (err e, stored_output output ∷ [])
        | ok now ↦
            complete_at host
              (record {
                session_id = display session;
                started_at = started_at;
                finished_at = now;
                exit = to_metadata status;
                output_bytes = length output;
                truncated = is_truncated tail;
              })
              status active (stored_output output ∷ [])
      ]
    ]
