-- ===== src/Trace/Tests.antt =====
-- src/trace.rs on a runner and an attachment, which report in turns.
use afk_cli.Prelude.{◌+◌, ◌≤◌, refl, List, [], ◌∷◌, none, ok, io_error, other, broken_pipe, codes}
use afk_cli.Registry.Disk.{FilePath, join, Fault, proceed, fails, Files}
use afk_cli.Registry.Disk.Calls.{disk}
use afk_cli.Trace.{max_trace_bytes, Moment, event, io_failure, metric}
use afk_cli.Trace.Growth.{size}
use afk_cli.Trace.Shared.{
  Turn, runner_reports, attachment_reports, attaches, detaches, traced_session, others_limit,
  traced_session-IsBounded,
}

abbrev trace_file : FilePath
trace_file = join (codes "/h/.afk/run") (codes "a.trace")

abbrev moment : Moment
moment = record { now = ok 1000; pid = 42 }

abbrev steps : List Turn
steps =
    runner_reports moment (event "runner_started")
    ∷ attaches moment
    ∷ attachment_reports moment (io_failure "attachment_poll_failed" (io_error broken_pipe))
    ∷ runner_reports moment (metric "child_exited" "exit_code" 3)
    ∷ detaches
    ∷ []

abbrev faults : List Fault
faults = proceed ∷ proceed ∷ fails 0 (io_error other) ∷ []

abbrev no_files : Files
no_files _ = none

traced_session-IsBounded_example :
    size ((traced_session 501 trace_file moment steps (disk no_files faults)).1.files trace_file)
    ≤ max_trace_bytes + others_limit steps
traced_session-IsBounded_example =
    traced_session-IsBounded 501 trace_file moment steps no_files faults refl (tt, (tt, (refl, tt)))
