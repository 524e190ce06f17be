-- ===== src/Runner/Bounds/Rounds.antt =====
-- src/runner.rs: the bounds over a round and over the loop.
use afk_cli.Prelude.{List, [], ◌∷◌, Bool, Option, none, some, IoError, arith}
use afk_cli.Runner.State.{start, Host, Events, poll_failed, polled, PollOutcome, ExitStatus}
use afk_cli.Runner.Monad.{Run}
use afk_cli.Runner.Loop.{
  Turn, again, exited, stopping, is_interrupted, serve, poll_phase, after_wait, tick, proceed,
  run_loop,
}
use afk_cli.Runner.Ensures.{Keeps, Keeps-after}
use afk_cli.Runner.Bounds.Rules.{
  IsWithin, within_rules, IsWithin-pure, IsWithin-fail, IsWithin-if, IsWithin-bind, IsWithin-seq,
  IsWithin-trace_io_error,
}
use afk_cli.Runner.Bounds.Phases.{drain_phase-IsWithin, pty_phase-IsWithin, active_phase-IsWithin}
use afk_cli.Runner.Bounds.Candidates.{accept_candidate-IsWithin, read_candidate-IsWithin}

serve-IsWithin :
    (host : Host) (master listener candidate active : Events)
    → Keeps IsWithin (serve host master listener candidate active)
unfolding serve
serve-IsWithin host master listener candidate active =
    search
      (
        within_rules, pty_phase-IsWithin, active_phase-IsWithin, accept_candidate-IsWithin,
        read_candidate-IsWithin,
      )
      depth 14

poll_failed-IsWithin :
    (host : Host) (e : IoError) → Keeps IsWithin (poll_phase host (poll_failed e))
unfolding poll_phase
poll_failed-IsWithin host e =
    IsWithin-if (is_interrupted e.kind) _ _ (IsWithin-pure again)
      (IsWithin-seq _ _ (IsWithin-trace_io_error _ e) (IsWithin-fail e))

poll_phase-IsWithin : (host : Host) (p : PollOutcome) → Keeps IsWithin (poll_phase host p)
unfolding poll_phase
poll_phase-IsWithin host (polled master listener candidate active) =
    serve-IsWithin host master listener candidate active
poll_phase-IsWithin host (poll_failed e) = poll_failed-IsWithin host e

after_wait-IsWithin : (host : Host) (o : Option ExitStatus) → Keeps IsWithin (after_wait host o)
unfolding after_wait
after_wait-IsWithin host none = poll_phase-IsWithin host host.poll
after_wait-IsWithin host (some status) = search within_rules

-- A round, whether it succeeds or fails, keeps every buffer within its limit.
pub tick-IsWithin : (host : Host) → Keeps IsWithin (tick host)
unfolding tick
tick-IsWithin host = search (within_rules, drain_phase-IsWithin, after_wait-IsWithin) depth 9

pub start-IsWithin : (tracing : Bool) → IsWithin (start tracing)
start-IsWithin tracing = record {
  tail_fits = omega arith;
  input_fits = omega arith;
  active_fits = tt;
  candidate_fits = tt;
}

proceed-IsWithin :
    (more : Run Turn) (turn : Turn) → Keeps IsWithin more → Keeps IsWithin (proceed more turn)
unfolding proceed
proceed-IsWithin more again h = h
proceed-IsWithin more (exited status) h = IsWithin-pure (exited status)
proceed-IsWithin more stopping h = IsWithin-pure stopping

run_loop-IsWithin' : (hosts : List Host) → Keeps IsWithin (run_loop hosts)
unfolding run_loop
run_loop-IsWithin' [] = IsWithin-pure again
run_loop-IsWithin' (host ∷ hosts) =
    IsWithin-bind _ _ (tick-IsWithin host)
      (λ turn. proceed-IsWithin _ turn (run_loop-IsWithin' hosts))

-- From its start, over any rounds and whatever the peers, the child and the system do in them, the
-- runner holds no more than its limits: the tail, the input queue, the queue of the attachment, and
-- less than one record in each decoder; nothing is queued for a candidate.
pub run_loop-IsWithin :
    (tracing : Bool) (hosts : List Host) → IsWithin (run_loop hosts (start tracing)).1
run_loop-IsWithin tracing hosts = Keeps-after (run_loop-IsWithin' hosts) (start-IsWithin tracing)
