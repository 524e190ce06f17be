-- ===== src/Runner/Attached/Rounds.antt =====
-- src/runner.rs: the session's record after a round and after the loop.
use afk_cli.Prelude.{
  ℕ, ◌≡◌, refl, List, [], ◌∷◌, Bool, Option, none, some, ok, err, IoError, IoResult, arith,
}
use afk_cli.Ipc.{Record, attach, stop}
use afk_cli.Runner.State.{
  Connection, Runner, start, Host, Events, poll_failed, polled, PollOutcome, ExitStatus,
}
use afk_cli.Runner.Monad.{Run, ◌>>◌, when, trace_event}
use afk_cli.Runner.Connections.{read_slot}
use afk_cli.Runner.Loop.{
  Turn, again, exited, stopping, set_candidate, take_candidate, apply_candidate_records,
  candidate_records, read_candidate, wants_read, candidate_phase, is_interrupted, serve, poll_phase,
  after_wait, tick, proceed, run_loop,
}
use afk_cli.Runner.Ensures.{
  Outcome, Ensures-bind, Ensures-gets, Ensures-when, Keeps-seq, Keeps-when, Keeps-modify,
  Keeps-pure, Keeps-fail, Keeps-lift, Keeps-gets, Keeps-if,
}
use afk_cli.Runner.Attached.Covers.{
  IsHonest, Covers, Anything, Honours, covers, honest, pty_phase-Covers,
}
use afk_cli.Runner.Attached.Phases.{drain_phase-IsHonest, had_active-IsHonest}
use afk_cli.Runner.Attached.Candidates.{
  says, says_error, accept_candidate-IsHonest, drop_candidate-IsHonest, activate-IsHonest,
}

take_candidate-IsHonest :
    (host : Host) (rows columns : ℕ) (rest : List Record) (o : Option Connection)
    → Honours IsHonest (take_candidate host rows columns rest o)
unfolding take_candidate
take_candidate-IsHonest host rows columns rest none = honest (Keeps-pure tt)
take_candidate-IsHonest host rows columns rest (some c) = activate-IsHonest host rows columns rest c

reject-IsHonest : Honours IsHonest (trace_event "candidate_rejected" >> set_candidate none)
reject-IsHonest = honest (Keeps-seq _ _ (says _) drop_candidate-IsHonest)

apply_candidate_records-IsHonest :
    (host : Host) (rs : List Record) → Honours IsHonest (apply_candidate_records host rs)
unfolding apply_candidate_records
apply_candidate_records-IsHonest host [] = honest (Keeps-pure tt)
apply_candidate_records-IsHonest host (attach rows columns ∷ rest) = record {
  at = λ s h. (take_candidate-IsHonest host rows columns rest s.candidate).at s h;
}
apply_candidate_records-IsHonest host (stop ∷ []) =
    honest
      (Keeps-seq _ _ (says _) (Keeps-seq _ _ drop_candidate-IsHonest (Keeps-modify _ (λ s h. h))))
apply_candidate_records-IsHonest host (_ ∷ _) = reject-IsHonest

candidate_records-IsHonest :
    (host : Host) (r : IoResult (List Record)) → Honours IsHonest (candidate_records host r)
unfolding candidate_records
candidate_records-IsHonest host (ok rs) = apply_candidate_records-IsHonest host rs
candidate_records-IsHonest host (err e) =
    honest (Keeps-seq _ _ (says_error _ e) drop_candidate-IsHonest)

read_candidate-IsHonest : (host : Host) → Honours IsHonest (read_candidate host)
unfolding read_candidate
read_candidate-IsHonest host = record {
  at =
      λ s h. (candidate_records-IsHonest host (read_slot host.candidate_read s.candidate).0).at _ h;
}

candidate_phase-IsHonest :
    (host : Host) (had : Bool) (e : Events) → Honours IsHonest (when had (candidate_phase host e))
candidate_phase-IsHonest host had e =
    Ensures-when had _
      (λ _. Ensures-when (wants_read e) _ (λ _. read_candidate-IsHonest host) (λ _ s h. h))
      (λ _ s h. h)

serve-IsHonest :
    (host : Host) (master listener candidate active : Events)
    → Honours IsHonest (serve host master listener candidate active)
unfolding serve
serve-IsHonest host master listener candidate active =
    Ensures-bind {A = Bool} {Q = λ had. Covers had} _ _ (Ensures-gets _ (λ s h. (h, λ e. e))) λ had.
      Ensures-bind {A = Bool} {Q = λ _. Covers had} _ _ (covers had (Keeps-gets _)) λ had_candidate.
        Ensures-bind {A = Bool} {Q = λ _. Covers had} _ _ (covers had (Keeps-gets _)) λ writable.
          Ensures-bind {Q = λ _. Covers had} _ _ (covers had (pty_phase-Covers had host master))
            λ _.
              Ensures-bind {Q = λ _. IsHonest} _ _ (had_active-IsHonest host had writable active)
                λ _.
                  Ensures-bind {Q = λ _. IsHonest} _ _
                    (honest (
                      Keeps-when listener.readable _ (accept_candidate-IsHonest host host.accepts)))
                    λ _.
                      Ensures-bind {Q = λ _. IsHonest} _ _
                        (candidate_phase-IsHonest host had_candidate candidate)
                        λ _. honest (Keeps-gets _)

poll_failed-IsHonest :
    (host : Host) (e : IoError) → Honours IsHonest (poll_phase host (poll_failed e))
unfolding poll_phase
poll_failed-IsHonest host e = honest (
    Keeps-if (is_interrupted e.kind) _ _ (Keeps-pure again)
      (Keeps-seq _ _ (says_error _ e) (Keeps-fail e)))

poll_phase-IsHonest : (host : Host) (p : PollOutcome) → Honours IsHonest (poll_phase host p)
unfolding poll_phase
poll_phase-IsHonest host (polled master listener candidate active) =
    serve-IsHonest host master listener candidate active
poll_phase-IsHonest host (poll_failed e) = poll_failed-IsHonest host e

after_wait-IsHonest : (host : Host) (o : Option ExitStatus) → Honours IsHonest (after_wait host o)
unfolding after_wait
after_wait-IsHonest host none = poll_phase-IsHonest host host.poll
after_wait-IsHonest host (some status) =
    honest (Keeps-seq _ _ (says _) (Keeps-pure (exited status)))

-- A round that does not fail leaves the record honest.
pub tick-IsHonest : (host : Host) → Honours IsHonest (tick host)
unfolding tick
tick-IsHonest host = Ensures-bind {Q = λ _. IsHonest} _ _ (drain_phase-IsHonest host) λ _.
    Ensures-bind {A = Option ExitStatus} {Q = λ _. IsHonest} _ _ (honest (Keeps-lift host.try_wait))
      λ status. after_wait-IsHonest host status

proceed-IsHonest :
    (more : Run Turn) (turn : Turn) → Honours IsHonest more → Honours IsHonest (proceed more turn)
unfolding proceed
proceed-IsHonest more again h = h
proceed-IsHonest more (exited status) h = honest (Keeps-pure (exited status))
proceed-IsHonest more stopping h = honest (Keeps-pure stopping)

run_loop-IsHonest' : (hosts : List Host) → Honours IsHonest (run_loop hosts)
unfolding run_loop
run_loop-IsHonest' [] = honest (Keeps-pure again)
run_loop-IsHonest' (host ∷ hosts) =
    Ensures-bind {A = Turn} {Q = λ _. IsHonest} _ _ (tick-IsHonest host)
      (λ turn. proceed-IsHonest _ turn (run_loop-IsHonest' hosts))

Outcome-ok :
    (r : IoResult Turn) (s : Runner) (turn : Turn)
    → Outcome (λ _. IsHonest) Anything r s
    → r ≡ ok turn
    → IsHonest s
Outcome-ok (ok _) s turn o e = o
Outcome-ok (err _) s turn o e = ground arith

-- Where the rounds so far did not fail, the `attached` field of the session's record is true exactly
-- if there is an attachment.
pub run_loop-IsHonest :
    (tracing : Bool) (hosts : List Host) (turn : Turn)
    → (run_loop hosts (start tracing)).0 ≡ ok turn
    → IsHonest (run_loop hosts (start tracing)).1
run_loop-IsHonest tracing hosts turn e =
    Outcome-ok _ _ turn ((run_loop-IsHonest' hosts).at (start tracing) refl) e
