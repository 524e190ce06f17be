-- ===== src/Runner/Frame/Rounds.antt =====
-- src/runner.rs: the candidate, a round and the loop keep what survives.
use afk_cli.Prelude.{ℕ, List, [], ◌∷◌, true, Option, none, some, ◌==◌, ok, err, IoError, IoResult}
use afk_cli.Ipc.{Record, attach, stop}
use afk_cli.ByteQueue.{ByteQueue}
use afk_cli.OutputTail.{OutputTail}
use afk_cli.Runner.State.{
  Connection, Host, Effect, AcceptOutcome, connected, accept_failed, Events, poll_failed, polled,
  PollOutcome, ExitStatus,
}
use afk_cli.Runner.Monad.{Run}
use afk_cli.Runner.Connections.{admit, is_would_block, accept_candidate, read_slot}
use afk_cli.Runner.Loop.{
  Turn, exited, stopping, set_active, set_candidate, flush_result, drain_phase, flush_pty,
  pty_phase, flush_active, active_records, read_active, active_phase, activate, take_candidate,
  apply_candidate_records, candidate_records, read_candidate, candidate_phase, wants_read,
  is_interrupted, output_queued, serve, poll_phase, after_wait, tick, proceed, run_loop,
}
use afk_cli.Runner.Loop
use afk_cli.Runner.Ensures.{
  Keeps, Keeps-bind, Keeps-seq, Keeps-when, Keeps-modify, Keeps-pure, Keeps-fail, Keeps-lift,
  Keeps-gets, Keeps-if,
}
use afk_cli.Runner.Frame.{Survives}
use afk_cli.Runner.Frame.Phases.{
  Holds, says, says_error, records, drain_phase-Holds, drop_candidate-Holds, pty_phase-Holds,
  resize_pty-Holds, apply_active_records-Holds, active_phase-Holds,
}

module _ (P : OutputTail → ByteQueue → List Effect → Type 0) (survives : Survives P) where
  admit-Holds :
      (host : Host) (stream : ℕ) (peer : IoResult ℕ) (nb : IoResult (Unit {0}))
      → Keeps (Holds P) (admit host stream peer nb)
  unfolding admit
  admit-Holds host stream peer nb = Keeps-bind _ _ (Keeps-lift peer) λ uid.
      Keeps-if (uid == host.uid) _ _
        (Keeps-seq _ _ (Keeps-lift nb) (
          Keeps-bind _ _ (Keeps-gets _) λ replaced.
            Keeps-seq _ _ (Keeps-when replaced _ (says P survives _))
              (Keeps-seq _ _ (says P survives _) (Keeps-modify _ (λ s h. h)))))
        (says P survives _)

  accept_candidate-Holds :
      (host : Host) (os : List AcceptOutcome) → Keeps (Holds P) (accept_candidate host os)
  unfolding accept_candidate
  accept_candidate-Holds host [] = Keeps-pure tt
  accept_candidate-Holds host (connected stream peer nb ∷ os) =
      Keeps-seq _ _ (admit-Holds host stream peer nb) (accept_candidate-Holds host os)
  accept_candidate-Holds host (accept_failed error ∷ os) =
      Keeps-if (is_would_block error.kind) _ _ (Keeps-pure tt) (Keeps-fail error)

  activate-Holds :
      (host : Host) (rows columns : ℕ) (rest : List Record) (c : Connection)
      → Keeps (Holds P) (activate host rows columns rest c)
  unfolding activate
  activate-Holds host rows columns rest c = Keeps-seq _ _ (drop_candidate-Holds P survives) (
      Keeps-seq _ _ (resize_pty-Holds P survives host rows columns) (
        Keeps-bind _ _ (Keeps-gets _) λ r. Keeps-seq _ _ (Keeps-lift r.0) (
          Keeps-bind _ _ (apply_active_records-Holds P survives host rest) λ accepted.
            Keeps-when accepted _ (
              Keeps-bind _ _ (Keeps-gets _) λ replaces.
                Keeps-seq _ _ (Keeps-when replaces _ (says P survives _)) (
                  Keeps-seq _ _ (says P survives _)
                    (Keeps-seq _ _ (Keeps-modify _ (λ s h. h)) (records P survives host true)))))))

  take_candidate-Holds :
      (host : Host) (rows columns : ℕ) (rest : List Record) (o : Option Connection)
      → Keeps (Holds P) (take_candidate host rows columns rest o)
  unfolding take_candidate
  take_candidate-Holds host rows columns rest none = Keeps-pure tt
  take_candidate-Holds host rows columns rest (some c) = activate-Holds host rows columns rest c

  apply_candidate_records-Holds :
      (host : Host) (rs : List Record) → Keeps (Holds P) (apply_candidate_records host rs)
  unfolding apply_candidate_records
  apply_candidate_records-Holds host [] = Keeps-pure tt
  apply_candidate_records-Holds host (attach rows columns ∷ rest) = record {
    at = λ s h. (take_candidate-Holds host rows columns rest s.candidate).at s h;
  }
  apply_candidate_records-Holds host (stop ∷ []) =
      Keeps-seq _ _ (says P survives _)
        (Keeps-seq _ _ (drop_candidate-Holds P survives) (Keeps-modify _ (λ s h. h)))
  apply_candidate_records-Holds host (_ ∷ _) =
      Keeps-seq _ _ (says P survives _) (drop_candidate-Holds P survives)

  candidate_records-Holds :
      (host : Host) (r : IoResult (List Record)) → Keeps (Holds P) (candidate_records host r)
  unfolding candidate_records
  candidate_records-Holds host (ok rs) = apply_candidate_records-Holds host rs
  candidate_records-Holds host (err e) =
      Keeps-seq _ _ (says_error P survives _ e) (drop_candidate-Holds P survives)

  read_candidate-Holds : (host : Host) → Keeps (Holds P) (read_candidate host)
  unfolding read_candidate
  read_candidate-Holds host = record {
    at = λ s h. (candidate_records-Holds host (read_slot host.candidate_read s.candidate).0).at _ h;
  }

  serve-Holds :
      (host : Host) (master listener candidate active : Events)
      → Keeps (Holds P) (serve host master listener candidate active)
  unfolding serve
  serve-Holds host master listener candidate active = Keeps-bind _ _ (Keeps-gets _) λ had.
      Keeps-bind _ _ (Keeps-gets _) λ had_candidate. Keeps-bind _ _ (Keeps-gets _) λ writable.
        Keeps-seq _ _ (pty_phase-Holds P survives host master) (
          Keeps-seq _ _ (Keeps-when had _ (active_phase-Holds P survives host writable active)) (
            Keeps-seq _ _
              (Keeps-when listener.readable _ (accept_candidate-Holds host host.accepts))
              (Keeps-seq _ _
                (Keeps-when had_candidate _
                  (Keeps-when (wants_read candidate) _ (read_candidate-Holds host)))
                (Keeps-gets _))))

  poll_failed-Holds :
      (host : Host) (e : IoError) → Keeps (Holds P) (poll_phase host (poll_failed e))
  unfolding poll_phase
  poll_failed-Holds host e =
      Keeps-if (is_interrupted e.kind) _ _ (Keeps-pure Loop.again)
        (Keeps-seq _ _ (says_error P survives _ e) (Keeps-fail e))

  poll_phase-Holds : (host : Host) (p : PollOutcome) → Keeps (Holds P) (poll_phase host p)
  unfolding poll_phase
  poll_phase-Holds host (polled master listener candidate active) =
      serve-Holds host master listener candidate active
  poll_phase-Holds host (poll_failed e) = poll_failed-Holds host e

  after_wait-Holds : (host : Host) (o : Option ExitStatus) → Keeps (Holds P) (after_wait host o)
  unfolding after_wait
  after_wait-Holds host none = poll_phase-Holds host host.poll
  after_wait-Holds host (some status) =
      Keeps-seq _ _ (says P survives _) (Keeps-pure (exited status))

  tick-Holds : (host : Host) → Keeps (Holds P) (tick host)
  unfolding tick
  tick-Holds host =
      Keeps-seq _ _ (drain_phase-Holds P survives host)
        (Keeps-bind _ _ (Keeps-lift host.try_wait) (after_wait-Holds host))

  proceed-Holds :
      (more : Run Turn) (turn : Turn) → Keeps (Holds P) more → Keeps (Holds P) (proceed more turn)
  unfolding proceed
  proceed-Holds more Loop.again h = h
  proceed-Holds more (exited status) h = Keeps-pure (exited status)
  proceed-Holds more stopping h = Keeps-pure stopping

  pub run_loop-Holds : (hosts : List Host) → Keeps (Holds P) (run_loop hosts)
  unfolding run_loop
  run_loop-Holds [] = Keeps-pure Loop.again
  run_loop-Holds (host ∷ hosts) =
      Keeps-bind _ _ (tick-Holds host) (λ turn. proceed-Holds _ turn (run_loop-Holds hosts))
