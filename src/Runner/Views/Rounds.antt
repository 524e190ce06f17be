-- ===== src/Runner/Views/Rounds.antt =====
-- src/runner.rs: what an attachment is shown, after a round and after the loop.
use afk_cli.Prelude.{
  ℕ, ◌≡◌, refl, ap, ◌∙◌, List, [], ◌∷◌, Bool, Option, none, some, ok, err, IoError, IoResult, arith,
}
use afk_cli.Ipc.{Record, attach, stop}
use afk_cli.Runner.State.{
  Connection, Runner, start, Host, Events, poll_failed, polled, PollOutcome, ExitStatus,
  ReadOutcome,
}
use afk_cli.Runner.Monad.{Run, ◌>>◌, when, trace_event}
use afk_cli.Runner.Connections.{read_slot}
use afk_cli.Runner.Loop.{
  Turn, again, exited, stopping, set_candidate, take_candidate, apply_candidate_records,
  candidate_records, read_candidate, wants_read, candidate_phase, is_interrupted, serve, poll_phase,
  after_wait, tick, proceed, run_loop,
}
use afk_cli.Runner.Ensures.{
  Outcome, Ensures, Ensures-map, Ensures-bind, Ensures-gets, Ensures-when, Keeps-seq, Keeps-when,
  Keeps-modify, Keeps-pure, Keeps-fail, Keeps-lift, Keeps-gets, Keeps-if,
}
use afk_cli.Limits.{output_tail_bytes}
use afk_cli.OutputTail.Suffix.{empty-IsTailOf}
use afk_cli.Runner.Views.Lasting.{trace-Keeps, trace_error-Keeps}
use afk_cli.Runner.Views.Seen.{Attends, IsUnheard, Sees, Sees-Lasts, Seen-candidate}
use afk_cli.Runner.Views.Phases.{
  drain_phase-Sees, had_active-Sees, pty_phase-Sees, read_records-output,
}
use afk_cli.Runner.Views.Candidates.{
  Anything, Serves, serves, accept_candidate-Sees, drop_candidate-Sees, activate-Sees,
}

take_candidate-Sees :
    (host : Host) (rows columns : ℕ) (rest : List Record) (o : Option Connection)
    → Ensures
        (λ s. IsUnheard o × Sees s)
        (take_candidate host rows columns rest o)
        (λ _. Sees)
        Anything
unfolding take_candidate
take_candidate-Sees host rows columns rest none =
    Ensures-map (λ s h. h.1) (λ _ s h. h) (λ s _. tt) (Keeps-pure tt)
take_candidate-Sees host rows columns rest (some c) = activate-Sees host rows columns rest c

reject-Sees : Serves (trace_event "candidate_rejected" >> set_candidate none)
reject-Sees = serves (Keeps-seq _ _ (trace-Keeps Sees-Lasts _) drop_candidate-Sees)

apply_candidate_records-Sees :
    (host : Host) (rs : List Record) → Serves (apply_candidate_records host rs)
unfolding apply_candidate_records
apply_candidate_records-Sees host [] = serves (Keeps-pure tt)
apply_candidate_records-Sees host (attach rows columns ∷ rest) = record {
  at = λ s h. (take_candidate-Sees host rows columns rest s.candidate).at s (h.unheard, h);
}
apply_candidate_records-Sees host (stop ∷ []) = serves (
    Keeps-seq _ _ (trace-Keeps Sees-Lasts _) (
      Keeps-seq _ _ drop_candidate-Sees (
        Keeps-modify _ (λ s h. record {
          same_capacity = h.same_capacity;
          tail_of = h.tail_of;
          unheard = h.unheard;
          attends = h.attends;
        }))))
apply_candidate_records-Sees host (_ ∷ _) = reject-Sees

candidate_records-Sees :
    (host : Host) (r : IoResult (List Record)) → Serves (candidate_records host r)
unfolding candidate_records
candidate_records-Sees host (ok rs) = apply_candidate_records-Sees host rs
candidate_records-Sees host (err e) =
    serves (Keeps-seq _ _ (trace_error-Keeps Sees-Lasts _ e) drop_candidate-Sees)

read_slot-IsUnheard :
    (o : ReadOutcome) (a : Option Connection) → IsUnheard a → IsUnheard (read_slot o a).1
read_slot-IsUnheard o none h = tt
read_slot-IsUnheard o (some c) h = ap (λ q. q.bytes) (read_records-output o c) ∙ h

read_candidate-Sees : (host : Host) → Serves (read_candidate host)
unfolding read_candidate
read_candidate-Sees host = record {
  at = λ s h.
      (candidate_records-Sees host (read_slot host.candidate_read s.candidate).0).at _
        (Seen-candidate (read_slot-IsUnheard host.candidate_read s.candidate h.unheard) h);
}

candidate_phase-Sees :
    (host : Host) (had : Bool) (e : Events) → Serves (when had (candidate_phase host e))
candidate_phase-Sees host had e =
    Ensures-when had _
      (λ _. Ensures-when (wants_read e) _ (λ _. read_candidate-Sees host) (λ _ s h. h)) (λ _ s h. h)

serve-Sees :
    (host : Host) (master listener candidate active : Events)
    → Serves (serve host master listener candidate active)
unfolding serve
serve-Sees host master listener candidate active =
    Ensures-bind {A = Bool} {Q = λ _. Sees} _ _ (Ensures-gets _ (λ s h. h)) λ had.
      Ensures-bind {A = Bool} {Q = λ _. Sees} _ _ (serves (Keeps-gets _)) λ had_candidate.
        Ensures-bind {A = Bool} {Q = λ _. Sees} _ _ (serves (Keeps-gets _)) λ writable.
          Ensures-bind {Q = λ _. Sees} _ _ (serves (pty_phase-Sees host master)) λ _.
            Ensures-bind {Q = λ _. Sees} _ _ (serves (had_active-Sees host had writable active))
              λ _.
                Ensures-bind {Q = λ _. Sees} _ _
                  (serves
                    (Keeps-when listener.readable _ (accept_candidate-Sees host host.accepts)))
                  λ _.
                    Ensures-bind {Q = λ _. Sees} _ _
                      (candidate_phase-Sees host had_candidate candidate) λ _. serves (Keeps-gets _)

poll_failed-Sees : (host : Host) (e : IoError) → Serves (poll_phase host (poll_failed e))
unfolding poll_phase
poll_failed-Sees host e = serves (
    Keeps-if (is_interrupted e.kind) _ _ (Keeps-pure again)
      (Keeps-seq _ _ (trace_error-Keeps Sees-Lasts _ e) (Keeps-fail e)))

poll_phase-Sees : (host : Host) (p : PollOutcome) → Serves (poll_phase host p)
unfolding poll_phase
poll_phase-Sees host (polled master listener candidate active) =
    serve-Sees host master listener candidate active
poll_phase-Sees host (poll_failed e) = poll_failed-Sees host e

after_wait-Sees : (host : Host) (o : Option ExitStatus) → Serves (after_wait host o)
unfolding after_wait
after_wait-Sees host none = poll_phase-Sees host host.poll
after_wait-Sees host (some status) =
    serves (Keeps-seq _ _ (trace-Keeps Sees-Lasts _) (Keeps-pure (exited status)))

-- A round that does not fail leaves the record honest.
pub tick-Sees : (host : Host) → Serves (tick host)
unfolding tick
tick-Sees host = Ensures-bind {Q = λ _. Sees} _ _ (serves (drain_phase-Sees host)) λ _.
    Ensures-bind {A = Option ExitStatus} {Q = λ _. Sees} _ _ (serves (Keeps-lift host.try_wait))
      λ status. after_wait-Sees host status

proceed-Sees : (more : Run Turn) (turn : Turn) → Serves more → Serves (proceed more turn)
unfolding proceed
proceed-Sees more again h = h
proceed-Sees more (exited status) h = serves (Keeps-pure (exited status))
proceed-Sees more stopping h = serves (Keeps-pure stopping)

run_loop-Sees' : (hosts : List Host) → Serves (run_loop hosts)
unfolding run_loop
run_loop-Sees' [] = serves (Keeps-pure again)
run_loop-Sees' (host ∷ hosts) =
    Ensures-bind {A = Turn} {Q = λ _. Sees} _ _ (tick-Sees host)
      (λ turn. proceed-Sees _ turn (run_loop-Sees' hosts))

Outcome-ok :
    (r : IoResult Turn) (s : Runner) (turn : Turn)
    → Outcome (λ _. Sees) Anything r s
    → r ≡ ok turn
    → Sees s
Outcome-ok (ok _) s turn o e = o
Outcome-ok (err _) s turn o e = ground arith

start-Sees : (tracing : Bool) → Sees (start tracing)
start-Sees tracing = record {
  same_capacity = refl;
  tail_of = empty-IsTailOf output_tail_bytes;
  unheard = tt;
  attends = tt;
}

-- Where the rounds so far did not fail, what an attachment has been sent and what is queued for it are
-- together the encodings of `Output` records and of nothing else; the payloads of these are what the
-- terminal had printed before it attached, as far as the last 256 KiB go and behind the note on
-- truncation if there was more, and then everything printed since, once and in order.
pub run_loop-Attends :
    (tracing : Bool) (hosts : List Host) (turn : Turn)
    → (run_loop hosts (start tracing)).0 ≡ ok turn
    → Attends (run_loop hosts (start tracing)).1.active (run_loop hosts (start tracing)).1.effects
run_loop-Attends tracing hosts turn e =
    (Outcome-ok _ _ turn ((run_loop-Sees' hosts).at (start tracing) (start-Sees tracing)) e).attends
