-- ===== src/Runner/Bounds/Candidates.antt =====
-- src/runner.rs: the bounds over a candidate, from its connection to its attachment.
use afk_cli.Prelude.{
  ℕ, List, [], ◌∷◌, true, Option, none, some, ◌==◌, ok, err, IoError, IoResult, arith,
}
use afk_cli.Ipc.{Record, attach, stop}
use afk_cli.OutputTail.{OutputTail, snapshot, truncation_marker}
use afk_cli.Runner.State.{
  Connection, new_connection, Runner, Host, AcceptOutcome, connected, accept_failed,
}
use afk_cli.Runner.Monad.{lift, modify}
use afk_cli.Runner.Connections.{
  enqueue_output, enqueue_replay, read_slot, admit, is_would_block, accept_candidate,
}
use afk_cli.Runner.Loop.{
  set_active, activate, take_candidate, apply_candidate_records, candidate_records, read_candidate,
}
use afk_cli.Runner.Ensures.{
  Ensures, Keeps, Outcome, Ensures-bind, Ensures-modify, Ensures-gets, Ensures-fact,
  Ensures-trace_io_error,
}
use afk_cli.Runner.Bounds.Parts.{
  Within, CandidateFits, ConnectionFits, StillReads, new_connection-CandidateFits,
  enqueue_output-ConnectionFits, read_records-StillReads,
}
use afk_cli.Runner.Bounds.Rules.{
  IsWithin, within_rules, IsWithin-pure, IsWithin-fail, IsWithin-lift, IsWithin-gets, IsWithin-if,
  IsWithin-bind, IsWithin-seq, IsWithin-when, IsWithin-record_attached, IsWithin-trace_event,
  IsWithin-drop_candidate, IsWithin-modify,
}
use afk_cli.Runner.Bounds.Phases.{apply_active_records-IsWithin, resize_pty-IsWithin}

install-IsWithin :
    (stream : ℕ)
    → Keeps IsWithin (modify (λ s. record s { candidate = some (new_connection stream) }))
install-IsWithin stream = IsWithin-modify _ (λ s h. record {
  tail_fits = h.tail_fits;
  input_fits = h.input_fits;
  active_fits = h.active_fits;
  candidate_fits = new_connection-CandidateFits stream;
})

admit-IsWithin :
    (host : Host) (stream : ℕ) (peer : IoResult ℕ) (nb : IoResult (Unit {0}))
    → Keeps IsWithin (admit host stream peer nb)
unfolding admit
admit-IsWithin host stream peer nb = IsWithin-bind (lift peer) _ (IsWithin-lift peer) (λ uid.
    IsWithin-if (uid == host.uid) _ _
      (IsWithin-seq _ _ (IsWithin-lift nb) (
        IsWithin-bind _ _ (IsWithin-gets _) λ replaced.
          IsWithin-seq _ _ (IsWithin-when replaced _ (IsWithin-trace_event _))
            (IsWithin-seq _ _ (IsWithin-trace_event _) (install-IsWithin stream))))
      (IsWithin-trace_event _))

pub accept_candidate-IsWithin :
    (host : Host) (os : List AcceptOutcome) → Keeps IsWithin (accept_candidate host os)
unfolding accept_candidate
accept_candidate-IsWithin host [] = search within_rules
accept_candidate-IsWithin host (connected stream peer nb ∷ os) =
    IsWithin-bind _ _ (admit-IsWithin host stream peer nb) (λ _. accept_candidate-IsWithin host os)
accept_candidate-IsWithin host (accept_failed error ∷ os) =
    IsWithin-if (is_would_block error.kind) _ _ (IsWithin-pure tt) (IsWithin-fail error)

replay-ConnectionFits :
    (c : Connection) (t : OutputTail) → ConnectionFits c → ConnectionFits (enqueue_replay c t).1
unfolding enqueue_replay
replay-ConnectionFits c t h =
    let marked = enqueue_output-ConnectionFits c truncation_marker h in
    ground (
      arith,
      marked,
      enqueue_output-ConnectionFits c (snapshot t) h,
      enqueue_output-ConnectionFits (enqueue_output c truncation_marker).1 (snapshot t) marked,
    )

candidate-ConnectionFits : (c : Connection) → CandidateFits (some c) → ConnectionFits c
candidate-ConnectionFits c h = ground (arith, h)

install_active-IsWithin : (c : Connection) → ConnectionFits c → Keeps IsWithin (set_active (some c))
install_active-IsWithin c fits = IsWithin-modify _ (λ s h. record {
  tail_fits = h.tail_fits;
  input_fits = h.input_fits;
  active_fits = fits;
  candidate_fits = h.candidate_fits;
})

activate-IsWithin :
    (host : Host) (rows columns : ℕ) (rest : List Record) (c : Connection)
    → CandidateFits (some c)
    → Keeps IsWithin (activate host rows columns rest c)
unfolding activate
activate-IsWithin host rows columns rest c fits = IsWithin-bind _ _ IsWithin-drop_candidate λ _.
    IsWithin-bind _ _ (resize_pty-IsWithin host rows columns) λ _.
      Ensures-bind {A = IoResult (Unit {0}) × Connection}
        {Q = λ r s. ConnectionFits r.1 × IsWithin s} _ _
        (Ensures-gets _
          (λ s h. (replay-ConnectionFits c s.tail (candidate-ConnectionFits c fits), h)))
        (λ r. Ensures-fact (λ fits'. IsWithin-bind _ _ (IsWithin-lift r.0) λ _.
          IsWithin-bind _ _ (apply_active_records-IsWithin host rest) λ accepted.
            IsWithin-when accepted _ (
              IsWithin-bind _ _ (IsWithin-gets _) λ replaces.
                IsWithin-seq _ _ (IsWithin-when replaces _ (IsWithin-trace_event _)) (
                  IsWithin-seq _ _ (IsWithin-trace_event _) (
                    IsWithin-seq _ _ (install_active-IsWithin r.1 fits')
                      (IsWithin-record_attached host true))))))

take_candidate-IsWithin :
    (host : Host) (rows columns : ℕ) (rest : List Record) (o : Option Connection)
    → CandidateFits o
    → Keeps IsWithin (take_candidate host rows columns rest o)
unfolding take_candidate
take_candidate-IsWithin host rows columns rest none fits = IsWithin-pure tt
take_candidate-IsWithin host rows columns rest (some c) fits =
    activate-IsWithin host rows columns rest c fits

apply_candidate_records-IsWithin :
    (host : Host) (rs : List Record) → Keeps IsWithin (apply_candidate_records host rs)
unfolding apply_candidate_records
apply_candidate_records-IsWithin host [] = IsWithin-pure tt
apply_candidate_records-IsWithin host (attach rows columns ∷ rest) = record {
  at = λ s h. (take_candidate-IsWithin host rows columns rest s.candidate h.candidate_fits).at s h;
}
apply_candidate_records-IsWithin host (stop ∷ []) =
    IsWithin-bind _ _ (IsWithin-trace_event _)
      λ _. IsWithin-bind _ _ IsWithin-drop_candidate λ _. IsWithin-modify _ (λ s h. h)
apply_candidate_records-IsWithin host (_ ∷ _) = search within_rules

-- Without its candidate the runner is within its bounds.
abbrev IsWithinBut : Runner → Type 0
IsWithinBut s = Within s.tail s.pty_input s.active none

candidate_failed-IsWithin :
    (host : Host) (e : IoError)
    → Ensures IsWithinBut (candidate_records host (err e)) (λ _. IsWithin) IsWithin
unfolding candidate_records
candidate_failed-IsWithin host e =
    Ensures-bind {Q = λ _. IsWithinBut} _ _ (Ensures-trace_io_error _ e (λ s h. h) (λ s _ h. h))
      (λ _. Ensures-modify _ (λ s h. h))

candidate_records-IsWithin :
    (host : Host) (rs : List Record) → Keeps IsWithin (candidate_records host (ok rs))
unfolding candidate_records
candidate_records-IsWithin host rs = apply_candidate_records-IsWithin host rs

candidate_slot-IsWithin :
    (host : Host) (r : IoResult (List Record)) (c c' : Connection) (s : Runner)
    → StillReads c r c'
    → CandidateFits (some c)
    → IsWithin s
    → Outcome
        (λ _. IsWithin)
        IsWithin
        (candidate_records host r (record s { candidate = some c' })).0
        (candidate_records host r (record s { candidate = some c' })).1
candidate_slot-IsWithin host (ok rs) c c' s reads fits h =
    (candidate_records-IsWithin host rs).at _ (record {
      tail_fits = h.tail_fits;
      input_fits = h.input_fits;
      active_fits = h.active_fits;
      candidate_fits = ground (arith, reads, fits);
    })
candidate_slot-IsWithin host (err e) c c' s reads fits h =
    (candidate_failed-IsWithin host e).at _ (record {
      tail_fits = h.tail_fits;
      input_fits = h.input_fits;
      active_fits = h.active_fits;
      candidate_fits = tt;
    })

read_candidate_at :
    (host : Host) (o : Option Connection) (s : Runner)
    → CandidateFits o
    → IsWithin s
    → let (r, slot) = read_slot host.candidate_read o in
      Outcome
        (λ _. IsWithin)
        IsWithin
        (candidate_records host r (record s { candidate = slot })).0
        (candidate_records host r (record s { candidate = slot })).1
read_candidate_at host none s fits h = (candidate_records-IsWithin host []).at _ (record {
  tail_fits = h.tail_fits;
  input_fits = h.input_fits;
  active_fits = h.active_fits;
  candidate_fits = tt;
})
read_candidate_at host (some c) s fits h =
    candidate_slot-IsWithin host _ c _ s (read_records-StillReads host.candidate_read c fits.1) fits
      h

pub read_candidate-IsWithin : (host : Host) → Keeps IsWithin (read_candidate host)
unfolding read_candidate
read_candidate-IsWithin host = record {
  at = λ s h. read_candidate_at host s.candidate s h.candidate_fits h;
}
