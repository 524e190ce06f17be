-- ===== src/Runner/Attached/Candidates.antt =====
-- src/runner.rs: a candidate on its way to be the attachment.
use afk_cli.Prelude.{
  ℕ, ◌≡◌, refl, sym, List, [], ◌∷◌, Bool, true, false, none, some, is_some, ◌==◌, IoError, IoResult,
  String,
}
use afk_cli.Ipc.{Record, input, resize}
use afk_cli.Runner.State.{Connection, Host, AcceptOutcome, connected, accept_failed}
use afk_cli.Runner.Monad.{◌>>◌, trace_event, trace_io_error, record_attached}
use afk_cli.Runner.Connections.{
  resize_pty, apply_active_records, push_input, admit, is_would_block, accept_candidate,
}
use afk_cli.Runner.Loop.{set_active, set_candidate, activate}
use afk_cli.Runner.Ensures.{
  Keeps, Ensures-bind, Ensures-modify, Ensures-when, Ensures-record_attached, Keeps-bind, Keeps-seq,
  Keeps-when, Keeps-modify, Keeps-pure, Keeps-fail, Keeps-lift, Keeps-gets, Keeps-if,
  Keeps-trace_event, Keeps-trace_io_error,
}
use afk_cli.Runner.Attached.Covers.{IsHonest, Honours, honest}

-- A trace leaves the record honest.
pub says : (event : String) → Keeps IsHonest (trace_event event)
says event = Keeps-trace_event (λ s e h. h) event

pub says_error : (event : String) (e : IoError) → Keeps IsHonest (trace_io_error event e)
says_error event e = Keeps-trace_io_error (λ s e h. h) event e

admit-IsHonest :
    (host : Host) (stream : ℕ) (peer : IoResult ℕ) (nb : IoResult (Unit {0}))
    → Keeps IsHonest (admit host stream peer nb)
unfolding admit
admit-IsHonest host stream peer nb = Keeps-bind _ _ (Keeps-lift peer) λ uid.
    Keeps-if (uid == host.uid) _ _
      (Keeps-seq _ _ (Keeps-lift nb) (
        Keeps-bind _ _ (Keeps-gets _) λ replaced.
          Keeps-seq _ _ (Keeps-when replaced _ (says _))
            (Keeps-seq _ _ (says _) (Keeps-modify _ (λ s h. h)))))
      (says _)

pub accept_candidate-IsHonest :
    (host : Host) (os : List AcceptOutcome) → Keeps IsHonest (accept_candidate host os)
unfolding accept_candidate
accept_candidate-IsHonest host [] = Keeps-pure tt
accept_candidate-IsHonest host (connected stream peer nb ∷ os) =
    Keeps-seq _ _ (admit-IsHonest host stream peer nb) (accept_candidate-IsHonest host os)
accept_candidate-IsHonest host (accept_failed error ∷ os) =
    Keeps-if (is_would_block error.kind) _ _ (Keeps-pure tt) (Keeps-fail error)

pub drop_candidate-IsHonest : Keeps IsHonest (set_candidate none)
drop_candidate-IsHonest = Keeps-modify _ (λ s h. h)

resize_pty-IsHonest :
    (host : Host) (rows columns : ℕ) → Keeps IsHonest (resize_pty host rows columns)
unfolding resize_pty
resize_pty-IsHonest host rows columns =
    Keeps-bind _ _ (Keeps-lift _) (λ _. Keeps-modify _ (λ s h. h))

push_input-IsHonest : (bytes : List ℕ) → Keeps IsHonest (push_input bytes)
unfolding push_input
push_input-IsHonest bytes = record { at = λ s h. h }

apply_active_records-IsHonest :
    (host : Host) (rs : List Record) → Keeps IsHonest (apply_active_records host rs)
unfolding apply_active_records
apply_active_records-IsHonest host [] = Keeps-pure true
apply_active_records-IsHonest host (input bytes ∷ rs) =
    Keeps-bind (push_input bytes) _ (push_input-IsHonest bytes)
      (λ fits. Keeps-if fits _ _ (apply_active_records-IsHonest host rs) (Keeps-pure false))
apply_active_records-IsHonest host (resize rows columns ∷ rs) =
    Keeps-seq _ _ (resize_pty-IsHonest host rows columns) (apply_active_records-IsHonest host rs)
apply_active_records-IsHonest host (_ ∷ rs) = Keeps-pure false

-- The attachment is made first, and then recorded.
install-IsHonest :
    (host : Host) (c : Connection)
    → Honours IsHonest (set_active (some c) >> record_attached host true)
install-IsHonest host c =
    Ensures-bind {Q = λ _ s. is_some s.active ≡ true} _ _ (Ensures-modify _ (λ s h. refl))
      λ _. Ensures-record_attached host true (λ s h. sym h) (λ s _. tt)

pub activate-IsHonest :
    (host : Host) (rows columns : ℕ) (rest : List Record) (c : Connection)
    → Honours IsHonest (activate host rows columns rest c)
unfolding activate
activate-IsHonest host rows columns rest c =
    Ensures-bind {Q = λ _. IsHonest} _ _ (honest drop_candidate-IsHonest) λ _.
      Ensures-bind {Q = λ _. IsHonest} _ _ (honest (resize_pty-IsHonest host rows columns)) λ _.
        Ensures-bind {A = IoResult (Unit {0}) × Connection} {Q = λ _. IsHonest} _ _
          (honest (Keeps-gets _))
          λ r. Ensures-bind {Q = λ _. IsHonest} _ _ (honest (Keeps-lift r.0)) λ _.
            Ensures-bind {Q = λ _. IsHonest} _ _ (honest (apply_active_records-IsHonest host rest))
              λ accepted.
                Ensures-when accepted _
                  (λ _.
                    Ensures-bind {A = Bool} {Q = λ _. IsHonest} _ _ (honest (Keeps-gets _))
                      λ replaces.
                        Ensures-bind {Q = λ _. IsHonest} _ _
                          (honest (Keeps-when replaces _ (says _)))
                          λ _.
                            Ensures-bind {Q = λ _. IsHonest} _ _ (honest (says _))
                              λ _. install-IsHonest host r.1)
                  (λ _ s h. h)
