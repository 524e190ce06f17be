-- ===== src/Runner/Views/Candidates.antt =====
-- src/runner.rs: a candidate that becomes the attachment, behind its replay.
use afk_cli.Prelude.{ℕ, ◌≡◌, refl, List, [], ◌∷◌, Bool, true, none, some, ◌==◌, ok, IoResult}
use afk_cli.Ipc.{Record}
use afk_cli.Runner.State.{
  Connection, Runner, Host, AcceptOutcome, connected, accept_failed, recorded,
}
use afk_cli.Runner.Monad.{Run, ◌>>◌, record_attached}
use afk_cli.Runner.Connections.{admit, is_would_block, accept_candidate}
use afk_cli.Runner.Loop.{set_active, set_candidate, activate}
use afk_cli.Runner.Ensures.{
  Ensures, Keeps, Ensures-bind, Ensures-gets, Ensures-lift, Ensures-map, Ensures-modify,
  Ensures-when, Ensures-record_attached, Keeps-bind, Keeps-seq, Keeps-when, Keeps-modify,
  Keeps-pure, Keeps-fail, Keeps-lift, Keeps-gets, Keeps-if,
}
use afk_cli.Runner.Views.Lasting.{Lasts, trace-Keeps, resize_pty-Keeps, apply_active_records-Keeps}
use afk_cli.Runner.Views.Seen.{Sees, Seen, Seen-none, Seen-candidate, Seen-effect, Sees-Lasts}
use afk_cli.Runner.Views.Replays.{
  Ready, ready, enqueue_replay-bytes, Primed, Primed-Lasts, Ready-Attended,
}

admit-Sees :
    (host : Host) (stream : ℕ) (peer : IoResult ℕ) (nb : IoResult (Unit {0}))
    → Keeps Sees (admit host stream peer nb)
unfolding admit
admit-Sees host stream peer nb = Keeps-bind _ _ (Keeps-lift peer) λ uid.
    Keeps-if (uid == host.uid) _ _
      (Keeps-seq _ _ (Keeps-lift nb) (
        Keeps-bind _ _ (Keeps-gets _) λ replaced.
          Keeps-seq _ _ (Keeps-when replaced _ (trace-Keeps Sees-Lasts _)) (
            Keeps-seq _ _ (trace-Keeps Sees-Lasts _)
              (Keeps-modify _ (λ s h. Seen-candidate refl h)))))
      (trace-Keeps Sees-Lasts _)

pub accept_candidate-Sees :
    (host : Host) (os : List AcceptOutcome) → Keeps Sees (accept_candidate host os)
unfolding accept_candidate
accept_candidate-Sees host [] = Keeps-pure tt
accept_candidate-Sees host (connected stream peer nb ∷ os) =
    Keeps-seq _ _ (admit-Sees host stream peer nb) (accept_candidate-Sees host os)
accept_candidate-Sees host (accept_failed error ∷ os) =
    Keeps-if (is_would_block error.kind) _ _ (Keeps-pure tt) (Keeps-fail error)

pub drop_candidate-Sees : Keeps Sees (set_candidate none)
drop_candidate-Sees = Keeps-modify _ (λ s h. Seen-candidate tt h)

-- A success leaves every attachment served.
abbrev pub Anything : Runner → Type 0
Anything s = Unit {0}

at_first :
    {A : Type 0} {P : Runner → Type 0} {m : Run A} → Keeps P m → Ensures P m (λ _. P) Anything
at_first h = Ensures-map (λ s p. p) (λ a s q. q) (λ s _. tt) h

abbrev pub Serves : {A : Type 0} → Run A → Type 0
Serves m = Ensures Sees m (λ _. Sees) Anything

pub serves : {A : Type 0} {m : Run A} → Keeps Sees m → Serves m
serves h = at_first h

abbrev Installed : Connection → Runner → Type 0
Installed c s =
    (s.active ≡ some c) × (Ready c.output.bytes s.effects × Seen s.tail none s.candidate s.effects)

install-Sees :
    (host : Host) (c : Connection)
    → Ensures (Primed c) (set_active (some c) >> record_attached host true) (λ _. Sees) Anything
install-Sees host c =
    Ensures-bind {Q = λ _. Installed c} _ _ (Ensures-modify _ (λ s h. (refl, (h.0, Seen-none h.1))))
      λ _.
        Ensures-record_attached host true
          (λ s h.
            rw h.0 (Seen-effect (recorded true) refl (Ready-Attended c s.effects h.1.0) h.1.1))
          (λ s _. tt)

abbrev Unheard : Connection → Runner → Type 0
Unheard c s = (c.output.bytes ≡ []) × Sees s

Unheard-Lasts : (c : Connection) → Lasts (Unheard c)
Unheard-Lasts c = record {
  emits = λ s e n h. (h.0, Sees-Lasts.emits s e n h.1);
  queues = λ s q h. (h.0, Sees-Lasts.queues s q h.1);
}

-- A candidate that succeeds to attach has been queued its replay.
pub activate-Sees :
    (host : Host) (rows columns : ℕ) (rest : List Record) (c : Connection)
    → Ensures
        (λ s. (c.output.bytes ≡ []) × Sees s)
        (activate host rows columns rest c)
        (λ _. Sees)
        Anything
unfolding activate
activate-Sees host rows columns rest c =
    Ensures-bind {Q = λ _. Unheard c} _ _ (Ensures-modify _ (λ s h. (h.0, Seen-candidate tt h.1)))
      λ _.
        Ensures-bind {Q = λ _. Unheard c} _ _
          (at_first (resize_pty-Keeps (Unheard-Lasts c) host rows columns))
          λ _.
            Ensures-bind {A = IoResult (Unit {0}) × Connection}
              {Q = λ r s. (r.0 ≡ ok tt → Ready r.1.output.bytes s.effects) × Sees s} _ _
              (Ensures-gets _ (λ s h. (
                λ e.
                    ready c s.tail s.effects h.1.same_capacity h.1.tail_of _
                      (enqueue_replay-bytes c s.tail h.0 e),
                h.1,
              )))
              λ r.
                Ensures-bind {Q = λ _. Primed r.1} _ _
                  (Ensures-lift r.0 (λ u s e h. (h.0 e, h.1)) (λ s _. tt))
                  λ _.
                    Ensures-bind {Q = λ _. Primed r.1} _ _
                      (at_first (apply_active_records-Keeps (Primed-Lasts r.1) host rest))
                      λ accepted.
                        Ensures-when accepted _
                          (λ _.
                            Ensures-bind {A = Bool} {Q = λ _. Primed r.1} _ _
                              (at_first (Keeps-gets _))
                              λ replaces.
                                Ensures-bind {Q = λ _. Primed r.1} _ _
                                  (at_first
                                    (Keeps-when replaces _ (trace-Keeps (Primed-Lasts r.1) _)))
                                  λ _.
                                    Ensures-bind {Q = λ _. Primed r.1} _ _
                                      (at_first (trace-Keeps (Primed-Lasts r.1) _))
                                      λ _. install-Sees host r.1)
                          (λ _ s h. h.1)
