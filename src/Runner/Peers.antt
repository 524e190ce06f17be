-- ===== src/Runner/Peers.antt =====
-- src/runner.rs, `accept_candidate`: whose connections become candidates.
use mathlib.Core.Path.{subst}
use mathlib.Core.List.{Mem, mem-cons_self, mem-cons_of_mem}
use afk_cli.Prelude.{
  ℕ, ◌≡◌, refl, ap, ◌∙◌, List, [], ◌∷◌, Option, some, ◌==◌, ==→eq, ok, IoResult, inl, inr, ◌⊎◌,
}
use afk_cli.Runner.State.{
  Connection, new_connection, Runner, Host, AcceptOutcome, connected, accept_failed,
}
use afk_cli.Runner.Connections.{admit, is_would_block, accept_candidate}
use afk_cli.Runner.Ensures.{
  Keeps, Keeps-after, Ensures-bind, Ensures-lift, Ensures-fact, Ensures-if, Keeps-bind, Keeps-seq,
  Keeps-when, Keeps-modify, Keeps-pure, Keeps-fail, Keeps-gets, Keeps-if, Keeps-trace_event,
}

-- The candidate is the one from before, or a new connection whose peer runs as the runner's user.
abbrev pub IsOwn : Host → Option Connection → List AcceptOutcome → Option Connection → Type 0
IsOwn host before os now =
    (now ≡ before)
    ⊎ ((stream : ℕ) × Mem (connected stream (ok host.uid) (ok tt)) os
        × (now ≡ some (new_connection stream)))

owned :
    {all : List AcceptOutcome} {stream uid own : ℕ} {peer : IoResult ℕ} {nb : IoResult (Unit {0})}
    {u : Unit {0}}
    → peer ≡ ok uid
    → nb ≡ ok u
    → uid ≡ own
    → Mem (connected stream peer nb) all
    → Mem (connected stream (ok own) (ok tt)) all
owned {all} {stream = stream} {peer = peer} ep en e m =
    subst (λ p. Mem (connected stream p (ok tt)) all) (ep ∙ ap ok e)
      (subst (λ n. Mem (connected stream peer n) all) en m)

module _ (host : Host) (before : Option Connection) (all : List AcceptOutcome) where
  Holds : Runner → Type 0
  Holds s = IsOwn host before all s.candidate

  admit_own :
      (stream : ℕ) (peer : IoResult ℕ) (nb : IoResult (Unit {0}))
      → Mem (connected stream peer nb) all
      → Keeps Holds (admit host stream peer nb)
  unfolding admit Holds
  admit_own stream peer nb m =
      Ensures-bind {A = ℕ} {Q = λ uid s. (peer ≡ ok uid) × Holds s} _ _
        (Ensures-lift peer (λ uid s e h. (e, h)) (λ s h. h))
        λ uid. Ensures-fact λ ep.
          Ensures-if (uid == host.uid) _ _
            (λ same.
              Ensures-bind {A = Unit {0}} {Q = λ u s. (nb ≡ ok u) × Holds s} _ _
                (Ensures-lift nb (λ u s e h. (e, h)) (λ s h. h))
                λ u. Ensures-fact λ en. Keeps-bind _ _ (Keeps-gets _) λ replaced.
                  Keeps-seq _ _ (Keeps-when replaced _ (Keeps-trace_event (λ s e h. h) _)) (
                    Keeps-seq _ _ (Keeps-trace_event (λ s e h. h) _)
                      (Keeps-modify _ (λ s h. inr (stream, owned ep en (==→eq _ _ same) m, refl)))))
            (λ _. Keeps-trace_event (λ s e h. h) _)

  accept_own :
      (os : List AcceptOutcome)
      → ((o : AcceptOutcome) → Mem o os → Mem o all)
      → Keeps Holds (accept_candidate host os)
  unfolding accept_candidate
  accept_own [] m = Keeps-pure tt
  accept_own (connected stream peer nb ∷ os) m =
      Keeps-seq _ _ (admit_own stream peer nb (m _ mem-cons_self))
        (accept_own os (λ o h. m o (mem-cons_of_mem _ h)))
  accept_own (accept_failed error ∷ os) m =
      Keeps-if (is_would_block error.kind) _ _ (Keeps-pure tt) (Keeps-fail error)

-- Whatever connections arrive, and whether `accept_candidate` succeeds or fails, the candidate
-- afterwards is the one from before, or a fresh connection to a peer with the runner's own user id.
pub accept_candidate-IsOwn :
    (host : Host) (os : List AcceptOutcome) (s : Runner)
    → IsOwn host s.candidate os (accept_candidate host os s).1.candidate
accept_candidate-IsOwn host os s =
    unfold Holds in Keeps-after (accept_own host s.candidate os os (λ o h. h)) (inl refl)
