-- ===== src/Runner/Launch/Agreement.antt =====
-- src/runner.rs: the launcher and the runner agree on whether the session was started.
use afk_cli.Prelude.{
  ℕ, zero, suc, ◌≡◌, refl, ap, ◌⊎◌, inl, inr, List, [], ◌∷◌, ◌++◌, Bool, true, false, none, some,
  if◌then◌else◌, ok, err, IoError, IoResult,
}
use afk_cli.Identity.{SessionId}
use afk_cli.Prelude.Exec.{lift}
use afk_cli.Prelude.Ensures.{
  Ensures, Outcome, Ensures-pure, Ensures-fail, Ensures-lift, Ensures-if, Ensures-attempt,
  Ensures-bind, Ensures-map,
}
use afk_cli.Registry.Metadata.{SessionMetadata}
use afk_cli.Runner.Startup.{StartupConfig}
use afk_cli.Runner.Launch.{
  startup_ready, startup_exists, startup_failed, Start, nothing_done, StartHost, live_metadata,
  respond, was_interrupted, write_startup_response, record_session, kill_child, command_or_shell,
  become_ready, start_runner, session_exists, report_error, hidden_runner, read_response,
  launch_runner,
}

-- The record that a runner makes before any client attaches.
abbrev pub IsFresh : SessionId → SessionMetadata → Type 0
IsFresh session m =
    (runner child started : ℕ) × (m ≡ live_metadata session runner child started false)

-- The runner is registered, and its child runs.
pub record Runs (session : SessionId) (s : Start) : Type 0 where
  pub metadata : SessionMetadata
  pub recorded : s.recorded ≡ some metadata
  pub fresh : IsFresh session metadata
  pub alive : s.killed ≡ false

-- No session was started: nothing is recorded, or the child was killed.
abbrev pub IsOff : Start → Type 0
IsOff s = (s.recorded ≡ none) ⊎ (s.killed ≡ true)

module _ (session : SessionId) where
  abbrev Before : Start → Type 0
  Before s = s ≡ nothing_done

  abbrev Silent : Start → Type 0
  Silent s = (s.responses ≡ []) × IsOff s

  abbrev Ready : Start → Type 0
  Ready s = (s.responses ≡ startup_ready ∷ []) × Runs session s

  -- Where `start_runner` has failed.
  abbrev Broken : Start → Type 0
  Broken s = Silent s ⊎ Ready s

  lift-Before : {A : Type 0} (r : IoResult A) → Ensures Before (lift r) (λ _. Before) (λ _. Broken)
  lift-Before r = Ensures-lift r (λ a s _ h. h) (λ e s _ h. rw h (inl (refl, inl refl)))

  -- Either the byte goes out, or nothing changes.
  write_startup_response-Ensures :
      (writes : List (IoResult ℕ)) (response : ℕ) (s : Start)
      → Ensures
          (λ t. t ≡ s)
          (write_startup_response writes response)
          (λ _ t. t ≡ record s { responses = s.responses ++ response ∷ [] })
          (λ _ t. t ≡ s)
  unfolding write_startup_response respond
  write_startup_response-Ensures [] response s = record { at = λ t h. rw h refl }
  write_startup_response-Ensures (ok zero ∷ rest) response s = Ensures-fail _ (λ t h. h)
  write_startup_response-Ensures (ok (suc n) ∷ rest) response s = record { at = λ t h. rw h refl }
  write_startup_response-Ensures (err e ∷ rest) response s =
      Ensures-if (was_interrupted e.kind) _ _ (λ _. write_startup_response-Ensures rest response s)
        (λ _. Ensures-fail e (λ t h. h))

  abbrev recorded_only : SessionMetadata → Start
  recorded_only m = record nothing_done { recorded = some m }

  -- Where `become_ready` has failed, before the child is killed.
  abbrev Unready : SessionMetadata → Start → Type 0
  Unready m s = (s ≡ nothing_done) ⊎ (s ≡ recorded_only m)

  record_session-Ensures :
      (r : IoResult (Unit {0})) (m : SessionMetadata)
      → Ensures Before (record_session r m) (λ _ t. t ≡ recorded_only m) (λ _. Unready m)
  unfolding record_session
  record_session-Ensures (ok _) m = record { at = λ s h. rw h refl }
  record_session-Ensures (err e) m = record { at = λ s h. inl h }

  killed : (m : SessionMetadata) (s : Start) → Unready m s → Silent (record s { killed = true })
  killed m s (inl h) = rw h (refl, inr refl)
  killed m s (inr h) = rw h (refl, inr refl)

  kill_child-Silent :
      (m : SessionMetadata) → Ensures (Unready m) kill_child (λ _. Silent) (λ _. Broken)
  unfolding kill_child
  kill_child-Silent m = record { at = killed m }

  become_ready-Ensures :
      (host : StartHost) (m : SessionMetadata)
      → IsFresh session m
      → Ensures Before (become_ready host m) (λ _. Ready) (λ _. Broken)
  unfolding become_ready
  become_ready-Ensures host m fresh =
      Ensures-attempt {Q = λ _ t. t ≡ record (recorded_only m) { responses = startup_ready ∷ [] }}
        {F = λ _. Unready m} _ _ _
        (Ensures-bind _ _ (record_session-Ensures (host.write_metadata m) m) (λ _.
          Ensures-map (λ t h. h) (λ _ t h. h) (λ _ t h. inr h)
            (write_startup_response-Ensures host.ready_writes startup_ready (recorded_only m))))
        (λ _. Ensures-pure tt (λ t h.
          rw h (refl, record { metadata = m; recorded = refl; fresh = fresh; alive = refl })))
        (λ e.
          Ensures-bind {Q = λ _. Silent} _ _ (kill_child-Silent m)
            (λ _. Ensures-fail e (λ t h. inl h)))

  start_runner-Ensures :
      (host : StartHost) (config : StartupConfig)
      → Ensures Before (start_runner host session config) (λ _. Ready) (λ _. Broken)
  unfolding start_runner
  start_runner-Ensures host config = Ensures-bind _ _ (lift-Before host.become_session_leader) (λ _.
      Ensures-bind _ _ (lift-Before host.open_registry) (λ _.
        Ensures-bind _ _ (lift-Before host.bind_session) (λ _.
          Ensures-bind _ _ (lift-Before (host.create_trace config.trace)) (λ _.
            Ensures-bind _ _ (lift-Before (host.create_pty config.rows config.columns)) (λ _.
              Ensures-bind _ _ (lift-Before host.dup_stdout) (λ _.
                Ensures-bind _ _ (lift-Before host.dup_stderr) (λ _.
                  Ensures-bind _ _ (lift-Before (host.spawn (command_or_shell host config.command)))
                    (λ child. Ensures-bind _ _ (lift-Before host.now_seconds) (λ now.
                      Ensures-bind _ _ (lift-Before host.getpid) (λ pid.
                        Ensures-bind _ _
                          (become_ready-Ensures host (live_metadata session pid child now false)
                            (pid, child, now, refl))
                          (λ _.
                            Ensures-bind _ _ (lift-Ready host.set_nonblocking)
                              (λ _. lift-Ready host.run_event_loop))))))))))))
    where
      lift-Ready : (r : IoResult (Unit {0})) → Ensures Ready (lift r) (λ _. Ready) (λ _. Broken)
      lift-Ready r = Ensures-lift r (λ a s _ h. h) (λ e s _ h. inr h)

  -- What the launcher can read in the end.
  abbrev Settled : Start → Type 0
  Settled s =
      (((s.responses ≡ []) ⊎ ((b : ℕ) × (s.responses ≡ suc b ∷ []))) × IsOff s)
      ⊎ (((rest : List ℕ) × (s.responses ≡ startup_ready ∷ rest)) × Runs session s)

  Ready-Settled : (s : Start) → Ready s → Settled s
  Ready-Settled s h = inr (([], h.0), h.1)

  Broken-Settled : (s : Start) → Broken s → Settled s
  Broken-Settled s (inl h) = inl (inl h.0, h.1)
  Broken-Settled s (inr h) = Ready-Settled s h

  responded :
      (b : ℕ) (s : Start) → Broken s → Settled (record s { responses = s.responses ++ suc b ∷ [] })
  responded b s (inl h) = inl (inr (b, ap (λ l. l ++ suc b ∷ []) h.0), h.1)
  responded b s (inr h) = inr (
    (suc b ∷ [], ap (λ l. l ++ suc b ∷ []) h.0),
    record {
      metadata = h.1.metadata;
      recorded = h.1.recorded;
      fresh = h.1.fresh;
      alive = h.1.alive;
    },
  )

  report_error-Ensures :
      (host : StartHost) (b : ℕ) (e : IoError)
      → Ensures Broken (report_error host (suc b) e) (λ _. Settled) (λ _. Settled)
  unfolding report_error
  report_error-Ensures host b e = record {
    at = λ s h.
        (Ensures-attempt {E = λ _. Settled} _ _ _
            (write_startup_response-Ensures host.error_writes (suc b) s)
            (λ _. Ensures-fail e (λ t k. rw k (responded b s h)))
            (λ _. Ensures-fail e (λ t k. rw k (Broken-Settled s h)))).at
          s refl;
  }

  hidden_runner-Ensures :
      (host : StartHost) (config : IoResult StartupConfig)
      → Ensures Before (hidden_runner host session config) (λ _. Settled) (λ _. Settled)
  unfolding hidden_runner
  hidden_runner-Ensures host (err e) =
      Ensures-map (λ s h. rw h (inl (refl, inl refl))) (λ _ s h. h) (λ _ s h. h)
        (report_error-Ensures host 1 e)
  hidden_runner-Ensures host (ok config) =
      Ensures-attempt _ _ _ (start_runner-Ensures host config) (λ _. Ensures-pure tt Ready-Settled)
        (λ e. reported e (session_exists e.kind))
    where
      reported :
          (e : IoError) (b : Bool)
          → Ensures Broken
              (report_error host (if b then startup_exists else startup_failed) e)
              (λ _. Settled)
              (λ _. Settled)
      reported e true = report_error-Ensures host 0 e
      reported e false = report_error-Ensures host 1 e

-- What the launcher is told, against what there is.
abbrev pub Agrees : SessionId → IoResult (Unit {0}) → Start → Type 0
Agrees session (ok _) s = Runs session s
Agrees session (err e) s = IsOff s

Settled-Agrees :
    (session : SessionId) (s : Start)
    → Settled session s
    → Agrees session (read_response s.responses) s
unfolding read_response
Settled-Agrees session s (inl (inl e, off)) = rw e off
Settled-Agrees session s (inl (inr (zero, e), off)) = rw e off
Settled-Agrees session s (inl (inr (suc b, e), off)) = rw e off
Settled-Agrees session s (inr ((rest, e), runs)) = ready s.responses e
  where
    ready :
        (responses : List ℕ)
        → responses ≡ startup_ready ∷ rest
        → Agrees session (read_response responses) s
    ready responses e = rw e runs

-- The launcher takes a runner for started if and only if it is: its session is recorded, with no client
-- attached, and the child has not been killed. Else nothing is recorded or the child was killed. So it
-- is, where the launcher can read its end of the connection, whatever call of the start fails, whichever of the two responses do not get through, and
-- whatever becomes of the event loop behind the first of them.
pub hidden_runner-Agrees :
    (host : StartHost) (session : SessionId) (config : IoResult StartupConfig)
    → let s = (hidden_runner host session config nothing_done).1 in
      Agrees session (launch_runner (ok tt) (ok tt) (ok s.responses)) s
unfolding launch_runner
hidden_runner-Agrees host session config =
    told _ _ ((hidden_runner-Ensures session host config).at nothing_done refl)
  where
    told :
        (r : IoResult (Unit {0})) (s : Start)
        → Outcome (λ _. Settled session) (λ _. Settled session) r s
        → Agrees session (read_response s.responses) s
    told (ok _) s h = Settled-Agrees session s h
    told (err e) s h = Settled-Agrees session s h
