-- ===== src/Runner/Attached/Covers.antt =====
-- src/runner.rs: what does not write the session's record, and at most drops the attachment.
use afk_cli.Prelude.{
  ℕ, ◌+◌, ◌≡◌, refl, List, [], ◌∷◌, Bool, true, false, Option, none, some, is_empty, is_some, not,
  length, ok, err, IoError, IoResult, String, arith, ltb,
}
use afk_cli.Limits.{max_pty_bytes_per_tick}
use afk_cli.Ipc.{Record, input, resize}
use afk_cli.ByteQueue.{flush}
use afk_cli.Runner.State.{Connection, Runner, Host, ReadOutcome, received, read_failed, Events}
use afk_cli.Runner.Monad.{Run, pure, modify, trace_event, trace_io_error}
use afk_cli.Runner.Connections.{push_input, resize_pty, apply_active_records, read_slot}
use afk_cli.Runner.Pty.{
  take_output, forward, ReadError, not_ready, closed, again, fatal, read_error, drain_failed,
  drain_pty_loop,
}
use afk_cli.Runner.Loop.{
  set_active, flush_result, flush_pty, pty_phase, flush_active, active_records, read_active,
}
use afk_cli.Runner.Ensures.{
  Ensures, Keeps, Outcome, Ensures-map, Keeps-bind, Keeps-seq, Keeps-when, Keeps-modify, Keeps-pure,
  Keeps-fail, Keeps-lift, Keeps-gets, Keeps-if, Keeps-trace_event, Keeps-trace_io_error,
}

abbrev pub IsHonest : Runner → Type 0
IsHonest s = s.attached ≡ is_some s.active

-- The record says `had`, and there is no attachment that it denies.
abbrev pub Covers : Bool → Runner → Type 0
Covers had s = (s.attached ≡ had) × (is_some s.active ≡ true → had ≡ true)

abbrev pub Anything : Runner → Type 0
Anything s = Unit {0}

forward-is_some :
    (bytes : List ℕ) (a : Option Connection) → is_some (forward bytes a) ≡ true → is_some a ≡ true
unfolding forward
forward-is_some bytes none e = e
forward-is_some bytes (some c) e = refl

read_slot_some : (o : ReadOutcome) (a : Option Connection) → is_some (read_slot o a).1 ≡ is_some a
read_slot_some o none = refl
read_slot_some o (some c) = refl

module _ (had : Bool) where
  pub drop_active-Covers : Keeps (Covers had) (set_active none)
  drop_active-Covers = Keeps-modify _ (λ s h. (h.0, λ e. cc))

  pub trace-Covers : (event : String) → Keeps (Covers had) (trace_event event)
  trace-Covers event = Keeps-trace_event (λ s e h. h) event

  pub trace_error-Covers :
      (event : String) (e : IoError) → Keeps (Covers had) (trace_io_error event e)
  trace_error-Covers event e = Keeps-trace_io_error (λ s e h. h) event e

  take_output-Covers : (bytes : List ℕ) → Keeps (Covers had) (modify (take_output bytes))
  unfolding take_output
  take_output-Covers bytes =
      Keeps-modify _ (λ s h. (h.0, λ e. h.1 (forward-is_some bytes s.active e)))

  drain_failed-Covers :
      (e : ReadError) (error : IoError) (retry : Run (Unit {0}))
      → Keeps (Covers had) retry
      → Keeps (Covers had) (drain_failed e error retry)
  unfolding drain_failed
  drain_failed-Covers not_ready error retry h = Keeps-pure tt
  drain_failed-Covers closed error retry h = trace_error-Covers _ error
  drain_failed-Covers again error retry h = h
  drain_failed-Covers fatal error retry h =
      Keeps-seq _ _ (trace_error-Covers _ error) (Keeps-fail error)

  pub drain_pty_loop-Covers :
      (reads : List ReadOutcome) (n : ℕ) → Keeps (Covers had) (drain_pty_loop n reads)
  unfolding drain_pty_loop
  drain_pty_loop-Covers [] n = Keeps-pure tt
  drain_pty_loop-Covers (received bytes ∷ reads) n =
      Keeps-if (ltb n max_pty_bytes_per_tick) _ _
        (Keeps-if (is_empty bytes) _ _ (trace-Covers _) (
          Keeps-seq _ _ (take_output-Covers bytes)
            (drain_pty_loop-Covers reads (n + length bytes))))
        (Keeps-pure tt)
  drain_pty_loop-Covers (read_failed error ∷ reads) n =
      Keeps-if (ltb n max_pty_bytes_per_tick) _ _
        (drain_failed-Covers (read_error error) error _ (drain_pty_loop-Covers reads n))
        (Keeps-pure tt)

  flush_result-Covers :
      (event : String) (r : IoResult (Unit {0})) → Keeps (Covers had) (flush_result event r)
  unfolding flush_result
  flush_result-Covers event (ok u) = Keeps-pure tt
  flush_result-Covers event (err e) = Keeps-seq _ _ (trace_error-Covers event e) drop_active-Covers

  flush_pty-Covers : (host : Host) → Keeps (Covers had) (flush_pty host)
  unfolding flush_pty
  flush_pty-Covers host = record {
    at = λ s h. (flush_result-Covers _ (flush s.pty_input host.pty_writes).result).at _ h;
  }

  pub pty_phase-Covers :
      (host : Host) (events : Events) → Keeps (Covers had) (pty_phase host events)
  unfolding pty_phase
  pty_phase-Covers host events =
      Keeps-bind _ _ (Keeps-gets _) (λ w. Keeps-when w _ (flush_pty-Covers host))

  pub flush_slot-Covers :
      (host : Host) (a : Option Connection) (s : Runner)
      → s.active ≡ a
      → Covers had s
      → Outcome (λ _. Covers had) (Covers had) (flush_active host a s).0 (flush_active host a s).1
  unfolding flush_active pure
  flush_slot-Covers host none s e h = h
  flush_slot-Covers host (some c) s e h =
      (flush_result-Covers _ (flush c.output host.active_writes).result).at _ (h.0, λ _. h.1 (rw e))

  push_input-Covers : (bytes : List ℕ) → Keeps (Covers had) (push_input bytes)
  unfolding push_input
  push_input-Covers bytes = record { at = λ s h. h }

  pub resize_pty-Covers :
      (host : Host) (rows columns : ℕ) → Keeps (Covers had) (resize_pty host rows columns)
  unfolding resize_pty
  resize_pty-Covers host rows columns =
      Keeps-bind _ _ (Keeps-lift _) (λ _. Keeps-modify _ (λ s h. h))

  pub apply_active_records-Covers :
      (host : Host) (rs : List Record) → Keeps (Covers had) (apply_active_records host rs)
  unfolding apply_active_records
  apply_active_records-Covers host [] = Keeps-pure true
  apply_active_records-Covers host (input bytes ∷ rs) =
      Keeps-bind (push_input bytes) _ (push_input-Covers bytes)
        (λ fits. Keeps-if fits _ _ (apply_active_records-Covers host rs) (Keeps-pure false))
  apply_active_records-Covers host (resize rows columns ∷ rs) =
      Keeps-seq _ _ (resize_pty-Covers host rows columns) (apply_active_records-Covers host rs)
  apply_active_records-Covers host (_ ∷ rs) = Keeps-pure false

  active_records-Covers :
      (host : Host) (r : IoResult (List Record)) → Keeps (Covers had) (active_records host r)
  unfolding active_records
  active_records-Covers host (ok rs) =
      Keeps-bind _ _ (apply_active_records-Covers host rs) (λ accepted.
        Keeps-when (not accepted) _ (Keeps-seq _ _ (trace-Covers _) drop_active-Covers))
  active_records-Covers host (err e) = Keeps-seq _ _ (trace_error-Covers _ e) drop_active-Covers

  pub read_active-Covers : (host : Host) → Keeps (Covers had) (read_active host)
  unfolding read_active
  read_active-Covers host = record {
    at = λ s h.
        (active_records-Covers host (read_slot host.active_read s.active).0).at _
          (h.0, λ e. h.1 (ground (arith, read_slot_some host.active_read s.active, e)));
  }

-- A success leaves the record honest.
abbrev pub Honours : {A : Type 0} → (Runner → Type 0) → Run A → Type 0
Honours P m = Ensures P m (λ _. IsHonest) Anything

-- What keeps the record covered says nothing of a failure.
pub covers :
    {A : Type 0} {m : Run A} (had : Bool)
    → Keeps (Covers had) m
    → Ensures (Covers had) m (λ _. Covers had) Anything
covers had h = Ensures-map (λ s p. p) (λ a s q. q) (λ s _. tt) h

pub honest : {A : Type 0} {m : Run A} → Keeps IsHonest m → Honours IsHonest m
honest h = Ensures-map (λ s p. p) (λ a s q. q) (λ s _. tt) h
