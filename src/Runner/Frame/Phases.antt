-- ===== src/Runner/Frame/Phases.antt =====
-- src/runner.rs: the phases of a round that serve the terminal and the attachment keep what survives.
use afk_cli.Prelude.{
  ℕ, ◌≡◌, ◌+◌, List, [], ◌∷◌, Bool, true, false, Option, none, some, is_empty, not, ◌&&◌, length,
  ok, err, IoError, IoResult, String, arith, ltb,
}
use afk_cli.Limits.{max_pty_bytes_per_tick}
use afk_cli.Ipc.{Record, input, resize}
use afk_cli.Ipc.Codec.{IsDimension}
use afk_cli.ByteQueue.{ByteQueue, flush}
use afk_cli.OutputTail.{OutputTail}
use afk_cli.Terminal.{set_window_size, validate_dimensions}
use afk_cli.Runner.State.{
  Connection, Runner, Host, Effect, traced, traced_error, wrote_stream, recorded, ReadOutcome,
  received, read_failed, Events,
}
use afk_cli.Runner.Monad.{Run, modify, trace_event, trace_io_error, record_attached}
use afk_cli.Runner.Connections.{push_input, resize_pty, apply_active_records, read_slot}
use afk_cli.Runner.Pty.{
  take_output, ReadError, not_ready, closed, again, fatal, read_error, drain_failed, drain_pty_loop,
  drain_pty,
}
use afk_cli.Runner.Loop.{
  set_active, set_candidate, flush_result, drain_phase, flush_pty, pty_phase, flush_active,
  active_records, read_active, active_phase, wants_read,
}
use afk_cli.Runner.Ensures.{
  Keeps, Keeps-bind, Keeps-seq, Keeps-when, Keeps-modify, Keeps-pure, Keeps-fail, Keeps-gets,
  Keeps-if, Ensures-bind, Ensures-lift, Ensures-record_attached, Ensures-modify,
}
use afk_cli.Runner.Frame.{Survives}

set_window_size_valid :
    (tcsetwinsize : ℕ → ℕ → IoResult (Unit {0})) (rows columns : ℕ) (u : Unit {0})
    → set_window_size tcsetwinsize rows columns ≡ ok u
    → IsDimension rows × IsDimension columns
unfolding set_window_size validate_dimensions
set_window_size_valid tcsetwinsize rows columns u e = ground arith

abbrev pub Holds : (OutputTail → ByteQueue → List Effect → Type 0) → Runner → Type 0
Holds P s = P s.tail s.pty_input s.effects

module _ (P : OutputTail → ByteQueue → List Effect → Type 0) (survives : Survives P) where
  pub says : (event : String) → Keeps (Holds P) (trace_event event)
  unfolding trace_event
  says event =
      Keeps-modify _
        (λ s h. ground (arith, survives.quiet s.tail s.pty_input s.effects (traced event) tt h))

  pub says_error : (event : String) (e : IoError) → Keeps (Holds P) (trace_io_error event e)
  unfolding trace_io_error
  says_error event e = Keeps-modify _ (λ s h.
      ground (arith, survives.quiet s.tail s.pty_input s.effects (traced_error event e) tt h))

  pub records : (host : Host) (value : Bool) → Keeps (Holds P) (record_attached host value)
  records host value =
      Ensures-record_attached host value
        (λ s h. survives.quiet s.tail s.pty_input s.effects (recorded value) tt h) (λ s h. h)

  take_output-Holds : (bytes : List ℕ) → Keeps (Holds P) (modify (take_output bytes))
  unfolding take_output
  take_output-Holds bytes =
      Keeps-modify _ (λ s h. survives.takes_output s.tail s.pty_input s.effects bytes h)

  drain_failed-Holds :
      (e : ReadError) (error : IoError) (retry : Run (Unit {0}))
      → Keeps (Holds P) retry
      → Keeps (Holds P) (drain_failed e error retry)
  unfolding drain_failed
  drain_failed-Holds not_ready error retry h = Keeps-pure tt
  drain_failed-Holds closed error retry h = says_error _ error
  drain_failed-Holds again error retry h = h
  drain_failed-Holds fatal error retry h = Keeps-seq _ _ (says_error _ error) (Keeps-fail error)

  drain_pty_loop-Holds :
      (reads : List ReadOutcome) (n : ℕ) → Keeps (Holds P) (drain_pty_loop n reads)
  unfolding drain_pty_loop
  drain_pty_loop-Holds [] n = Keeps-pure tt
  drain_pty_loop-Holds (received bytes ∷ reads) n =
      Keeps-if (ltb n max_pty_bytes_per_tick) _ _
        (Keeps-if (is_empty bytes) _ _ (says _)
          (Keeps-seq _ _ (take_output-Holds bytes) (drain_pty_loop-Holds reads (n + length bytes))))
        (Keeps-pure tt)
  drain_pty_loop-Holds (read_failed error ∷ reads) n =
      Keeps-if (ltb n max_pty_bytes_per_tick) _ _
        (drain_failed-Holds (read_error error) error _ (drain_pty_loop-Holds reads n))
        (Keeps-pure tt)

  pub drain_phase-Holds : (host : Host) → Keeps (Holds P) (drain_phase host)
  unfolding drain_phase drain_pty
  drain_phase-Holds host = Keeps-bind _ _ (Keeps-gets _) λ had.
      Keeps-seq _ _ (drain_pty_loop-Holds host.pty_reads 0) (
        Keeps-bind _ _ (Keeps-gets _)
          λ lost. Keeps-when lost _ (Keeps-seq _ _ (says _) (records host false)))

  drop_active-Holds : Keeps (Holds P) (set_active none)
  drop_active-Holds = Keeps-modify _ (λ s h. h)

  pub drop_candidate-Holds : Keeps (Holds P) (set_candidate none)
  drop_candidate-Holds = Keeps-modify _ (λ s h. h)

  flush_result-Holds :
      (event : String) (r : IoResult (Unit {0})) → Keeps (Holds P) (flush_result event r)
  unfolding flush_result
  flush_result-Holds event (ok u) = Keeps-pure tt
  flush_result-Holds event (err e) = Keeps-seq _ _ (says_error event e) drop_active-Holds

  flush_pty-Holds : (host : Host) → Keeps (Holds P) (flush_pty host)
  unfolding flush_pty
  flush_pty-Holds host = record {
    at = λ s h.
        (flush_result-Holds _ (flush s.pty_input host.pty_writes).result).at _
          (survives.flushes s.tail s.pty_input s.effects host.pty_writes h);
  }

  pub pty_phase-Holds : (host : Host) (events : Events) → Keeps (Holds P) (pty_phase host events)
  unfolding pty_phase
  pty_phase-Holds host events =
      Keeps-bind _ _ (Keeps-gets _) (λ w. Keeps-when w _ (flush_pty-Holds host))

  flush_active-Holds : (host : Host) (a : Option Connection) → Keeps (Holds P) (flush_active host a)
  unfolding flush_active
  flush_active-Holds host none = Keeps-pure tt
  flush_active-Holds host (some c) = record {
    at = λ s h. (flush_result-Holds _ (flush c.output host.active_writes).result).at _ (
        survives.quiet s.tail s.pty_input s.effects
          (wrote_stream c.stream (flush c.output host.active_writes).sent) tt h);
  }

  push_input-Holds : (bytes : List ℕ) → Keeps (Holds P) (push_input bytes)
  unfolding push_input
  push_input-Holds bytes = record {
    at = λ s h. survives.takes_input s.tail s.pty_input s.effects bytes h;
  }

  pub resize_pty-Holds :
      (host : Host) (rows columns : ℕ) → Keeps (Holds P) (resize_pty host rows columns)
  unfolding resize_pty
  resize_pty-Holds host rows columns =
      Ensures-bind {Q = λ _ s. (IsDimension rows × IsDimension columns) × Holds P s} _ _
        (Ensures-lift _ (λ u s e h. (set_window_size_valid host.tcsetwinsize rows columns u e, h))
          (λ s h. h))
        (λ u.
          Ensures-modify _
            (λ s h. survives.resizes s.tail s.pty_input s.effects rows columns h.0.0 h.0.1 h.1))

  pub apply_active_records-Holds :
      (host : Host) (rs : List Record) → Keeps (Holds P) (apply_active_records host rs)
  unfolding apply_active_records
  apply_active_records-Holds host [] = Keeps-pure true
  apply_active_records-Holds host (input bytes ∷ rs) =
      Keeps-bind (push_input bytes) _ (push_input-Holds bytes)
        (λ fits. Keeps-if fits _ _ (apply_active_records-Holds host rs) (Keeps-pure false))
  apply_active_records-Holds host (resize rows columns ∷ rs) =
      Keeps-seq _ _ (resize_pty-Holds host rows columns) (apply_active_records-Holds host rs)
  apply_active_records-Holds host (_ ∷ rs) = Keeps-pure false

  active_records-Holds :
      (host : Host) (r : IoResult (List Record)) → Keeps (Holds P) (active_records host r)
  unfolding active_records
  active_records-Holds host (ok rs) =
      Keeps-bind _ _ (apply_active_records-Holds host rs)
        (λ accepted. Keeps-when (not accepted) _ (Keeps-seq _ _ (says _) drop_active-Holds))
  active_records-Holds host (err e) = Keeps-seq _ _ (says_error _ e) drop_active-Holds

  read_active-Holds : (host : Host) → Keeps (Holds P) (read_active host)
  unfolding read_active
  read_active-Holds host = record {
    at = λ s h. (active_records-Holds host (read_slot host.active_read s.active).0).at _ h;
  }

  pub active_phase-Holds :
      (host : Host) (w : Bool) (e : Events) → Keeps (Holds P) (active_phase host w e)
  unfolding active_phase
  active_phase-Holds host w e = Keeps-seq _ _ (Keeps-when e.hangup _ (says _)) (
      Keeps-seq _ _ (Keeps-when e.error _ (says _)) (
        Keeps-seq _ _
          (Keeps-when (e.writable && w) _
            (record { at = λ s h. (flush_active-Holds host s.active).at s h }))
          (Keeps-bind _ _ (Keeps-gets _) λ present.
            Keeps-seq _ _ (Keeps-when (present && wants_read e) _ (read_active-Holds host))
              (Keeps-bind _ _ (Keeps-gets _) λ gone. Keeps-when gone _ (records host false)))))
