-- ===== src/Runner/Views/Lasting.antt =====
-- src/runner.rs: the functions whose effects say nothing of an attachment.
use afk_cli.Prelude.{ℕ, List, [], ◌∷◌, ◌++◌, Bool, true, false, if◌then◌else◌, IoError, String}
use afk_cli.Ipc.{Record, input, resize}
use afk_cli.ByteQueue.{ByteQueue}
use afk_cli.ByteQueue
use afk_cli.Runner.State.{
  Runner, Host, Effect, traced, traced_error, read_pty, took_input, wrote_stream, resized, recorded,
  emit,
}
use afk_cli.Runner.Monad.{trace_event, trace_io_error}
use afk_cli.Runner.Connections.{push_input, resize_pty, apply_active_records}
use afk_cli.Runner.Ensures.{
  Keeps, Keeps-bind, Keeps-seq, Keeps-modify, Keeps-pure, Keeps-lift, Keeps-if,
}

abbrev pub IsNeutral : Effect → Type 0
IsNeutral (read_pty bytes) = ⊥
IsNeutral (wrote_stream stream bytes) = ⊥
IsNeutral (recorded value) = ⊥
IsNeutral _ = Unit {0}

-- What neither these effects nor the input queue can break.
pub record Lasts (P : Runner → Type 0) : Type 0 where
  pub emits : (s : Runner) (e : Effect) → IsNeutral e → P s → P (emit e s)
  pub queues : (s : Runner) (q : ByteQueue) → P s → P (record s { pty_input = q })

module _ {P : Runner → Type 0} (lasts : Lasts P) where
  pub trace-Keeps : (event : String) → Keeps P (trace_event event)
  unfolding trace_event
  trace-Keeps event = Keeps-modify _ (λ s h. either s.tracing s h)
    where
      either : (b : Bool) (s : Runner) → P s → P (if b then emit (traced event) s else s)
      either true s h = lasts.emits s (traced event) tt h
      either false s h = h

  pub trace_error-Keeps : (event : String) (error : IoError) → Keeps P (trace_io_error event error)
  unfolding trace_io_error
  trace_error-Keeps event error = Keeps-modify _ (λ s h. either s.tracing s h)
    where
      either :
          (b : Bool) (s : Runner) → P s → P (if b then emit (traced_error event error) s else s)
      either true s h = lasts.emits s (traced_error event error) tt h
      either false s h = h

  pub resize_pty-Keeps : (host : Host) (rows columns : ℕ) → Keeps P (resize_pty host rows columns)
  unfolding resize_pty
  resize_pty-Keeps host rows columns =
      Keeps-bind _ _ (Keeps-lift _)
        (λ _. Keeps-modify _ (λ s h. lasts.emits s (resized rows columns) tt h))

  push_input-Keeps : (bytes : List ℕ) → Keeps P (push_input bytes)
  unfolding push_input
  push_input-Keeps bytes = record {
    at = λ s h.
        either (ByteQueue.push s.pty_input bytes).1
          (record s { pty_input = (ByteQueue.push s.pty_input bytes).0 }) (lasts.queues s _ h);
  }
    where
      either :
          (b : Bool) (s : Runner)
          → P s
          → P (record s { effects = if b then s.effects ++ took_input bytes ∷ [] else s.effects })
      either true s h = lasts.emits s (took_input bytes) tt h
      either false s h = h

  pub apply_active_records-Keeps :
      (host : Host) (rs : List Record) → Keeps P (apply_active_records host rs)
  unfolding apply_active_records
  apply_active_records-Keeps host [] = Keeps-pure true
  apply_active_records-Keeps host (input bytes ∷ rs) =
      Keeps-bind (push_input bytes) _ (push_input-Keeps bytes)
        (λ fits. Keeps-if fits _ _ (apply_active_records-Keeps host rs) (Keeps-pure false))
  apply_active_records-Keeps host (resize rows columns ∷ rs) =
      Keeps-seq _ _ (resize_pty-Keeps host rows columns) (apply_active_records-Keeps host rs)
  apply_active_records-Keeps host (_ ∷ rs) = Keeps-pure false
