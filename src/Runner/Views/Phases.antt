-- ===== src/Runner/Views/Phases.antt =====
-- src/runner.rs: what an attachment is shown, through the phases that serve it.
use afk_cli.Prelude.{
  ℕ, ◌+◌, ◌≡◌, refl, sym, ◌∙◌, List, [], ◌∷◌, ◌++◌, Bool, true, false, Option, none, some, is_empty,
  is_none, not, ◌&&◌, length, ltb, ok, err, IoError, IoResult, String, arith,
}
use afk_cli.Limits.{max_pty_bytes_per_tick}
use afk_cli.Ipc.{Record}
use afk_cli.ByteQueue.{flush}
use afk_cli.Runner.State.{
  Connection, Runner, Host, ReadOutcome, received, read_failed, Events, wrote_pty, wrote_stream,
  recorded,
}
use afk_cli.Runner.Monad.{Run, ◌>>◌, pure, modify, when, trace_event, record_attached}
use afk_cli.Runner.Connections.{read_slot, read_records}
use afk_cli.Runner.Pty.{
  take_output, ReadError, not_ready, closed, again, fatal, read_error, drain_failed, drain_pty_loop,
  drain_pty,
}
use afk_cli.Runner.Loop.{
  set_active, flush_result, flush_pty, pty_phase, flush_active, active_records, read_active,
  drain_phase, active_phase, wants_read,
}
use afk_cli.Runner.Ensures.{
  Ensures, Keeps, Outcome, Ensures-bind, Ensures-gets, Ensures-when, Ensures-record_attached,
  Keeps-bind, Keeps-seq, Keeps-when, Keeps-modify, Keeps-pure, Keeps-fail, Keeps-gets, Keeps-if,
  Ensures-map,
}
use afk_cli.Runner.Views.Log.{Attended-same}
use afk_cli.Runner.Views.Lasting.{Lasts, trace-Keeps, trace_error-Keeps, apply_active_records-Keeps}
use afk_cli.Runner.Views.Seen.{
  Attends, Sees, Seen-none, Seen-effect, Sees-Lasts, take_output-Seen, flush-Attended, Seen-active,
}

drop_active-Sees : Keeps Sees (set_active none)
drop_active-Sees = Keeps-modify _ (λ s h. Seen-none h)

take_output-Sees : (bytes : List ℕ) → Keeps Sees (modify (take_output bytes))
unfolding take_output
take_output-Sees bytes = Keeps-modify _ (λ s h. take_output-Seen bytes h)

drain_failed-Sees :
    (e : ReadError) (error : IoError) (retry : Run (Unit {0}))
    → Keeps Sees retry
    → Keeps Sees (drain_failed e error retry)
unfolding drain_failed
drain_failed-Sees not_ready error retry h = Keeps-pure tt
drain_failed-Sees closed error retry h = trace_error-Keeps Sees-Lasts _ error
drain_failed-Sees again error retry h = h
drain_failed-Sees fatal error retry h =
    Keeps-seq _ _ (trace_error-Keeps Sees-Lasts _ error) (Keeps-fail error)

drain_pty_loop-Sees : (reads : List ReadOutcome) (n : ℕ) → Keeps Sees (drain_pty_loop n reads)
unfolding drain_pty_loop
drain_pty_loop-Sees [] n = Keeps-pure tt
drain_pty_loop-Sees (received bytes ∷ reads) n =
    Keeps-if (ltb n max_pty_bytes_per_tick) _ _
      (Keeps-if (is_empty bytes) _ _ (trace-Keeps Sees-Lasts _)
        (Keeps-seq _ _ (take_output-Sees bytes) (drain_pty_loop-Sees reads (n + length bytes))))
      (Keeps-pure tt)
drain_pty_loop-Sees (read_failed error ∷ reads) n =
    Keeps-if (ltb n max_pty_bytes_per_tick) _ _
      (drain_failed-Sees (read_error error) error _ (drain_pty_loop-Sees reads n)) (Keeps-pure tt)

-- Where there is no attachment, the record may say so.
unattached :
    (a : Option Connection) (es : List _) → is_none a ≡ true → Attends a (es ++ recorded false ∷ [])
unattached none es e = tt
unattached (some c) es e = ground arith

record_none-Sees :
    (host : Host)
    → Ensures
        (λ s. (is_none s.active ≡ true) × Sees s)
        (record_attached host false)
        (λ _. Sees)
        Sees
record_none-Sees host =
    Ensures-record_attached host false
      (λ s h. Seen-effect (recorded false) refl (unattached s.active s.effects h.0) h.1)
      (λ s h. h.1)

and-right : (a b : Bool) → (a && b) ≡ true → b ≡ true
and-right true b e = e
and-right false b e = ground arith

unattached-Lasts : Lasts (λ s. (is_none s.active ≡ true) × Sees s)
unattached-Lasts = record {
  emits = λ s e n h. (h.0, Sees-Lasts.emits s e n h.1);
  queues = λ s q h. (h.0, Sees-Lasts.queues s q h.1);
}

lost-Sees :
    (host : Host) (had lost : Bool) (event : String)
    → Ensures
        (λ s. (lost ≡ (had && is_none s.active)) × Sees s)
        (when lost (trace_event event >> record_attached host false))
        (λ _. Sees)
        Sees
lost-Sees host had lost event =
    Ensures-when lost _
      (λ e.
        Ensures-bind {Q = λ _ s. (is_none s.active ≡ true) × Sees s} _ _
          (Ensures-map (λ s h. (and-right had _ (sym h.0 ∙ e), h.1)) (λ _ s h. h) (λ s h. h.1)
            (trace-Keeps unattached-Lasts event))
          (λ _. record_none-Sees host))
      (λ e s h. h.1)

gone-Sees :
    (host : Host) (gone : Bool)
    → Ensures
        (λ s. (gone ≡ is_none s.active) × Sees s)
        (when gone (record_attached host false))
        (λ _. Sees)
        Sees
gone-Sees host gone =
    Ensures-when gone _
      (λ e. record { at = λ s h. (record_none-Sees host).at s (sym h.0 ∙ e, h.1) }) (λ e s h. h.1)

pub drain_phase-Sees : (host : Host) → Keeps Sees (drain_phase host)
unfolding drain_phase drain_pty
drain_phase-Sees host = Ensures-bind {A = Bool} {Q = λ _. Sees} _ _ (Keeps-gets _) λ had.
    Ensures-bind {Q = λ _. Sees} _ _ (drain_pty_loop-Sees host.pty_reads 0) λ _.
      Ensures-bind {A = Bool} {Q = λ lost s. (lost ≡ (had && is_none s.active)) × Sees s} _ _
        (Ensures-gets _ (λ s h. (refl, h))) (λ lost. lost-Sees host had lost _)

flush_result-Sees : (event : String) (r : IoResult (Unit {0})) → Keeps Sees (flush_result event r)
unfolding flush_result
flush_result-Sees event (ok u) = Keeps-pure tt
flush_result-Sees event (err e) =
    Keeps-seq _ _ (trace_error-Keeps Sees-Lasts event e) drop_active-Sees

flush_pty-Sees : (host : Host) → Keeps Sees (flush_pty host)
unfolding flush_pty
flush_pty-Sees host = record {
  at = λ s h.
      let f = flush s.pty_input host.pty_writes in
      let s' = record s { pty_input = f.queue } in
      (flush_result-Sees _ f.result).at _
        (Sees-Lasts.emits s' (wrote_pty f.sent) tt (Sees-Lasts.queues s f.queue h));
}

pub pty_phase-Sees : (host : Host) (events : Events) → Keeps Sees (pty_phase host events)
unfolding pty_phase
pty_phase-Sees host events =
    Keeps-bind _ _ (Keeps-gets _) (λ w. Keeps-when w _ (flush_pty-Sees host))

flush_slot-Sees :
    (host : Host) (a : Option Connection) (s : Runner)
    → s.active ≡ a
    → Sees s
    → Outcome (λ _. Sees) Sees (flush_active host a s).0 (flush_active host a s).1
unfolding flush_active pure
flush_slot-Sees host none s e h = h
flush_slot-Sees host (some c) s e h =
    let f = flush c.output host.active_writes in
    (flush_result-Sees _ f.result).at _ (
      Seen-effect (wrote_stream c.stream f.sent) refl
        (flush-Attended c s.effects host.active_writes (rw e at h.attends)) h)

flush_active-Sees : (host : Host) → Keeps Sees (λ s. flush_active host s.active s)
flush_active-Sees host = record { at = λ s h. flush_slot-Sees host s.active s refl h }

active_records-Sees :
    (host : Host) (r : IoResult (List Record)) → Keeps Sees (active_records host r)
unfolding active_records
active_records-Sees host (ok rs) =
    Keeps-bind _ _ (apply_active_records-Keeps Sees-Lasts host rs) (λ accepted.
      Keeps-when (not accepted) _ (Keeps-seq _ _ (trace-Keeps Sees-Lasts _) drop_active-Sees))
active_records-Sees host (err e) = Keeps-seq _ _ (trace_error-Keeps Sees-Lasts _ e) drop_active-Sees

pub read_records-stream :
    (o : ReadOutcome) (c : Connection) → (read_records o c).1.stream ≡ c.stream
unfolding read_records
read_records-stream (received bytes) c = ground arith
read_records-stream (read_failed e) c = ground arith

pub read_records-output :
    (o : ReadOutcome) (c : Connection) → (read_records o c).1.output ≡ c.output
unfolding read_records
read_records-output (received bytes) c = ground arith
read_records-output (read_failed e) c = ground arith

read_slot-Attends :
    (o : ReadOutcome) (a : Option Connection) (es : List _)
    → Attends a es
    → Attends (read_slot o a).1 es
read_slot-Attends o none es h = tt
read_slot-Attends o (some c) es h =
    Attended-same c (read_records o c).1 es (read_records-stream o c) (read_records-output o c) h

read_active-Sees : (host : Host) → Keeps Sees (read_active host)
unfolding read_active
read_active-Sees host = record {
  at = λ s h.
      (active_records-Sees host (read_slot host.active_read s.active).0).at _
        (Seen-active (read_slot-Attends host.active_read s.active s.effects h.attends) h);
}

active_phase-Sees : (host : Host) (w : Bool) (e : Events) → Keeps Sees (active_phase host w e)
unfolding active_phase
active_phase-Sees host w e = Keeps-seq _ _ (Keeps-when e.hangup _ (trace-Keeps Sees-Lasts _)) (
    Keeps-seq _ _ (Keeps-when e.error _ (trace-Keeps Sees-Lasts _)) (
      Keeps-seq _ _ (Keeps-when (e.writable && w) _ (flush_active-Sees host)) (
        Keeps-bind _ _ (Keeps-gets _) λ present.
          Keeps-seq _ _ (Keeps-when (present && wants_read e) _ (read_active-Sees host)) (
            Ensures-bind {A = Bool} {Q = λ gone s. (gone ≡ is_none s.active) × Sees s} _ _
              (Ensures-gets _ (λ s h. (refl, h))) (λ gone. gone-Sees host gone)))))

pub had_active-Sees :
    (host : Host) (had w : Bool) (e : Events) → Keeps Sees (when had (active_phase host w e))
had_active-Sees host had w e = Keeps-when had _ (active_phase-Sees host w e)
