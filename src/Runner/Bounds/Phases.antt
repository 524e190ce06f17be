-- ===== src/Runner/Bounds/Phases.antt =====
-- src/runner.rs: the bounds over output, input and the attachment.
use afk_cli.Prelude.{
  ℕ, List, [], ◌∷◌, Bool, false, Option, none, some, ok, err, IoError, IoResult, arith, String,
}
use afk_cli.Ipc.{Record, input, resize}
use afk_cli.ByteQueue.{flush}
use afk_cli.Runner.State.{Connection, Runner, Host, ReadOutcome, received, read_failed, Events}
use afk_cli.Runner.Monad.{Run, modify}
use afk_cli.Runner.Connections.{push_input, resize_pty, apply_active_records, read_slot}
use afk_cli.Runner.Pty.{
  take_output, ReadError, not_ready, closed, again, fatal, drain_failed, drain_pty_loop, drain_pty,
}
use afk_cli.Runner.Loop.{
  flush_result, flush_pty, pty_phase, flush_active, active_records, read_active, active_phase,
  drain_phase,
}
use afk_cli.Runner.Ensures.{
  Ensures, Keeps, Outcome, Ensures-bind, Ensures-modify, Ensures-trace_io_error,
}
use afk_cli.Runner.Bounds.Parts.{
  Within, StillReads, ActiveFits, ConnectionFits, push-QueueFits, flush-QueueFits,
  flush-ConnectionFits, extend-TailFits, forward-ActiveFits, read_records-StillReads,
}
use afk_cli.Runner.Bounds.Rules.{
  IsWithin, within_rules, IsWithin-pure, IsWithin-lift, IsWithin-if, IsWithin-bind, IsWithin-seq,
  IsWithin-modify,
}

take_output-IsWithin : (bytes : List ℕ) (s : Runner) → IsWithin s → IsWithin (take_output bytes s)
unfolding take_output
take_output-IsWithin bytes s h = record {
  tail_fits = extend-TailFits s.tail bytes h.tail_fits;
  input_fits = h.input_fits;
  active_fits = forward-ActiveFits bytes s.active h.active_fits;
  candidate_fits = h.candidate_fits;
}

take_output-IsWithin' : (bytes : List ℕ) → Keeps IsWithin (modify (take_output bytes))
take_output-IsWithin' bytes = IsWithin-modify _ (take_output-IsWithin bytes)

drain_failed-IsWithin :
    (e : ReadError) (error : IoError) (retry : Run (Unit {0}))
    → Keeps IsWithin retry
    → Keeps IsWithin (drain_failed e error retry)
unfolding drain_failed
drain_failed-IsWithin not_ready error retry h = search within_rules
drain_failed-IsWithin closed error retry h = search within_rules
drain_failed-IsWithin again error retry h = h
drain_failed-IsWithin fatal error retry h = search within_rules

drain_pty_loop-IsWithin :
    (reads : List ReadOutcome) (n : ℕ) → Keeps IsWithin (drain_pty_loop n reads)
unfolding drain_pty_loop
drain_pty_loop-IsWithin [] n = IsWithin-pure tt
drain_pty_loop-IsWithin (received bytes ∷ reads) n =
    search (within_rules, take_output-IsWithin', drain_pty_loop-IsWithin reads)
drain_pty_loop-IsWithin (read_failed error ∷ reads) n =
    search (within_rules, drain_failed-IsWithin, drain_pty_loop-IsWithin reads)

pub drain_phase-IsWithin : (host : Host) → Keeps IsWithin (drain_phase host)
unfolding drain_phase drain_pty
drain_phase-IsWithin host = search (within_rules, drain_pty_loop-IsWithin) depth 9

flush_result-IsWithin :
    (event : String) (r : IoResult (Unit {0})) → Keeps IsWithin (flush_result event r)
unfolding flush_result
flush_result-IsWithin event (ok u) = search within_rules
flush_result-IsWithin event (err e) = search within_rules

flush_pty-IsWithin : (host : Host) → Keeps IsWithin (flush_pty host)
unfolding flush_pty
flush_pty-IsWithin host = record {
  at = λ s h. (flush_result-IsWithin _ (flush s.pty_input host.pty_writes).result).at _ (record {
    tail_fits = h.tail_fits;
    input_fits = flush-QueueFits s.pty_input host.pty_writes h.input_fits;
    active_fits = h.active_fits;
    candidate_fits = h.candidate_fits;
  });
}

pub pty_phase-IsWithin : (host : Host) (events : Events) → Keeps IsWithin (pty_phase host events)
unfolding pty_phase
pty_phase-IsWithin host events = search (within_rules, flush_pty-IsWithin)

flush_active-IsWithin :
    (host : Host) (a : Option Connection) → ActiveFits a → Keeps IsWithin (flush_active host a)
unfolding flush_active
flush_active-IsWithin host none fits = search within_rules
flush_active-IsWithin host (some c) fits = record {
  at = λ s h. (flush_result-IsWithin _ (flush c.output host.active_writes).result).at _ (record {
    tail_fits = h.tail_fits;
    input_fits = h.input_fits;
    active_fits = flush-ConnectionFits c host.active_writes fits;
    candidate_fits = h.candidate_fits;
  });
}

push_input-IsWithin : (bytes : List ℕ) → Keeps IsWithin (push_input bytes)
unfolding push_input
push_input-IsWithin bytes = record {
  at = λ s h. record {
    tail_fits = h.tail_fits;
    input_fits = push-QueueFits s.pty_input bytes h.input_fits;
    active_fits = h.active_fits;
    candidate_fits = h.candidate_fits;
  };
}

pub resize_pty-IsWithin :
    (host : Host) (rows columns : ℕ) → Keeps IsWithin (resize_pty host rows columns)
unfolding resize_pty
resize_pty-IsWithin host rows columns =
    IsWithin-bind _ _ (IsWithin-lift _) (λ _. IsWithin-modify _ (λ s h. h))

pub apply_active_records-IsWithin :
    (host : Host) (rs : List Record) → Keeps IsWithin (apply_active_records host rs)
unfolding apply_active_records
apply_active_records-IsWithin host [] = search within_rules
apply_active_records-IsWithin host (input bytes ∷ rs) =
    IsWithin-bind (push_input bytes) _ (push_input-IsWithin bytes)
      (λ fits. IsWithin-if fits _ _ (apply_active_records-IsWithin host rs) (IsWithin-pure false))
apply_active_records-IsWithin host (resize rows columns ∷ rs) =
    IsWithin-seq _ _ (resize_pty-IsWithin host rows columns) (apply_active_records-IsWithin host rs)
apply_active_records-IsWithin host (_ ∷ rs) = search within_rules

-- Without its attachment the runner is within its bounds.
abbrev IsWithinBut : Runner → Type 0
IsWithinBut s = Within s.tail s.pty_input none s.candidate

active_failed-IsWithin :
    (host : Host) (e : IoError)
    → Ensures IsWithinBut (active_records host (err e)) (λ _. IsWithin) IsWithin
unfolding active_records
active_failed-IsWithin host e =
    Ensures-bind {Q = λ _. IsWithinBut} _ _ (Ensures-trace_io_error _ e (λ s h. h) (λ s _ h. h))
      (λ _. Ensures-modify _ (λ s h. h))

active_records-IsWithin :
    (host : Host) (rs : List Record) → Keeps IsWithin (active_records host (ok rs))
unfolding active_records
active_records-IsWithin host rs = search (within_rules, apply_active_records-IsWithin) depth 9

active_slot-IsWithin :
    (host : Host) (r : IoResult (List Record)) (c c' : Connection) (s : Runner)
    → StillReads c r c'
    → ConnectionFits c
    → IsWithin s
    → Outcome
        (λ _. IsWithin)
        IsWithin
        (active_records host r (record s { active = some c' })).0
        (active_records host r (record s { active = some c' })).1
active_slot-IsWithin host (ok rs) c c' s reads fits h =
    (active_records-IsWithin host rs).at _ (record {
      tail_fits = h.tail_fits;
      input_fits = h.input_fits;
      active_fits = ground (arith, reads, fits);
      candidate_fits = h.candidate_fits;
    })
active_slot-IsWithin host (err e) c c' s reads fits h =
    (active_failed-IsWithin host e).at _ (record {
      tail_fits = h.tail_fits;
      input_fits = h.input_fits;
      active_fits = tt;
      candidate_fits = h.candidate_fits;
    })

read_active_at :
    (host : Host) (a : Option Connection) (s : Runner)
    → ActiveFits a
    → IsWithin s
    → let (r, slot) = read_slot host.active_read a in
      Outcome
        (λ _. IsWithin)
        IsWithin
        (active_records host r (record s { active = slot })).0
        (active_records host r (record s { active = slot })).1
read_active_at host none s fits h = (active_records-IsWithin host []).at _ (record {
  tail_fits = h.tail_fits;
  input_fits = h.input_fits;
  active_fits = tt;
  candidate_fits = h.candidate_fits;
})
read_active_at host (some c) s fits h =
    active_slot-IsWithin host _ c _ s (read_records-StillReads host.active_read c fits.1) fits h

read_active-IsWithin : (host : Host) → Keeps IsWithin (read_active host)
unfolding read_active
read_active-IsWithin host = record { at = λ s h. read_active_at host s.active s h.active_fits h }

flush_slot-IsWithin : (host : Host) → Keeps IsWithin (λ s. flush_active host s.active s)
flush_slot-IsWithin host = record {
  at = λ s h. (flush_active-IsWithin host s.active h.active_fits).at s h;
}

pub active_phase-IsWithin :
    (host : Host) (w : Bool) (e : Events) → Keeps IsWithin (active_phase host w e)
unfolding active_phase
active_phase-IsWithin host w e =
    search (within_rules, flush_slot-IsWithin, read_active-IsWithin) depth 14
