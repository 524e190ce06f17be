-- ===== src/Runner/Attached/Phases.antt =====
-- src/runner.rs: the session's record in the two phases that can lose an attachment.
use afk_cli.Prelude.{
  ◌≡◌, refl, sym, ◌∙◌, Bool, true, false, Option, none, some, is_some, is_none, ◌&&◌, String, arith,
}
use afk_cli.Runner.State.{Connection, Host, Events}
use afk_cli.Runner.Monad.{◌>>◌, when, trace_event, record_attached}
use afk_cli.Runner.Pty.{drain_pty}
use afk_cli.Runner.Loop.{drain_phase, flush_active, active_phase, wants_read}
use afk_cli.Runner.Ensures.{
  Ensures, Keeps, Ensures-bind, Ensures-gets, Ensures-trace_event, Ensures-when,
  Ensures-record_attached, Keeps-when, Keeps-gets,
}
use afk_cli.Runner.Attached.Covers.{
  IsHonest, Covers, Anything, Honours, covers, trace-Covers, drain_pty_loop-Covers,
  flush_slot-Covers, read_active-Covers,
}

-- The record is the truth where an attachment was kept.
kept :
    (had : Bool) (a : Option Connection)
    → is_none a ≡ false
    → (is_some a ≡ true → had ≡ true)
    → had ≡ is_some a
kept had none e h = ground arith
kept had (some c) e h = h refl

lost-none : (a : Option Connection) → is_none a ≡ true → false ≡ is_some a
lost-none none e = refl
lost-none (some c) e = ground arith

-- With the record written as it is found, what was covered is honest.
settle :
    (host : Host) (had gone : Bool)
    → Ensures
        (λ s. (gone ≡ is_none s.active) × Covers had s)
        (when gone (record_attached host false))
        (λ _. IsHonest)
        Anything
settle host had gone =
    Ensures-when gone (record_attached host false)
      (λ e.
        Ensures-record_attached host false (λ s h. lost-none s.active (sym h.0 ∙ e)) (λ s _. tt))
      (λ e s h. h.1.0 ∙ kept had s.active (sym h.0 ∙ e) h.1.1)

lost-is_some : (had : Bool) (a : Option Connection) → (had && is_none a) ≡ true → false ≡ is_some a
lost-is_some had none e = refl
lost-is_some true (some c) e = ground arith
lost-is_some false (some c) e = ground arith

not_lost :
    (had : Bool) (a : Option Connection)
    → (had && is_none a) ≡ false
    → (is_some a ≡ true → had ≡ true)
    → had ≡ is_some a
not_lost had (some c) e h = h refl
not_lost true none e h = ground arith
not_lost false none e h = refl

settle_lost :
    (host : Host) (had lost : Bool) (event : String)
    → Ensures
        (λ s. (lost ≡ (had && is_none s.active)) × Covers had s)
        (when lost (trace_event event >> record_attached host false))
        (λ _. IsHonest)
        Anything
settle_lost host had lost event =
    Ensures-when lost _
      (λ e.
        Ensures-bind {Q = λ _ s. (lost ≡ (had && is_none s.active)) × Covers had s} _ _
          (Ensures-trace_event event (λ s h. h) (λ s _ h. h))
          (λ _.
            Ensures-record_attached host false (λ s h. lost-is_some had s.active (sym h.0 ∙ e))
              (λ s _. tt)))
      (λ e s h. h.1.0 ∙ not_lost had s.active (sym h.0 ∙ e) h.1.1)

pub drain_phase-IsHonest : (host : Host) → Honours IsHonest (drain_phase host)
unfolding drain_phase drain_pty
drain_phase-IsHonest host =
    Ensures-bind {A = Bool} {Q = λ had. Covers had} _ _ (Ensures-gets _ (λ s h. (h, λ e. e))) λ had.
      Ensures-bind {Q = λ _. Covers had} _ _
        (covers had (drain_pty_loop-Covers had host.pty_reads 0))
        λ _.
          Ensures-bind {A = Bool} {Q = λ lost s. (lost ≡ (had && is_none s.active)) × Covers had s}
            _ _ (Ensures-gets _ (λ s h. (refl, h))) (λ lost. settle_lost host had lost _)

flush_active-Covers :
    (had : Bool) (host : Host) → Keeps (Covers had) (λ s. flush_active host s.active s)
flush_active-Covers had host = record { at = λ s h. flush_slot-Covers had host s.active s refl h }

active_phase-IsHonest :
    (host : Host) (had w : Bool) (e : Events)
    → Ensures (Covers had) (active_phase host w e) (λ _. IsHonest) Anything
unfolding active_phase
active_phase-IsHonest host had w e =
    Ensures-bind {Q = λ _. Covers had} _ _ (covers had (Keeps-when e.hangup _ (trace-Covers had _)))
      λ _.
        Ensures-bind {Q = λ _. Covers had} _ _
          (covers had (Keeps-when e.error _ (trace-Covers had _)))
          λ _.
            Ensures-bind {Q = λ _. Covers had} _ _
              (covers had (Keeps-when (e.writable && w) _ (flush_active-Covers had host)))
              λ _.
                Ensures-bind {A = Bool} {Q = λ _. Covers had} _ _ (covers had (Keeps-gets _))
                  λ present.
                    Ensures-bind {Q = λ _. Covers had} _ _
                      (covers had
                        (Keeps-when (present && wants_read e) _ (read_active-Covers had host)))
                      (λ _.
                        Ensures-bind {A = Bool}
                          {Q = λ gone s. (gone ≡ is_none s.active) × Covers had s} _ _
                          (Ensures-gets _ (λ s h. (refl, h))) (λ gone. settle host had gone))

no_active : (a : Option Connection) → (is_some a ≡ true → false ≡ true) → false ≡ is_some a
no_active none h = refl
no_active (some c) h = h refl

pub had_active-IsHonest :
    (host : Host) (had w : Bool) (e : Events)
    → Ensures (Covers had) (when had (active_phase host w e)) (λ _. IsHonest) Anything
had_active-IsHonest host true w e =
    Ensures-when true _ (λ _. active_phase-IsHonest host true w e) (λ e' s h. ground arith)
had_active-IsHonest host false w e =
    Ensures-when false _ (λ e'. active_phase-IsHonest host false w e)
      (λ _ s h. h.0 ∙ no_active s.active h.1)
