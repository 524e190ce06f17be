-- ===== src/Attach/Shows.antt =====
-- src/attach.rs: what the client shows of the records that the runner sends.
pub mod Records
mod Reading
mod Showing
use afk_cli.Prelude.{
  ℕ, ◌-◌, ◌≤◌, ◌≡◌, refl, ap, sym, ◌∙◌, ◌⊎◌, inl, inr, List, [], ◌∷◌, ◌++◌, append_assoc,
  append-nil, Bool, true, false, ltb, if◌then◌else◌, length, All, All-append, arith, Bool-cases, ok,
  err, Result, IoError, IoResult, is_empty, is_empty-eq-nil, ◌==◌, Option, none, some, io_error,
  invalid_data, ◌||◌, min,
}
use afk_cli.Ipc.{
  ProcessExit, code, signal, Record, attach, input, output, resize, stop, exit, Decoder,
  DecodeError, empty_decoder, remaining_capacity, push,
}
use afk_cli.Ipc
use afk_cli.Ipc.Codec.{IsRecord}
use afk_cli.Ipc.Framing.{wires, IsPartial, Drained, receive, receive-Drained}
use afk_cli.Ipc.Stream.{All-left, IsPartial-nil}
use afk_cli.ByteQueue.{WriteOutcome}
use afk_cli.Prelude.Exec.{Exec, ◌>>=◌, pure, fail, lift, attempt}
use afk_cli.Prelude.Ensures.{
  Ensures, Outcome, Keeps, Ensures-pure, Ensures-fail, Ensures-lift, Ensures-if, Ensures-attempt,
  Ensures-bind, Ensures-map,
}
use afk_cli.Attach.{
  Client, new_client, event, event_error, event_exit, Act, modify, gets, trace, Turn, again,
  finished, proceed, leave, queue_record, push_encoded, attachment_closed, is_retried, is_intr,
  Surroundings, ReadAnswer, got, read_error, PollAnswer, poll_error, polled, SocketEvent,
}
use afk_cli.Attach.Loop.{
  when, flush_socket, flushed, write_phase, is_done, end_phase, decode, decoded, take_read,
  read_capacity, read_records, show, flush_shown, show_records, take_records, read_phase, serve,
  poll_phase, attend, round, run_rounds, attach_live, Preparation,
}
use afk_cli.Attach.Frame.{
  Steady, Ensures-modify, trace-Keeps, prepare-Keeps, leave-Keeps, when-Keeps, gets-Keeps,
  pure-Keeps, queue_record-Keeps, write_phase-Keeps, end_phase-Keeps, before_poll-Keeps,
  flush_socket-Keeps,
}
use afk_cli.Attach.Shows.Records.{
  outputs, outputs-append, IsOutput, Pending, ShowsSome, ShowsAll, part, Given, Looks, Idle, Broken,
  Turned, Step, Idle-Steady, Looks-Steady, Broken-Steady, Looks-Broken,
}
use afk_cli.Attach.Shows.Reading.{broken, left-early, leave-Step}
use afk_cli.Attach.Shows.Showing.{read_phase-Step}

module _ (rs : List Record) (valid : All IsRecord rs) where
  proceed-Step :
      (turn : Turn) (next : Act Turn)
      → Step rs (Idle rs) next (Turned rs)
      → Step rs (Turned rs turn) (proceed turn next) (Turned rs)
  unfolding proceed
  proceed-Step again next h = h
  proceed-Step (finished status) next h = record { at = λ s k. k }

  -- The parts that leave an idle client idle.
  idle : {A : Type 0} {m : Act A} → Keeps (Idle rs) m → Step rs (Idle rs) m (λ _. Idle rs)
  idle k = broken rs valid (Looks-Broken rs false []) k

  flushed-Step : (r : IoResult (Unit {0})) → Step rs (Idle rs) (flushed r) (Turned rs)
  unfolding flushed
  flushed-Step (ok _) = Ensures-pure again (λ s h. h)
  flushed-Step (err e) =
      Ensures-if (attachment_closed e.kind) _ _
        (λ _.
          Ensures-bind {Q = λ _. Idle rs} _ _ (idle (trace-Keeps (Idle-Steady rs) _))
            (λ _. Ensures-pure (finished (code 0)) (left-early rs valid)))
        (λ _.
          Ensures-bind {Q = λ _. Idle rs} _ _ (idle (trace-Keeps (Idle-Steady rs) _))
            (λ _. Ensures-fail e (λ s h. Looks-Broken rs false [] s h)))

  write_phase-Step :
      (b : Bool) (writes : List WriteOutcome) → Step rs (Idle rs) (write_phase b writes) (Turned rs)
  unfolding write_phase
  write_phase-Step b writes =
      Ensures-if b _ _
        (λ _.
          Ensures-bind {Q = λ _. Idle rs} _ _ (idle (flush_socket-Keeps (Idle-Steady rs) writes))
            flushed-Step)
        (λ _. Ensures-pure again (λ s h. h))

  end_phase-Step : (b : Bool) → Step rs (Idle rs) (end_phase b) (Turned rs)
  unfolding end_phase
  end_phase-Step b =
      Ensures-if b _ _ (λ _. leave-Step rs valid _) (λ _. Ensures-pure again (λ s h. h))

  module _ (w : Surroundings) where
    serve-Step : (e : SocketEvent) → Step rs (Idle rs) (serve w e) (Turned rs)
    unfolding serve
    serve-Step e = Ensures-bind _ _ (write_phase-Step e.writable w.writes) (λ written.
        proceed-Step written _ (
          Ensures-bind {Q = λ _. Idle rs} _ _ (idle (gets-Keeps is_done)) (λ done.
            Ensures-bind _ _ (end_phase-Step done)
              (λ ended. proceed-Step ended _ (read_phase-Step rs valid w e)))))

    poll_phase-Step : (p : PollAnswer) → Step rs (Idle rs) (poll_phase w p) (Turned rs)
    unfolding poll_phase
    poll_phase-Step (poll_error e) =
        Ensures-if (is_intr e.kind) _ _ (λ _. Ensures-pure again (λ s h. h))
          (λ _.
            Ensures-bind {Q = λ _. Idle rs} _ _ (idle (trace-Keeps (Idle-Steady rs) _))
              (λ _. Ensures-fail e (λ s h. Looks-Broken rs false [] s h)))
    poll_phase-Step (polled e) = serve-Step e

    attend-Step : Step rs (Idle rs) (attend w) (Turned rs)
    unfolding attend
    attend-Step =
        Ensures-bind {Q = λ _. Idle rs} _ _ (idle (before_poll-Keeps (Idle-Steady rs) w false).0)
          (λ _.
            Ensures-bind {Q = λ _. Idle rs} _ _ (idle (gets-Keeps (λ s. s.stdin_closed))) (λ closed.
              Ensures-bind {Q = λ _. Idle rs} _ _
                (idle (before_poll-Keeps (Idle-Steady rs) w closed).1)
                (λ _. poll_phase-Step w.poll)))

    round-Step : Step rs (Idle rs) (round w) (Turned rs)
    unfolding round
    round-Step =
        Ensures-if w.sighup _ _ (λ _. leave-Step rs valid _)
          (λ _. Ensures-if w.sigterm _ _ (λ _. leave-Step rs valid _) (λ _. attend-Step))

  run_rounds-Step : (ws : List Surroundings) → Step rs (Idle rs) (run_rounds ws) (Turned rs)
  unfolding run_rounds
  run_rounds-Step [] = Ensures-pure again (λ s h. h)
  run_rounds-Step (w ∷ ws) =
      Ensures-bind _ _ (round-Step w) (λ turn. proceed-Step turn _ (run_rounds-Step ws))

  attach_live-Step :
      (prepared : Preparation) (size : IoResult (ℕ × ℕ)) (ws : List Surroundings)
      → Step rs (Idle rs) (attach_live prepared size ws) (Turned rs)
  unfolding attach_live
  attach_live-Step prepared size ws =
      Ensures-bind {Q = λ _. Idle rs} _ _ (idle (prepare-Keeps (Idle-Steady rs).traces prepared))
        (λ _.
          Ensures-bind {Q = λ _. Idle rs} _ _ (idle (queue_record-Keeps (Idle-Steady rs) _ tt))
            (λ _. run_rounds-Step ws))

-- What is shown when the client stands still, has returned, or has failed; `t` is still to come.
abbrev pub Shows : List Record → List ℕ → IoResult Turn → Client → Type 0
Shows rs t (ok again) s = Pending rs t [] s.decoder.buffer s.shown × (s.visible ≡ s.shown)
Shows rs t (ok (finished status)) s =
    ShowsAll rs status s.shown s.visible
    ⊎ (Pending rs t [] s.decoder.buffer s.shown × (status ≡ code 0) × (s.visible ≡ s.shown))
Shows rs t (err e) s = ShowsSome rs s.shown

-- Whatever reads, writes and signals come, a client shows the output that the runner has sent, from its
-- start, in order and nothing else. When it waits again, all records that have been received
-- whole were output, and are shown and flushed. If it returns, then with the status of the exit
-- record, with all output in front of that shown and flushed; or with 0, and then no exit record has
-- been received whole: all records that have were output, and are shown and flushed. If it
-- fails, the last record may be shown in part. The runner's records are within the limits, and
-- the bytes received are from the beginning of theirs.
pub attach_live-Shows :
    (rs : List Record) (tracing : Bool) (prepared : Preparation) (size : IoResult (ℕ × ℕ))
    (ws : List Surroundings) (t : List ℕ)
    → All IsRecord rs
    → (attach_live prepared size ws (new_client tracing)).1.received ++ t ≡ wires rs
    → let out = attach_live prepared size ws (new_client tracing) in Shows rs t out.0 out.1
attach_live-Shows rs tracing prepared size ws t valid e =
    told _ _ ((attach_live-Step rs valid prepared size ws).at (new_client tracing) start) e
  where
    start : Idle rs (new_client tracing)
    start = (
      λ u g. record {
        done = [];
        left = rs;
        split = refl;
        only = tt;
        shows = refl;
        follows = g;
        is_partial = IsPartial-nil rs;
      },
      refl,
    )

    told :
        (r : IoResult Turn) (s : Client)
        → Outcome (Turned rs) (λ _. Broken rs) r s
        → s.received ++ t ≡ wires rs
        → Shows rs t r s
    told (ok again) s h g = (h.0 t g, h.1)
    told (ok (finished status)) s h g = h t g
    told (err er) s h g = h t g
