-- ===== src/Attach/Frame/Rounds.antt =====
-- src/attach.rs: an invariant that neither the reading nor the rest of the loop can break holds for the
-- whole of it.
use afk_cli.Prelude.{
  ℕ, List, [], ◌∷◌, Bool, true, false, ok, err, io_error, ◌||◌, ◌==◌, is_empty, Option, none, some,
  Result, invalid_data,
}
use afk_cli.Ipc.{Record, attach, input, output, resize, stop, exit, Decoder, DecodeError}
use afk_cli.Prelude.Exec.{◌>>=◌, fail}
use afk_cli.Prelude.Ensures.{Keeps, Ensures-attempt}
use afk_cli.Attach.{
  Client, event, event_error, Act, trace, Turn, again, finished, proceed, Surroundings, poll_error,
  polled, PollAnswer, SocketEvent, is_intr, ReadAnswer, got, read_error, is_retried,
  attachment_closed,
}
use afk_cli.Attach.Loop.{
  is_done, decode, decoded, take_read, read_capacity, read_records, show, flush_shown, show_records,
  take_records, read_phase, serve, poll_phase, attend, round, run_rounds,
}
use afk_cli.Attach.Frame.{
  Steady, pure-Keeps, fail-Keeps, lift-Keeps, gets-Keeps, if-Keeps, bind-Keeps, modify-Keeps,
  when-Keeps, trace-Keeps, leave-Keeps, write_phase-Keeps, end_phase-Keeps, before_poll-Keeps,
}

pub record Aloof (P : Client → Type 0) : Type 0 where
  pub decodes :
      (s : Client) (d : Decoder) (bytes : List ℕ)
      → P s
      → P (record s { decoder = d; received = bytes })
  pub shows : (s : Client) (bytes : List ℕ) → P s → P (record s { shown = bytes })
  pub flushes : (s : Client) (bytes : List ℕ) → P s → P (record s { visible = bytes })

module _ {P : Client → Type 0} {R : Record → Type 0} (steady : Steady P R) (aloof : Aloof P) where
  decode-Keeps : (bytes : List ℕ) → Keeps P (decode bytes)
  unfolding decode
  decode-Keeps bytes = record { at = λ s h. aloof.decodes s _ _ h }

  decoded-Keeps : (r : Result DecodeError (List Record)) → Keeps P (decoded r)
  unfolding decoded
  decoded-Keeps (ok rs) = pure-Keeps (some rs)
  decoded-Keeps (err e) = fail-Keeps _

  take_read-Keeps : (a : ReadAnswer) → Keeps P (take_read a)
  unfolding take_read
  take_read-Keeps (got bytes) =
      if-Keeps (is_empty bytes) _ _ (pure-Keeps none)
        (bind-Keeps _ _ (decode-Keeps bytes) decoded-Keeps)
  take_read-Keeps (read_error e) =
      if-Keeps (is_retried e.kind) _ _ (pure-Keeps (some []))
        (if-Keeps (attachment_closed e.kind) _ _ (pure-Keeps none) (fail-Keeps e))

  read_records-Keeps : (a : ReadAnswer) → Keeps P (read_records a)
  unfolding read_records
  read_records-Keeps a = bind-Keeps _ _ (gets-Keeps read_capacity) (λ capacity.
      if-Keeps (capacity == 0) _ _ (fail-Keeps (io_error invalid_data)) (take_read-Keeps a))

  module _ (w : Surroundings) where
    show-Keeps : (bytes : List ℕ) → Keeps P (show w bytes)
    unfolding show
    show-Keeps bytes =
        bind-Keeps _ _ (modify-Keeps _ (λ s h. aloof.shows s _ h)) (λ _. lift-Keeps _)

    flush_shown-Keeps : Keeps P (flush_shown w)
    unfolding flush_shown
    flush_shown-Keeps =
        bind-Keeps _ _ (lift-Keeps _) (λ _. modify-Keeps _ (λ s h. aloof.flushes s _ h))

    refuse-Keeps :
        Keeps P
          (trace (event "invalid_runner_response") >>= λ _. fail {A = Turn} (io_error invalid_data))
    refuse-Keeps = bind-Keeps _ _ (trace-Keeps steady _) (λ _. fail-Keeps _)

    show_records-Keeps : (b : Bool) (rs : List Record) → Keeps P (show_records w b rs)
    unfolding show_records
    show_records-Keeps b [] =
        bind-Keeps _ _ (when-Keeps b _ flush_shown-Keeps) (λ _. pure-Keeps again)
    show_records-Keeps b (output bytes ∷ rest) =
        bind-Keeps _ _ (show-Keeps bytes) (λ _. show_records-Keeps true rest)
    show_records-Keeps b (exit status ∷ rest) =
        bind-Keeps _ _ (trace-Keeps steady _)
          (λ _. bind-Keeps _ _ flush_shown-Keeps (λ _. pure-Keeps (finished status)))
    show_records-Keeps b (attach rows columns ∷ rest) = refuse-Keeps
    show_records-Keeps b (input bytes ∷ rest) = refuse-Keeps
    show_records-Keeps b (resize rows columns ∷ rest) = refuse-Keeps
    show_records-Keeps b (stop ∷ rest) = refuse-Keeps

    take_records-Keeps : (o : Option (List Record)) → Keeps P (take_records w o)
    unfolding take_records
    take_records-Keeps none = leave-Keeps steady _
    take_records-Keeps (some rs) = show_records-Keeps false rs

    read_phase-Keeps : (e : SocketEvent) → Keeps P (read_phase w e)
    unfolding read_phase
    read_phase-Keeps e =
        if-Keeps (e.readable || e.hangup || e.error) _ _
          (bind-Keeps _ _
            (when-Keeps e.hangup _ (trace-Keeps steady (event "runner_socket_poll_hangup")))
            (λ _.
              bind-Keeps _ _
                (when-Keeps e.error _ (trace-Keeps steady (event "runner_socket_poll_error")))
                (λ _.
                  bind-Keeps _ _
                    (Ensures-attempt _ _ _ (read_records-Keeps w.read) pure-Keeps (λ er.
                      bind-Keeps _ _
                        (trace-Keeps steady (event_error "runner_socket_read_failed" er))
                        (λ _. fail-Keeps er)))
                    take_records-Keeps)))
          (pure-Keeps again)

    proceed-Keeps : (turn : Turn) (next : Act Turn) → Keeps P next → Keeps P (proceed turn next)
    unfolding proceed
    proceed-Keeps again next h = h
    proceed-Keeps (finished status) next h = record { at = λ s k. k }

    serve-Keeps : (e : SocketEvent) → Keeps P (serve w e)
    unfolding serve
    serve-Keeps e = bind-Keeps _ _ (write_phase-Keeps steady e.writable w.writes) (λ written.
        proceed-Keeps written _ (
          bind-Keeps _ _ (gets-Keeps is_done) (λ done.
            bind-Keeps _ _ (end_phase-Keeps steady done)
              (λ ended. proceed-Keeps ended _ (read_phase-Keeps e)))))

    poll_phase-Keeps : (p : PollAnswer) → Keeps P (poll_phase w p)
    unfolding poll_phase
    poll_phase-Keeps (poll_error e) = if-Keeps (is_intr e.kind) _ _ (pure-Keeps again) (
        bind-Keeps _ _ (trace-Keeps steady (event_error "attachment_poll_failed" e))
          (λ _. fail-Keeps e))
    poll_phase-Keeps (polled e) = serve-Keeps e

    attend-Keeps : Keeps P (attend w)
    unfolding attend
    attend-Keeps = bind-Keeps _ _ (before_poll-Keeps steady w false).0 (λ _.
        bind-Keeps _ _ (gets-Keeps (λ s. s.stdin_closed)) (λ closed.
          bind-Keeps _ _ (before_poll-Keeps steady w closed).1 (λ _. poll_phase-Keeps w.poll)))

    round-Keeps : Keeps P (round w)
    unfolding round
    round-Keeps =
        if-Keeps w.sighup _ _ (leave-Keeps steady _)
          (if-Keeps w.sigterm _ _ (leave-Keeps steady _) attend-Keeps)

  pub run_rounds-Keeps : (ws : List Surroundings) → Keeps P (run_rounds ws)
  unfolding run_rounds
  run_rounds-Keeps [] = pure-Keeps again
  run_rounds-Keeps (w ∷ ws) =
      bind-Keeps _ _ (round-Keeps w) (λ turn. proceed-Keeps w turn _ (run_rounds-Keeps ws))
