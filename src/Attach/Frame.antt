-- ===== src/Attach/Frame.antt =====
-- src/attach.rs: an invariant of the client survives the parts of the loop whose changes it survives.
pub mod Rounds
use afk_cli.Session.Cautious.{window_size-IsSize}
use afk_cli.Ipc.Codec.{IsDimension}
use afk_cli.Prelude.{
  Result-cases, inl, inr, ℕ, ◌≡◌, List, [], ◌∷◌, ◌++◌, Bool, true, false, if◌then◌else◌, ok, err,
  IoError, IoResult, io_error, arith, ◌∙◌, refl, ◌||◌, ◌==◌, is_empty, Option, none, some, Result,
  invalid_data, invalid_input, would_block,
}
use afk_cli.Ipc.{
  ProcessExit, Record, attach, input, output, resize, stop, exit, code, encode, DecodeError,
}
use afk_cli.ByteQueue.{WriteOutcome}
use afk_cli.Terminal.{window_size}
use afk_cli.Prelude.Exec.{Exec, ◌>>=◌, pure, fail, lift, attempt}
use afk_cli.Prelude.Ensures.{
  Ensures, Keeps, Ensures-fact, Ensures-pure, Ensures-fail, Ensures-lift, Ensures-if,
  Ensures-attempt, Ensures-bind,
}
use afk_cli.Attach.{
  Client, TraceLine, event, event_error, InputAnswer, typed, closed, disconnected, failed, nothing,
  Act, modify, gets, trace, Turn, again, finished, proceed, leave, is_too_large, push_encoded,
  queue_encoded, queue_record, resize_to, receive_input, attachment_closed, Surroundings,
  poll_error, polled, PollAnswer, SocketEvent, is_intr, ReadAnswer, got, read_error, is_retried,
}
use afk_cli.Attach.Loop.{
  when, set_closed, stdin_phase, flush_socket, flushed, write_phase, is_done, end_phase, decode,
  decoded, take_read, read_capacity, read_records, show, flush_shown, show_records, take_records,
  read_phase, serve, poll_phase, attend, round, run_rounds, attach_live, dimensions, Preparation,
  prepare, inspected,
}

module _ {A : Type 0} {P : Client → Type 0} where
  pub pure-Keeps : (a : A) → Keeps P (pure a)
  pure-Keeps a = Ensures-pure a (λ s h. h)

  pub fail-Keeps : (e : IoError) → Keeps P (fail {A = A} e)
  fail-Keeps e = Ensures-fail e (λ s h. h)

  pub lift-Keeps : (r : IoResult A) → Keeps P (lift r)
  lift-Keeps r = Ensures-lift r (λ a s _ h. h) (λ e s _ h. h)

  pub gets-Keeps : (f : Client → A) → Keeps P (gets f)
  unfolding gets
  gets-Keeps f = record { at = λ s h. h }

  pub if-Keeps : (b : Bool) (m n : Act A) → Keeps P m → Keeps P n → Keeps P (if b then m else n)
  if-Keeps b m n hm hn = Ensures-if b m n (λ _. hm) (λ _. hn)

module _ {A B : Type 0} {P : Client → Type 0} where
  pub bind-Keeps :
      (m : Act A) (f : A → Act B) → Keeps P m → ((a : A) → Keeps P (f a)) → Keeps P (m >>= f)
  bind-Keeps m f hm hf = Ensures-bind m f hm hf

pub Ensures-modify :
    {P : Client → Type 0} {Q : Unit {0} → Client → Type 0} {E : IoError → Client → Type 0}
    (f : Client → Client)
    → ((s : Client) → P s → Q tt (f s))
    → Ensures P (modify f) Q E
unfolding modify
Ensures-modify f h = record { at = h }

module _ {P : Client → Type 0} where
  pub modify-Keeps : (f : Client → Client) → ((s : Client) → P s → P (f s)) → Keeps P (modify f)
  unfolding modify
  modify-Keeps f h = record { at = h }

  pub when-Keeps : (b : Bool) (m : Act (Unit {0})) → Keeps P m → Keeps P (when b m)
  unfolding when
  when-Keeps b m h = if-Keeps b _ _ h (pure-Keeps tt)

-- The changes of the part of the loop that does not read, which queues records with `R`.
pub record Steady (P : Client → Type 0) (R : Record → Type 0) : Type 0 where
  pub traces : (s : Client) (t : List TraceLine) → P s → P (record s { traced = t })
  pub closes : (s : Client) (b : Bool) → P s → P (record s { stdin_closed = b })
  pub pushes :
      (r : Record) (encoded : List ℕ) (s : Client)
      → R r
      → encode r ≡ ok encoded
      → P s
      → P (push_encoded r encoded s).1
  pub flushes : (writes : List WriteOutcome) (s : Client) → P s → P (flush_socket writes s).1
  pub inputs : (bytes : List ℕ) → R (input bytes)
  pub sizes : (rows columns : ℕ) → IsDimension rows → IsDimension columns → R (resize rows columns)

-- The trace does not matter to `P`.
module _ {P : Client → Type 0}
    (traces : (s : Client) (t : List TraceLine) → P s → P (record s { traced = t })) where
  pub traced-Keeps : (line : TraceLine) → Keeps P (trace line)
  unfolding trace
  traced-Keeps line = modify-Keeps _ (λ s h. either s.tracing s h)
    where
      either :
          (b : Bool) (s : Client)
          → P s
          → P (if b then record s { traced = s.traced ++ line ∷ [] } else s)
      either true s h = traces s _ h
      either false s h = h

  inspected-Keeps : (line : _) (r : IoResult (Unit {0})) → Keeps P (inspected line r)
  unfolding inspected
  inspected-Keeps line (ok _) = pure-Keeps tt
  inspected-Keeps line (err e) =
      bind-Keeps _ _ (traced-Keeps (event_error line e)) (λ _. fail-Keeps e)

  pub prepare-Keeps : (p : Preparation) → Keeps P (prepare p)
  unfolding prepare
  prepare-Keeps p = bind-Keeps _ _ (lift-Keeps p.set_nonblocking) (λ _.
      bind-Keeps _ _ (inspected-Keeps _ p.enter_raw)
        (λ _. bind-Keeps _ _ (traced-Keeps _) (λ _. inspected-Keeps _ p.register)))

module _ {P : Client → Type 0} {R : Record → Type 0} (steady : Steady P R) where
  pub trace-Keeps : (line : TraceLine) → Keeps P (trace line)
  trace-Keeps = traced-Keeps steady.traces

  pub leave-Keeps : (line : _) → Keeps P (leave line)
  unfolding leave
  leave-Keeps line = bind-Keeps _ _ (trace-Keeps (event line)) (λ _. pure-Keeps _)

  fail_with-Keeps :
      {A : Type 0} (line : TraceLine) (e : IoError) → Keeps P (trace line >>= λ _. fail {A = A} e)
  fail_with-Keeps line e = bind-Keeps _ _ (trace-Keeps line) (λ _. fail-Keeps e)

  push_encoded-Keeps :
      (r : Record) (bs : List ℕ) → R r → encode r ≡ ok bs → Keeps P (push_encoded r bs)
  unfolding push_encoded
  push_encoded-Keeps r bs k e = record { at = λ s h. steady.pushes r bs s k e h }

  queue_encoded-Keeps :
      (r : Record) (bs : List ℕ) → R r → encode r ≡ ok bs → Keeps P (queue_encoded r bs)
  unfolding queue_encoded
  queue_encoded-Keeps r bs k e =
      bind-Keeps _ _ (push_encoded-Keeps r bs k e)
        (λ fits. if-Keeps fits _ _ (pure-Keeps tt) (fail-Keeps (io_error would_block)))

  pub queue_record-Keeps : (r : Record) → R r → Keeps P (queue_record r)
  unfolding queue_record
  queue_record-Keeps r k = if-Keeps (is_too_large r) _ _ (fail-Keeps (io_error invalid_input)) (
      Ensures-bind {Q = λ bs s. (encode r ≡ ok bs) × P s} _ _
        (Ensures-lift _ (λ bs s e h. (e, h)) (λ er s _ h. h))
        (λ bs. Ensures-fact (λ e. queue_encoded-Keeps r bs k e)))

  resize_to-Keeps : (answer : IoResult (ℕ × ℕ)) → Keeps P (resize_to (window_size answer))
  unfolding resize_to
  resize_to-Keeps answer = elim (Result-cases (window_size answer)) [
    | inl (size, e) ↦
        let small = window_size-IsSize answer size e in
        rw e (
          bind-Keeps _ _
            (queue_record-Keeps (resize size.0 size.1) (steady.sizes size.0 size.1 small.0 small.1))
            (λ _. trace-Keeps (event "resize_queued")))
    | inr (er, e) ↦ rw e (trace-Keeps (event "resize_dimensions_unavailable"))
  ]

  receive_input-Keeps : (a : InputAnswer) → Keeps P (receive_input a)
  unfolding receive_input
  receive_input-Keeps (typed bs) =
      bind-Keeps _ _ (queue_record-Keeps (input bs) (steady.inputs bs)) (λ _. pure-Keeps false)
  receive_input-Keeps closed = pure-Keeps true
  receive_input-Keeps disconnected = pure-Keeps true
  receive_input-Keeps (failed e) = fail-Keeps e
  receive_input-Keeps nothing = pure-Keeps false

  set_closed-Keeps : (b : Bool) → Keeps P (set_closed b)
  unfolding set_closed
  set_closed-Keeps b =
      bind-Keeps _ _ (when-Keeps b _ (trace-Keeps _))
        (λ _. modify-Keeps _ (λ s h. steady.closes s b h))

  stdin_phase-Keeps : (a : InputAnswer) (b : Bool) → Keeps P (stdin_phase a b)
  unfolding stdin_phase
  stdin_phase-Keeps a true = pure-Keeps tt
  stdin_phase-Keeps a false =
      Ensures-attempt _ _ _ (receive_input-Keeps a) set_closed-Keeps (λ e. fail_with-Keeps _ e)

  pub flush_socket-Keeps : (writes : List WriteOutcome) → Keeps P (flush_socket writes)
  unfolding flush_socket
  flush_socket-Keeps writes = record { at = λ s h. steady.flushes writes s h }

  flushed-Keeps : (r : IoResult (Unit {0})) → Keeps P (flushed r)
  unfolding flushed
  flushed-Keeps (ok _) = pure-Keeps again
  flushed-Keeps (err e) =
      if-Keeps (attachment_closed e.kind) _ _ (bind-Keeps _ _ (trace-Keeps _) (λ _. pure-Keeps _))
        (fail_with-Keeps _ e)

  pub write_phase-Keeps : (b : Bool) (writes : List WriteOutcome) → Keeps P (write_phase b writes)
  unfolding write_phase
  write_phase-Keeps b writes =
      if-Keeps b _ _ (bind-Keeps _ _ (flush_socket-Keeps writes) flushed-Keeps) (pure-Keeps again)

  pub end_phase-Keeps : (b : Bool) → Keeps P (end_phase b)
  unfolding end_phase
  end_phase-Keeps b = if-Keeps b _ _ (leave-Keeps _) (pure-Keeps again)

  -- The part of a round before `poll`.
  pub before_poll-Keeps :
      (w : Surroundings) (b : Bool)
      → Keeps P (when w.sigwinch (resize_to (window_size w.tcgetwinsize)))
        × Keeps P (stdin_phase w.try_recv b)
  before_poll-Keeps w b =
      (when-Keeps w.sigwinch _ (resize_to-Keeps _), stdin_phase-Keeps w.try_recv b)
