-- ===== src/Attach/Sends/Opening.antt =====
-- src/attach.rs: a client opens the session first.
use afk_cli.Prelude.{
  ℕ, ◌-◌, ◌≡◌, refl, List, [], Bool, true, false, ltb, if◌then◌else◌, length, length-append, arith,
  Bool-cases, inl, inr, ok, IoResult, Result-cases, ◌⊎◌, io_error, would_block,
}
use afk_cli.Limits.{max_attachment_queue_bytes}
use afk_cli.Ipc.{Record, attach, encode}
use afk_cli.Ipc.Codec.{IsDimension}
use afk_cli.Terminal.{window_size}
use afk_cli.Session.Cautious.{window_size-IsSize, IsSize}
use afk_cli.ByteQueue.{ByteQueue, WriteOutcome, flush}
use afk_cli.ByteQueue
use afk_cli.Prelude.Exec.{pure, fail}
use afk_cli.Prelude.Ensures.{
  Ensures, Outcome, Ensures-bind, Ensures-lift, Ensures-pure, Ensures-fact, Ensures-map,
  Ensures-fail,
}
use afk_cli.Attach.{Client, push_encoded, queue_encoded, Surroundings, queue_record, TraceLine}
use afk_cli.Attach.Loop.{dimensions, attach_live, Preparation}
use afk_cli.Attach.Frame.{prepare-Keeps}
use afk_cli.Attach.Frame.Rounds.{run_rounds-Keeps}
use afk_cli.Attach.Sends.Underway.{Talking, pushed-in_order, Talking-Steady, Talking-Aloof}

-- A client that has queued nothing.
pub record Silent (queue : ByteQueue) (queued : List Record) (sent : List ℕ) : Type 0 where
  pub no_bytes : queue ≡ ByteQueue.new_queue max_attachment_queue_bytes
  pub no_records : queued ≡ []
  pub no_sent : sent ≡ []

abbrev pub Fresh : Client → Type 0
Fresh s = Silent s.socket_output s.queued s.sent

abbrev pub Started : Client → Type 0
Started s = Talking s ⊎ Fresh s

Fresh-traces : (s : Client) (t : List TraceLine) → Fresh s → Fresh (record s { traced = t })
Fresh-traces s t h = h

-- What a push leaves of a fresh client.
abbrev Opened : Bool → Client → Type 0
Opened true s = Talking s
Opened false s = Fresh s

first_push :
    (rows columns : ℕ) (encoded : List ℕ)
    → IsDimension rows
    → IsDimension columns
    → encode (attach rows columns) ≡ ok encoded
    → Ensures Fresh (push_encoded (attach rows columns) encoded) Opened (λ _. Started)
unfolding push_encoded ByteQueue.push
first_push rows columns encoded hr hc e = record { at = λ s h. pushed s h }
  where
    pushed :
        (s : Client)
        → Fresh s
        → let out = push_encoded (attach rows columns) encoded s in
          Outcome Opened (λ _. Started) out.0 out.1
    pushed s h =
        elim (Bool-cases
          (ltb (s.socket_output.limit - length s.socket_output.bytes) (length encoded))) [
            | inl full ↦
                rw full
                  (record { no_bytes = h.no_bytes; no_records = h.no_records; no_sent = h.no_sent })
            | inr room ↦ rw room (record {
              in_order =
                  pushed-in_order s.sent s.socket_output.bytes encoded s.queued
                    (attach rows columns) (rw (h.no_sent, h.no_bytes, h.no_records) refl) e;
              bounded = ground (arith, length-append s.socket_output.bytes encoded, h.no_bytes);
              same_limit = rw h.no_bytes refl;
              open_first = rw h.no_records ((hr, hc, tt));
            })
          ]

first_record :
    (rows columns : ℕ)
    → IsDimension rows
    → IsDimension columns
    → Ensures Fresh (queue_record (attach rows columns)) (λ _. Talking) (λ _. Started)
unfolding queue_record queue_encoded
first_record rows columns hr hc =
    Ensures-bind {Q = λ encoded s. (encode (attach rows columns) ≡ ok encoded) × Fresh s} _ _
      (Ensures-lift _ (λ encoded s e h. (e, h)) (λ er s _ h. inr h))
      (λ encoded.
        Ensures-fact
          (λ e. Ensures-bind _ _ (first_push rows columns encoded hr hc e) fits_or_fails))
  where
    fits_or_fails :
        (fits : Bool)
        → Ensures
            (Opened fits)
            (if fits then pure tt else fail (io_error would_block))
            (λ _. Talking)
            (λ _. Started)
    fits_or_fails true = Ensures-pure tt (λ s h. h)
    fits_or_fails false = Ensures-fail _ (λ s h. inr h)

dimensions-IsSize : (answer : IoResult (ℕ × ℕ)) → IsSize (dimensions (window_size answer))
dimensions-IsSize answer = elim (Result-cases (window_size answer)) [
  | inl (size, e) ↦ rw e (window_size-IsSize answer size e)
  | inr (er, e) ↦ rw e ((omega arith, omega arith), (omega arith, omega arith))
]

pub attach_live-Started :
    (prepared : Preparation) (size : IoResult (ℕ × ℕ)) (ws : List Surroundings)
    → Ensures Fresh (attach_live prepared size ws) (λ _. Started) (λ _. Started)
unfolding attach_live
attach_live-Started prepared size ws =
    let d = dimensions-IsSize size in
    Ensures-bind {Q = λ _. Fresh} _ _
      (Ensures-map (λ s h. h) (λ a s h. h) (λ e s h. inr h) (prepare-Keeps Fresh-traces prepared))
      (λ _. Ensures-bind _ _ (first_record _ _ d.0 d.1) (λ _.
        Ensures-map (λ s h. h) (λ a s h. inl h) (λ e s h. inl h)
          (run_rounds-Keeps Talking-Steady Talking-Aloof ws)))
