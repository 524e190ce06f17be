-- ===== src/Attach/Shows/Reading.antt =====
-- src/attach.rs: what a read brings.
use afk_cli.Prelude.{
  ℕ, ◌≤◌, ◌≡◌, refl, ap, sym, ◌∙◌, inr, List, [], ◌++◌, append_assoc, false, length, All, arith, ok,
  err, Result, is_empty, ◌==◌, Option, none, some, io_error, invalid_data,
}
use afk_cli.Ipc.{
  ProcessExit, code, signal, Record, attach, input, output, resize, stop, exit, Decoder,
  DecodeError, empty_decoder, remaining_capacity, push,
}
use mathlib.Core.Path.{subst}
use afk_cli.Ipc
use afk_cli.Ipc.Codec.{IsRecord}
use afk_cli.Ipc.Framing.{IsPartial, receive, receive-Drained}
use afk_cli.Ipc.Stream.{All-left}
use afk_cli.Prelude.Ensures.{
  Ensures, Ensures-pure, Ensures-fail, Ensures-if, Ensures-bind, Ensures-map,
}
use afk_cli.Attach.{
  Client, event, Act, finished, leave, attachment_closed, is_retried, ReadAnswer, got, read_error,
}
use afk_cli.Attach.Loop.{decode, decoded, take_read, read_capacity, read_records}
use afk_cli.Attach.Frame.{trace-Keeps, gets-Keeps}
use afk_cli.Attach.Shows.Records.{
  Pending, part, Looks, Idle, Broken, Turned, Step, Idle-Steady, Looks-Broken,
}

receive-fits :
    (d d' : Decoder) (bytes : List ℕ) (new : List Record)
    → receive d bytes ≡ (ok new, d')
    → length bytes ≤ remaining_capacity d
unfolding receive Ipc.push
receive-fits d d' bytes new e = ground arith

received-Pending :
    (rs : List Record) (d d' : Decoder) (bytes t shown : List ℕ) (new : List Record)
    → All IsRecord rs
    → Pending rs (bytes ++ t) [] d.buffer shown
    → receive d bytes ≡ (ok new, d')
    → Pending rs t new d'.buffer shown
received-Pending rs d d' bytes t shown new valid p e =
    let drained =
      receive-Drained p.left d.buffer bytes t (All-left p.done p.left rs p.split valid)
        (append_assoc d.buffer bytes t ∙ p.follows) (receive-fits d d' bytes new e) in
    let same = sym e ∙ drained.result in
    let same_new : new ≡ drained.done = cc in
    let same_buffer : d'.buffer ≡ drained.kept =
      ap (λ (o : Result DecodeError (List Record) × Decoder). o.1.buffer) same in
    record {
      done = p.done;
      left = drained.left;
      split =
          ap (λ l. p.done ++ l) (ap (λ l. l ++ drained.left) same_new ∙ drained.split) ∙ p.split;
      only = p.only;
      shows = p.shows;
      follows = ap (λ l. l ++ t) same_buffer ∙ drained.follows;
      is_partial = subst (λ b. IsPartial b drained.left) (sym same_buffer) drained.is_partial;
    }

module _ (rs : List Record) (valid : All IsRecord rs) where
  abbrev Decoded : Result DecodeError (List Record) → Client → Type 0
  Decoded (ok new) s = Looks rs false new s
  Decoded (err e) s = Broken rs s

  decode-Step : (bytes : List ℕ) → Step rs (Idle rs) (decode bytes) Decoded
  unfolding decode
  decode-Step bytes = record {
    at = λ s h. split s h (receive s.decoder bytes).0 (receive s.decoder bytes).1 refl;
  }
    where
      split :
          (s : Client)
          → Idle rs s
          → (r : Result DecodeError (List Record)) (d : Decoder) → receive s.decoder bytes ≡ (r, d)
          → Decoded r (record s { decoder = d; received = s.received ++ bytes })
      split s h (ok new) d e = (
        λ t g.
            received-Pending rs s.decoder d bytes t s.shown new valid
              (h.0 (bytes ++ t) (sym (append_assoc s.received bytes t) ∙ g)) e,
        h.1,
      )
      split s h (err er) d e =
          λ t g. part (h.0 (bytes ++ t) (sym (append_assoc s.received bytes t) ∙ g))

  -- `none`: the runner has closed the connection.
  abbrev pub Found : Option (List Record) → Client → Type 0
  Found none s = Idle rs s
  Found (some new) s = Looks rs false new s

  decoded-Step : (r : Result DecodeError (List Record)) → Step rs (Decoded r) (decoded r) Found
  unfolding decoded
  decoded-Step (ok new) = Ensures-pure (some new) (λ s h. h)
  decoded-Step (err e) = Ensures-fail (io_error invalid_data) (λ s h. h)

  take_read-Step : (a : ReadAnswer) → Step rs (Idle rs) (take_read a) Found
  unfolding take_read
  take_read-Step (got bytes) =
      Ensures-if (is_empty bytes) _ _ (λ _. Ensures-pure none (λ s h. h))
        (λ _. Ensures-bind _ _ (decode-Step bytes) decoded-Step)
  take_read-Step (read_error e) =
      Ensures-if (is_retried e.kind) _ _ (λ _. Ensures-pure (some []) (λ s h. h))
        (λ _.
          Ensures-if (attachment_closed e.kind) _ _ (λ _. Ensures-pure none (λ s h. h))
            (λ _. Ensures-fail e (λ s h. Looks-Broken rs false [] s h)))

  pub broken :
      {A : Type 0} {P : Client → Type 0} {m : Act A} {Q : A → Client → Type 0}
      → ((s : Client) → P s → Broken rs s)
      → Ensures P m Q (λ _. P)
      → Step rs P m Q
  broken h k = Ensures-map (λ s p. p) (λ a s q. q) (λ e s p. h s p) k

  pub read_records-Step : (a : ReadAnswer) → Step rs (Idle rs) (read_records a) Found
  unfolding read_records
  read_records-Step a =
      Ensures-bind {Q = λ _. Idle rs} _ _
        (broken (Looks-Broken rs false []) (gets-Keeps read_capacity))
        (λ capacity.
          Ensures-if (capacity == 0) _ _
            (λ _. Ensures-fail (io_error invalid_data) (λ s h. Looks-Broken rs false [] s h))
            (λ _. take_read-Step a))

  pub left-early : (s : Client) → Idle rs s → Turned rs (finished (code 0)) s
  left-early s h t e = inr (h.0 t e, refl, h.1)

  pub leave-Step : (line : _) → Step rs (Idle rs) (leave line) (Turned rs)
  unfolding leave
  leave-Step line =
      Ensures-bind {Q = λ _. Idle rs} _ _
        (broken (Looks-Broken rs false []) (trace-Keeps (Idle-Steady rs) (event line)))
        (λ _. Ensures-pure (finished (code 0)) left-early)
