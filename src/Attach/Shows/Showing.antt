-- ===== src/Attach/Shows/Showing.antt =====
-- src/attach.rs: the records of a read are shown.
use afk_cli.Prelude.{
  ℕ, ◌≡◌, refl, ap, sym, ◌∙◌, inl, List, [], ◌∷◌, ◌++◌, append_assoc, append-nil, Bool, true, false,
  All, All-append, Option, none, some, io_error, invalid_data, ◌||◌, take, drop, take-append-drop,
  ok_not_err,
}
use afk_cli.Ipc.{ProcessExit, Record, attach, input, output, resize, stop, exit}
use afk_cli.Ipc.Codec.{IsRecord}
use afk_cli.Prelude.Exec.{◌>>=◌, pure, fail, lift, attempt}
use afk_cli.Prelude.Ensures.{
  Keeps, Ensures-pure, Ensures-fail, Ensures-lift, Ensures-if, Ensures-attempt, Ensures-bind,
}
use afk_cli.Attach.{
  Client, event, event_error, modify, trace, again, finished, Surroundings, OutputAnswer,
  all_written, cut_off, ReadAnswer, SocketEvent,
}
use afk_cli.Attach.Loop.{
  when, written, write_result, read_records, show, flush_shown, show_records, take_records,
  read_phase,
}
use afk_cli.Attach.Frame.{Ensures-modify, trace-Keeps, when-Keeps}
use afk_cli.Attach.Shows.Records.{
  outputs, outputs-append, IsOutput, Pending, ShowsAll, ShowsSome, Looks, Idle, Broken, Turned,
  Step, Idle-Steady, Looks-Steady, Broken-Steady, Looks-Broken,
}
use afk_cli.Attach.Shows.Reading.{Found, broken, read_records-Step, leave-Step}

module _ (rs : List Record) (valid : All IsRecord rs) where
  -- One record of output more is shown.
  shown-Pending :
      (t : List ℕ) (bytes : List ℕ) (rest : List Record) (buffer shown : List ℕ)
      → Pending rs t (output bytes ∷ rest) buffer shown
      → Pending rs t rest buffer (shown ++ bytes)
  shown-Pending t bytes rest buffer shown p = record {
    done = p.done ++ output bytes ∷ [];
    left = p.left;
    split = append_assoc p.done (output bytes ∷ []) (rest ++ p.left) ∙ p.split;
    only = All-append IsOutput p.done (output bytes ∷ []) p.only (tt, tt);
    shows =
        ap (λ l. l ++ bytes) p.shows
        ∙ sym (
            outputs-append p.done (output bytes ∷ [])
            ∙ ap (λ l. outputs p.done ++ l) (append-nil bytes));
    follows = p.follows;
    is_partial = p.is_partial;
  }

  all_shown :
      (t : List ℕ) (status : ProcessExit) (rest : List Record) (buffer shown visible : List ℕ)
      → Pending rs t (exit status ∷ rest) buffer shown
      → visible ≡ shown
      → ShowsAll rs status shown visible
  all_shown t status rest buffer shown visible p same = record {
    done = p.done;
    left = rest ++ p.left;
    split = p.split;
    only = p.only;
    shows = p.shows;
    flushed = same;
  }

  weaken : (b : Bool) (new : List Record) (s : Client) → Looks rs b new s → Looks rs true new s
  weaken true new s h = h
  weaken false new s h = h.0

  -- A record that is cut off.
  cut_off-Some :
      (n : ℕ) (t bytes : List ℕ) (rest : List Record) (buffer shown : List ℕ)
      → Pending rs t (output bytes ∷ rest) buffer shown
      → ShowsSome rs (shown ++ take n bytes)
  cut_off-Some n t bytes rest buffer shown p =
      let whole = shown-Pending t bytes rest buffer shown p in
      record {
        done = whole.done;
        left = rest ++ whole.left;
        lost = drop n bytes;
        split = whole.split;
        only = whole.only;
        shows =
            append_assoc shown (take n bytes) (drop n bytes)
            ∙ ap (λ l. shown ++ l) (take-append-drop n bytes)
            ∙ whole.shows;
      }

  answer-Step :
      (a : OutputAnswer) (b : Bool) (bytes : List ℕ) (rest : List Record)
      → Step rs
          (Looks rs b (output bytes ∷ rest))
          (modify (λ s. record s { shown = s.shown ++ written bytes a }) >>= λ _.
            lift (write_result a))
          (λ _. Looks rs true rest)
  answer-Step all_written b bytes rest =
      Ensures-bind {Q = λ _. Looks rs true rest} _ _
        (Ensures-modify (λ s. record s { shown = s.shown ++ bytes })
          (λ s h t e. shown-Pending t bytes rest s.decoder.buffer s.shown (weaken b _ s h t e)))
        (λ _. Ensures-lift _ (λ a s _ h. h) (λ e s k h. absurd (ok_not_err k)))
  answer-Step (cut_off n er) b bytes rest =
      Ensures-bind {Q = λ _. Broken rs} _ _
        (Ensures-modify (λ s. record s { shown = s.shown ++ take n bytes })
          (λ s h t e. cut_off-Some n t bytes rest s.decoder.buffer s.shown (weaken b _ s h t e)))
        (λ _. Ensures-lift _ (λ a s k h. absurd (ok_not_err (sym k))) (λ e s _ h. h))

  module _ (w : Surroundings) where
    show-Step :
        (b : Bool) (bytes : List ℕ) (rest : List Record)
        → Step rs (Looks rs b (output bytes ∷ rest)) (show w bytes) (λ _. Looks rs true rest)
    unfolding show
    show-Step b bytes rest = answer-Step (w.write_output bytes) b bytes rest

    flush_shown-Step :
        (b : Bool) (new : List Record)
        → Step rs (Looks rs b new) (flush_shown w) (λ _. Looks rs false new)
    unfolding flush_shown
    flush_shown-Step b new =
        Ensures-bind {Q = λ _. Looks rs b new} _ _
          (Ensures-lift _ (λ a s _ h. h) (λ e s _ h. Looks-Broken rs b new s h))
          (λ _.
            Ensures-modify (λ s. record s { visible = s.shown }) (λ s h. (weaken b new s h, refl)))

    refuse-Step :
        (b : Bool) (new : List Record)
        → Step rs
            (Looks rs b new)
            (trace (event "invalid_runner_response") >>= λ _. fail (io_error invalid_data))
            (Turned rs)
    refuse-Step b new =
        Ensures-bind {Q = λ _. Looks rs b new} _ _
          (broken rs valid (Looks-Broken rs b new) (trace-Keeps (Looks-Steady rs b new) _))
          (λ _. Ensures-fail (io_error invalid_data) (λ s h. Looks-Broken rs b new s h))

    show_records-Step :
        (b : Bool) (new : List Record) → Step rs (Looks rs b new) (show_records w b new) (Turned rs)
    unfolding show_records when
    show_records-Step true [] =
        Ensures-bind _ _ (flush_shown-Step true []) (λ _. Ensures-pure again (λ s h. h))
    show_records-Step false [] =
        Ensures-bind {Q = λ _. Idle rs} _ _ (Ensures-pure tt (λ s h. h))
          (λ _. Ensures-pure again (λ s h. h))
    show_records-Step b (output bytes ∷ rest) =
        Ensures-bind _ _ (show-Step b bytes rest) (λ _. show_records-Step true rest)
    show_records-Step b (exit status ∷ rest) =
        Ensures-bind {Q = λ _. Looks rs b (exit status ∷ rest)} _ _
          (broken rs valid (Looks-Broken rs b _) (trace-Keeps (Looks-Steady rs b _) _))
          (λ _. Ensures-bind _ _ (flush_shown-Step b (exit status ∷ rest)) (λ _.
            Ensures-pure (finished status) (λ s h t e.
              inl (all_shown t status rest s.decoder.buffer s.shown s.visible (h.0 t e) h.1))))
    show_records-Step b (attach rows columns ∷ rest) = refuse-Step b _
    show_records-Step b (input bytes ∷ rest) = refuse-Step b _
    show_records-Step b (resize rows columns ∷ rest) = refuse-Step b _
    show_records-Step b (stop ∷ rest) = refuse-Step b _

    take_records-Step :
        (o : Option (List Record)) → Step rs (Found rs valid o) (take_records w o) (Turned rs)
    unfolding take_records
    take_records-Step none = leave-Step rs valid _
    take_records-Step (some new) = show_records-Step false new

    pub read_phase-Step : (e : SocketEvent) → Step rs (Idle rs) (read_phase w e) (Turned rs)
    unfolding read_phase
    read_phase-Step e =
        let quiet = λ (b : Bool) (m : _) (k : Keeps (Idle rs) m).
          broken rs valid (Looks-Broken rs false []) (when-Keeps b m k) in
        Ensures-if (e.readable || e.hangup || e.error) _ _
          (λ _.
            Ensures-bind {Q = λ _. Idle rs} _ _
              (quiet e.hangup _ (trace-Keeps (Idle-Steady rs) (event "runner_socket_poll_hangup")))
              (λ _.
                Ensures-bind {Q = λ _. Idle rs} _ _
                  (quiet e.error _
                    (trace-Keeps (Idle-Steady rs) (event "runner_socket_poll_error")))
                  (λ _. Ensures-bind _ _ (reading w.read) take_records-Step)))
          (λ _. Ensures-pure again (λ s h. h))
      where
        reading :
            (a : ReadAnswer)
            → Step rs
                (Idle rs)
                (attempt (read_records a) pure (λ error.
                  trace (event_error "runner_socket_read_failed" error) >>= λ _. fail error))
                (Found rs valid)
        reading a =
            Ensures-attempt _ _ _ (read_records-Step rs valid a) (λ o. Ensures-pure o (λ s h. h))
              (λ er.
                Ensures-bind {Q = λ _. Broken rs} _ _ (trace-Keeps (Broken-Steady rs) _)
                  (λ _. Ensures-fail er (λ s h. h)))
