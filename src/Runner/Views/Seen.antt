-- ===== src/Runner/Views/Seen.antt =====
-- src/runner.rs: what an attachment is shown, through the single steps of the loop.
use afk_cli.Prelude.{
  ℕ, ◌≡◌, refl, ap, sym, ◌∙◌, List, [], ◌∷◌, ◌++◌, append-nil, Option, none, some, arith, ok, err,
  IoResult, chunks,
}
use afk_cli.Limits.{output_tail_bytes, max_ipc_payload_bytes}
use afk_cli.Ipc.Framing.{wires}
use afk_cli.ByteQueue.{WriteOutcome, flush}
use afk_cli.ByteQueue.Order.{flush-IsParted}
use afk_cli.OutputTail.{OutputTail, extend}
use afk_cli.OutputTail.Suffix.{IsTailOf, extend-IsTailOf, capacity-extend}
use afk_cli.Runner.State.{
  Connection, Runner, Effect, traced, traced_error, read_pty, took_input, wrote_pty, wrote_stream,
  resized, recorded,
}
use afk_cli.Runner.Connections.{enqueue_output}
use afk_cli.Runner.Pty.{forward}
use afk_cli.Runner.Logs.{read_bytes, read_bytes-append}
use afk_cli.Runner.Delivery.{records_of, queued_behind, enqueue_output-eq, concat-records_of}
use afk_cli.Runner.Views.Log.{Attended, Attended-effect}
use afk_cli.Runner.Views.Lasting.{IsNeutral, Lasts}

abbrev pub Attends : Option Connection → List Effect → Type 0
Attends none es = Unit {0}
Attends (some c) es = Attended c es

-- A candidate has been queued nothing.
abbrev pub IsUnheard : Option Connection → Type 0
IsUnheard none = Unit {0}
IsUnheard (some c) = c.output.bytes ≡ []

pub record Seen (t : OutputTail) (active candidate : Option Connection) (es : List Effect)
    : Type 0 where
  pub same_capacity : t.capacity ≡ output_tail_bytes
  pub tail_of : IsTailOf (read_bytes es) t
  pub unheard : IsUnheard candidate
  pub attends : Attends active es

abbrev pub Sees : Runner → Type 0
Sees s = Seen s.tail s.active s.candidate s.effects

pub Seen-none :
    {t : OutputTail} {a k : Option Connection} {es : List Effect} → Seen t a k es → Seen t none k es
Seen-none h = record {
  same_capacity = h.same_capacity;
  tail_of = h.tail_of;
  unheard = h.unheard;
  attends = tt;
}

pub Seen-candidate :
    {t : OutputTail} {a k k' : Option Connection} {es : List Effect}
    → IsUnheard k'
    → Seen t a k es
    → Seen t a k' es
Seen-candidate u h = record {
  same_capacity = h.same_capacity;
  tail_of = h.tail_of;
  unheard = u;
  attends = h.attends;
}

pub Seen-active :
    {t : OutputTail} {a a' k : Option Connection} {es : List Effect}
    → Attends a' es
    → Seen t a k es
    → Seen t a' k es
Seen-active attends h = record {
  same_capacity = h.same_capacity;
  tail_of = h.tail_of;
  unheard = h.unheard;
  attends = attends;
}

-- An effect that reads nothing, with what it does to the attachment.
pub Seen-effect :
    {t : OutputTail} {a a' k : Option Connection} {es : List Effect} (e : Effect)
    → read_bytes (e ∷ []) ≡ []
    → Attends a' (es ++ e ∷ [])
    → Seen t a k es
    → Seen t a' k (es ++ e ∷ [])
Seen-effect {t} {es = es} e none_read attends h = record {
  same_capacity = h.same_capacity;
  tail_of = rw (read_bytes-append es (e ∷ []), none_read, append-nil (read_bytes es)) h.tail_of;
  unheard = h.unheard;
  attends = attends;
}

pub neutral-read_bytes : (e : Effect) → IsNeutral e → read_bytes (e ∷ []) ≡ []
neutral-read_bytes (traced event) h = refl
neutral-read_bytes (traced_error event e) h = refl
neutral-read_bytes (took_input bytes) h = refl
neutral-read_bytes (wrote_pty bytes) h = refl
neutral-read_bytes (resized rows columns) h = refl
neutral-read_bytes (read_pty bytes) h = absurd h
neutral-read_bytes (wrote_stream stream bytes) h = absurd h
neutral-read_bytes (recorded value) h = absurd h

neutral-Attended :
    (e : Effect) (c : Connection) (es : List Effect)
    → IsNeutral e
    → Attended c es
    → Attended c (es ++ e ∷ [])
neutral-Attended (traced event) c es h a =
    Attended-effect _ c c es [] refl tt (sym (append-nil c.output.bytes)) refl a
neutral-Attended (traced_error event e) c es h a =
    Attended-effect _ c c es [] refl tt (sym (append-nil c.output.bytes)) refl a
neutral-Attended (took_input bytes) c es h a =
    Attended-effect _ c c es [] refl tt (sym (append-nil c.output.bytes)) refl a
neutral-Attended (wrote_pty bytes) c es h a =
    Attended-effect _ c c es [] refl tt (sym (append-nil c.output.bytes)) refl a
neutral-Attended (resized rows columns) c es h a =
    Attended-effect _ c c es [] refl tt (sym (append-nil c.output.bytes)) refl a
neutral-Attended (read_pty bytes) c es h a = absurd h
neutral-Attended (wrote_stream stream bytes) c es h a = absurd h
neutral-Attended (recorded value) c es h a = absurd h

neutral-Attends :
    (e : Effect) (o : Option Connection) (es : List Effect)
    → IsNeutral e
    → Attends o es
    → Attends o (es ++ e ∷ [])
neutral-Attends e none es h a = tt
neutral-Attends e (some c) es h a = neutral-Attended e c es h a

pub Sees-Lasts : Lasts Sees
Sees-Lasts = record {
  emits = λ s e n h.
      Seen-effect e (neutral-read_bytes e n) (neutral-Attends e s.active s.effects n h.attends) h;
  queues = λ s q h. record {
    same_capacity = h.same_capacity;
    tail_of = h.tail_of;
    unheard = h.unheard;
    attends = h.attends;
  };
}

-- Output that is forwarded; an attachment whose queue is full is gone.
forward-Attends :
    (bytes : List ℕ) (o : Option Connection) (es : List Effect)
    → Attends o es
    → Attends (forward bytes o) (es ++ read_pty bytes ∷ [])
unfolding forward
forward-Attends bytes none es h = tt
forward-Attends bytes (some c) es h = by (enqueue_output c bytes).0 refl
  where
    by :
        (r : IoResult (Unit {0}))
        → (enqueue_output c bytes).0 ≡ r
        → Attends
            (elim r [ ok _ ↦ some (enqueue_output c bytes).1 | err _ ↦ none ])
            (es ++ read_pty bytes ∷ [])
    by (err e) k = tt
    by (ok _) k = rw (enqueue_output-eq c bytes k) (
        Attended-effect (read_pty bytes) c (queued_behind c (wires (records_of bytes))) es
          (chunks max_ipc_payload_bytes bytes) refl tt refl
          (concat-records_of bytes ∙ sym (append-nil bytes)) h)

pub take_output-Seen :
    (bytes : List ℕ) {t : OutputTail} {a k : Option Connection} {es : List Effect}
    → Seen t a k es
    → Seen (extend t bytes) (forward bytes a) k (es ++ read_pty bytes ∷ [])
take_output-Seen bytes {t} {a} {es = es} h = record {
  same_capacity = capacity-extend t bytes ∙ h.same_capacity;
  tail_of =
      rw (read_bytes-append es (read_pty bytes ∷ []), append-nil bytes)
        (extend-IsTailOf (read_bytes es) bytes t (omega (arith, h.same_capacity)) h.tail_of);
  unheard = h.unheard;
  attends = forward-Attends bytes a es h.attends;
}

pub flush-Attended :
    (c : Connection) (es : List Effect) (os : List WriteOutcome)
    → Attended c es
    → Attended
        (record c { output = (flush c.output os).queue })
        (es ++ wrote_stream c.stream (flush c.output os).sent ∷ [])
flush-Attended c es os a =
    Attended-effect _ c _ es [] refl refl
      (ap (λ l. l ++ (flush c.output os).queue.bytes) (append-nil (flush c.output os).sent)
        ∙ (flush-IsParted c.output os).parted
        ∙ sym (append-nil c.output.bytes))
      refl a
