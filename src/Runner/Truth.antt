-- ===== src/Runner/Truth.antt =====
-- src/runner.rs, the event loop: the tail and the terminal's input over a whole run.
use afk_cli.Prelude.{
  ℕ, ◌-◌, ◌≡◌, refl, ap, sym, ◌∙◌, List, [], ◌∷◌, ◌++◌, append_assoc, append-nil, Bool, true, false,
  if◌then◌else◌, length, All, All-append, arith, ltb, inl, inr, Bool-cases,
}
use afk_cli.Limits.{output_tail_bytes}
use afk_cli.Ipc.Codec.{IsDimension}
use afk_cli.ByteQueue.{ByteQueue, WriteOutcome, flush}
use afk_cli.ByteQueue.Order.{flush-IsParted}
use afk_cli.ByteQueue
use afk_cli.OutputTail.{OutputTail, snapshot, is_truncated}
use afk_cli.OutputTail.Suffix.{
  last_bytes, IsTailOf, extend-IsTailOf, capacity-extend, empty-IsTailOf,
}
use afk_cli.Runner.State.{
  start, Host, Effect, traced, traced_error, read_pty, took_input, wrote_pty, wrote_stream, resized,
  recorded,
}
use afk_cli.Runner.Loop.{run_loop}
use afk_cli.Runner.Ensures.{Keeps-after}
use afk_cli.Runner.Frame.{IsQuiet, Survives}
use afk_cli.Runner.Frame.Rounds.{run_loop-Holds}
use afk_cli.Runner.Logs.{
  read_bytes, taken_bytes, written_bytes, read_bytes-append, taken_bytes-append,
  written_bytes-append, read_bytes-quiet, taken_bytes-quiet, written_bytes-quiet,
}

-- The tail is that of what was read.
record IsTold (t : OutputTail) (q : ByteQueue) (es : List Effect) : Type 0 where
  same_capacity : t.capacity ≡ output_tail_bytes
  tail_of : IsTailOf (read_bytes es) t

-- What was written and what is queued is what was taken.
abbrev IsFed : OutputTail → ByteQueue → List Effect → Type 0
IsFed t q es = written_bytes es ++ q.bytes ≡ taken_bytes es

abbrev pub IsSized : Effect → Type 0
IsSized (resized rows columns) = IsDimension rows × IsDimension columns
IsSized _ = Unit {0}

abbrev AreSized : OutputTail → ByteQueue → List Effect → Type 0
AreSized t q es = All IsSized es

if_both :
    (Q : List Effect → Type 0) (b : Bool) (es fs : List Effect)
    → Q es
    → Q fs
    → Q (if b then es else fs)
if_both Q true es fs h k = h
if_both Q false es fs h k = k

IsTold-same :
    {t : OutputTail} {q q' : ByteQueue} {es es' : List Effect}
    → read_bytes es' ≡ read_bytes es
    → IsTold t q es
    → IsTold t q' es'
IsTold-same {t} e h = record { same_capacity = h.same_capacity; tail_of = rw e h.tail_of }

IsTold-Survives : Survives IsTold
IsTold-Survives = record {
  quiet = λ t q es e quiet h. IsTold-same (read_bytes-quiet es e quiet) h;
  takes_output = λ t q es bytes h. record {
    same_capacity = capacity-extend t bytes ∙ h.same_capacity;
    tail_of =
        rw (read_bytes-append es (read_pty bytes ∷ []), append-nil bytes)
          (extend-IsTailOf (read_bytes es) bytes t (omega (arith, h.same_capacity)) h.tail_of);
  };
  takes_input = λ t q es bytes h.
      if_both (λ fs. IsTold t (ByteQueue.push q bytes).0 fs) (ByteQueue.push q bytes).1 _ _
        (IsTold-same (read_bytes-append es (took_input bytes ∷ []) ∙ append-nil (read_bytes es)) h)
        (IsTold-same refl h);
  flushes = λ t q es os h. IsTold-same (read_bytes-append es _ ∙ append-nil (read_bytes es)) h;
  resizes = λ t q es rows columns _ _ h.
      IsTold-same (read_bytes-append es _ ∙ append-nil (read_bytes es)) h;
}

fed-takes_input :
    (q : ByteQueue) (es : List Effect) (bytes : List ℕ)
    → written_bytes es ++ q.bytes ≡ taken_bytes es
    → let (queue, fits) = ByteQueue.push q bytes in
      let es' = if fits then es ++ took_input bytes ∷ [] else es in
      written_bytes es' ++ queue.bytes ≡ taken_bytes es'
unfolding ByteQueue.push
fed-takes_input q es bytes h = elim (Bool-cases (ltb (q.limit - length q.bytes) (length bytes))) [
  | inl full ↦ rw full h
  | inr room ↦
      rw
        (
          room,
          written_bytes-append es (took_input bytes ∷ []),
          append-nil (written_bytes es),
          taken_bytes-append es (took_input bytes ∷ []),
          append-nil bytes,
        )
        (sym (append_assoc (written_bytes es) q.bytes bytes) ∙ ap (λ l. l ++ bytes) h)
]

fed-flushes :
    (q : ByteQueue) (es : List Effect) (os : List WriteOutcome)
    → written_bytes es ++ q.bytes ≡ taken_bytes es
    → written_bytes (es ++ wrote_pty (flush q os).sent ∷ []) ++ (flush q os).queue.bytes
      ≡ taken_bytes (es ++ wrote_pty (flush q os).sent ∷ [])
fed-flushes q es os h =
    let sent = (flush q os).sent in
    rw
      (
        written_bytes-append es (wrote_pty sent ∷ []),
        append-nil sent,
        taken_bytes-append es (wrote_pty sent ∷ []),
        append-nil (taken_bytes es),
      )
      (append_assoc (written_bytes es) sent (flush q os).queue.bytes
        ∙ ap (λ l. written_bytes es ++ l) (flush-IsParted q os).parted
        ∙ h)

IsFed-Survives : Survives IsFed
IsFed-Survives = record {
  quiet = λ t q es e quiet h.
      ap (λ l. l ++ q.bytes) (written_bytes-quiet es e quiet)
      ∙ h
      ∙ sym (taken_bytes-quiet es e quiet);
  takes_output = λ t q es bytes h.
      rw
        (
          written_bytes-append es (read_pty bytes ∷ []),
          append-nil (written_bytes es),
          taken_bytes-append es (read_pty bytes ∷ []),
          append-nil (taken_bytes es),
        )
        h;
  takes_input = λ t q es bytes h. fed-takes_input q es bytes h;
  flushes = λ t q es os h. fed-flushes q es os h;
  resizes = λ t q es rows columns _ _ h.
      rw
        (
          written_bytes-append es (resized rows columns ∷ []),
          append-nil (written_bytes es),
          taken_bytes-append es (resized rows columns ∷ []),
          append-nil (taken_bytes es),
        )
        h;
}

quiet-IsSized : (e : Effect) → IsQuiet e → IsSized e
quiet-IsSized (resized rows columns) h = absurd h
quiet-IsSized (traced event) h = tt
quiet-IsSized (traced_error event e) h = tt
quiet-IsSized (read_pty bytes) h = tt
quiet-IsSized (took_input bytes) h = tt
quiet-IsSized (wrote_pty bytes) h = tt
quiet-IsSized (wrote_stream stream bytes) h = tt
quiet-IsSized (recorded value) h = tt

IsSized-more :
    (es : List Effect) (e : Effect) → IsSized e → All IsSized es → All IsSized (es ++ e ∷ [])
IsSized-more es e h hs = All-append IsSized es (e ∷ []) hs (h, tt)

sized-Survives : Survives AreSized
sized-Survives = record {
  quiet = λ t q es e quiet h. IsSized-more es e (quiet-IsSized e quiet) h;
  takes_output = λ t q es bytes h. IsSized-more es (read_pty bytes) tt h;
  takes_input = λ t q es bytes h.
      if_both (All IsSized) (ByteQueue.push q bytes).1 _ _ (IsSized-more es (took_input bytes) tt h)
        h;
  flushes = λ t q es os h. IsSized-more es (wrote_pty (flush q os).sent) tt h;
  resizes = λ t q es rows columns hr hc h. IsSized-more es (resized rows columns) (hr, hc) h;
}

IsTold-says :
    (t : OutputTail) (q : ByteQueue) (es : List Effect)
    → IsTold t q es
    → (snapshot t ≡ last_bytes output_tail_bytes (read_bytes es))
      × (is_truncated t ≡ ltb output_tail_bytes (length (read_bytes es)))
IsTold-says t q es h =
    (rw h.same_capacity at h.tail_of.suffix, rw h.same_capacity at h.tail_of.lossy)

run_loop-IsTold :
    (tracing : Bool) (hosts : List Host)
    → let s = (run_loop hosts (start tracing)).1 in IsTold s.tail s.pty_input s.effects
run_loop-IsTold tracing hosts =
    Keeps-after {s = start tracing} (run_loop-Holds IsTold IsTold-Survives hosts)
      (record { same_capacity = refl; tail_of = empty-IsTailOf output_tail_bytes })

-- After any rounds, whatever happened in them, a replay would show the last 256 KiB of all that the
-- terminal has put out, and the tail is marked truncated exactly if there was more than that.
pub run_loop-tail :
    (tracing : Bool) (hosts : List Host)
    → let s = (run_loop hosts (start tracing)).1 in
      (snapshot s.tail ≡ last_bytes output_tail_bytes (read_bytes s.effects))
      × (is_truncated s.tail ≡ ltb output_tail_bytes (length (read_bytes s.effects)))
run_loop-tail tracing hosts = IsTold-says _ _ _ (run_loop-IsTold tracing hosts)

-- After any rounds, what was written to the terminal and then what is still queued for it are the
-- accepted input, in order: none is lost, repeated or changed, whichever attachments it came from.
pub run_loop-input :
    (tracing : Bool) (hosts : List Host)
    → let s = (run_loop hosts (start tracing)).1 in
      written_bytes s.effects ++ s.pty_input.bytes ≡ taken_bytes s.effects
run_loop-input tracing hosts = Keeps-after (run_loop-Holds IsFed IsFed-Survives hosts) refl

-- The terminal is only ever given a size from 1 to 4096 in both directions.
pub run_loop-resizes :
    (tracing : Bool) (hosts : List Host) → All IsSized (run_loop hosts (start tracing)).1.effects
run_loop-resizes tracing hosts = Keeps-after (run_loop-Holds AreSized sized-Survives hosts) tt
