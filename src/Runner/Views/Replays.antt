-- ===== src/Runner/Views/Replays.antt =====
-- src/runner.rs, `enqueue_replay`: what is queued for an attachment in front of new output.
use afk_cli.Prelude.{
  ℕ, ◌≡◌, refl, ap, sym, ◌∙◌, List, [], ◌∷◌, ◌++◌, append-nil, true, if◌then◌else◌, concat, inl,
  inr, Bool-cases, Result-cases, ok, ok_not_err, chunks,
}
use afk_cli.Limits.{output_tail_bytes, max_ipc_payload_bytes}
use afk_cli.Ipc.Framing.{wires}
use afk_cli.OutputTail.{OutputTail, snapshot, is_truncated, truncation_marker}
use afk_cli.OutputTail.Suffix.{IsTailOf}
use afk_cli.Runner.State.{Connection, Runner, Effect, recorded}
use afk_cli.Runner.Connections.{enqueue_output, enqueue_replay}
use afk_cli.Runner.Logs.{read_bytes, read_bytes-append}
use afk_cli.Runner.Delivery.{
  outputs, records_of, queued_behind, wires-append, enqueue_output-eq, concat-records_of,
}
use afk_cli.Runner.Views.Log.{past, Attended, outputs-append, concat-append}
use afk_cli.Runner.Views.Lasting.{Lasts}
use afk_cli.Runner.Views.Seen.{Sees, Sees-Lasts, neutral-read_bytes}

-- A replay that is queued, of what was read so far.
pub record Ready (queued : List ℕ) (es : List Effect) : Type 0 where
  pub pieces : List (List ℕ)
  pub sent : queued ≡ wires (outputs pieces)
  pub shows : concat pieces ≡ past (read_bytes es)

-- The tail and its note are the past.
past-tail :
    {t : OutputTail} {bytes : List ℕ}
    → t.capacity ≡ output_tail_bytes
    → IsTailOf bytes t
    → (if is_truncated t then truncation_marker ++ snapshot t else snapshot t) ≡ past bytes
past-tail c h = rw (h.lossy, h.suffix, c) refl

-- The pieces that `enqueue_replay` queues.
abbrev pub replayed : OutputTail → List (List ℕ)
replayed t =
    if is_truncated t
    then chunks max_ipc_payload_bytes truncation_marker ++ chunks max_ipc_payload_bytes (snapshot t)
    else chunks max_ipc_payload_bytes (snapshot t)

concat-replayed :
    (t : OutputTail)
    → concat (replayed t) ≡ (if is_truncated t then truncation_marker ++ snapshot t else snapshot t)
concat-replayed t = elim (Bool-cases (is_truncated t)) [
  | inl gone ↦ rw gone (
      concat-append (chunks max_ipc_payload_bytes truncation_marker) _
      ∙ ap (λ l. l ++ concat (chunks max_ipc_payload_bytes (snapshot t)))
          (concat-records_of truncation_marker)
      ∙ ap (λ l. truncation_marker ++ l) (concat-records_of (snapshot t)))
  | inr whole ↦ rw whole (concat-records_of (snapshot t))
]

pub ready :
    (c : Connection) (t : OutputTail) (es : List Effect)
    → t.capacity ≡ output_tail_bytes
    → IsTailOf (read_bytes es) t
    → (q : List ℕ) → q ≡ wires (outputs (replayed t))
    → Ready q es
ready c t es capacity tail q e = record {
  pieces = replayed t;
  sent = e;
  shows = concat-replayed t ∙ past-tail capacity tail;
}

queued_alone :
    (c : Connection) (bytes : List ℕ)
    → c.output.bytes ≡ []
    → (queued_behind c bytes).output.bytes ≡ bytes
queued_alone c bytes e = ap (λ l. l ++ bytes) e

-- A replay that succeeds has been queued, all of it.
pub enqueue_replay-bytes :
    (c : Connection) (t : OutputTail)
    → c.output.bytes ≡ []
    → (enqueue_replay c t).0 ≡ ok tt
    → (enqueue_replay c t).1.output.bytes ≡ wires (outputs (replayed t))
unfolding enqueue_replay
enqueue_replay-bytes c t empty e = elim (Bool-cases (is_truncated t)) [
  | inl gone ↦ elim (Result-cases (enqueue_output c truncation_marker).0) [
    | inl (u, marked) ↦
        let first = enqueue_output-eq c truncation_marker marked in
        let e' : (enqueue_output (enqueue_output c truncation_marker).1 (snapshot t)).0 ≡ ok tt =
          rw (gone, marked) at e in
        rw (gone, marked)
          (ap (λ d. d.output.bytes)
              (enqueue_output-eq (enqueue_output c truncation_marker).1 (snapshot t) e')
            ∙ ap (λ d. d.output.bytes ++ wires (records_of (snapshot t))) first
            ∙ ap (λ l. l ++ wires (records_of (snapshot t)))
                (queued_alone c (wires (records_of truncation_marker)) empty)
            ∙ sym (wires-append (records_of truncation_marker) (records_of (snapshot t)))
            ∙ ap wires (
                sym (
                  outputs-append (chunks max_ipc_payload_bytes truncation_marker)
                    (chunks max_ipc_payload_bytes (snapshot t)))))
    | inr (er, refused) ↦ absurd (ok_not_err (sym (rw (gone, refused) at e)))
  ]
  | inr whole ↦ rw whole (
      ap (λ d. d.output.bytes) (enqueue_output-eq c (snapshot t) (rw whole at e))
      ∙ queued_alone c (wires (records_of (snapshot t))) empty)
]

-- What holds between the replay and the attachment.
abbrev pub Primed : Connection → Runner → Type 0
Primed c s = Ready c.output.bytes s.effects × Sees s

Ready-neutral :
    (q : List ℕ) (es : List Effect) (e : Effect)
    → read_bytes (e ∷ []) ≡ []
    → Ready q es
    → Ready q (es ++ e ∷ [])
Ready-neutral q es e none_read h = record {
  pieces = h.pieces;
  sent = h.sent;
  shows = rw (read_bytes-append es (e ∷ []), none_read, append-nil (read_bytes es)) h.shows;
}

pub Primed-Lasts : (c : Connection) → Lasts (Primed c)
Primed-Lasts c = record {
  emits = λ s e n h. (
    Ready-neutral c.output.bytes s.effects e (neutral-read_bytes e n) h.0,
    Sees-Lasts.emits s e n h.1,
  );
  queues = λ s q h. (h.0, Sees-Lasts.queues s q h.1);
}

-- The attachment begins with its record.
pub Ready-Attended :
    (c : Connection) (es : List Effect)
    → Ready c.output.bytes es
    → Attended c (es ++ recorded true ∷ [])
Ready-Attended c es h = record {
  before = es;
  after = [];
  split = refl;
  alone = tt;
  pieces = h.pieces;
  sent = h.sent;
  shows = h.shows ∙ sym (append-nil (past (read_bytes es)));
}
