-- ===== src/Runner/Views/Log.antt =====
-- src/runner.rs: what an attachment is sent, in the effects since it attached.
use afk_cli.Prelude.{
  ℕ, ◌≡◌, refl, ap, sym, ◌∙◌, List, [], ◌∷◌, ◌++◌, append_assoc, length, ltb, All, All-append,
  concat, true, if◌then◌else◌,
}
use afk_cli.Limits.{output_tail_bytes}
use afk_cli.Ipc.{output}
use afk_cli.Ipc.Framing.{wires}
use afk_cli.OutputTail.{truncation_marker}
use afk_cli.OutputTail.Suffix.{last_bytes}
use afk_cli.Runner.State.{
  Connection, Effect, traced, traced_error, read_pty, took_input, wrote_pty, wrote_stream, resized,
  recorded,
}
use afk_cli.Runner.Logs.{read_bytes, read_bytes-append}
use afk_cli.Runner.Delivery.{outputs, wires-append}

-- All bytes that attachments were sent.
abbrev pub sent_bytes : List Effect → List ℕ
sent_bytes [] = []
sent_bytes (wrote_stream stream bytes ∷ es) = bytes ++ sent_bytes es
sent_bytes (_ ∷ es) = sent_bytes es

pub sent_bytes-append :
    (es fs : List Effect) → sent_bytes (es ++ fs) ≡ sent_bytes es ++ sent_bytes fs
sent_bytes-append [] fs = refl
sent_bytes-append (traced event ∷ es) fs = sent_bytes-append es fs
sent_bytes-append (traced_error event e ∷ es) fs = sent_bytes-append es fs
sent_bytes-append (read_pty bytes ∷ es) fs = sent_bytes-append es fs
sent_bytes-append (took_input bytes ∷ es) fs = sent_bytes-append es fs
sent_bytes-append (wrote_pty bytes ∷ es) fs = sent_bytes-append es fs
sent_bytes-append (wrote_stream stream bytes ∷ es) fs =
    ap (λ l. bytes ++ l) (sent_bytes-append es fs)
    ∙ sym (append_assoc bytes (sent_bytes es) (sent_bytes fs))
sent_bytes-append (resized rows columns ∷ es) fs = sent_bytes-append es fs
sent_bytes-append (recorded value ∷ es) fs = sent_bytes-append es fs

-- No other attachment comes or is sent anything.
abbrev pub IsOf : ℕ → Effect → Type 0
IsOf stream (wrote_stream other bytes) = other ≡ stream
IsOf stream (recorded value) = ⊥
IsOf stream _ = Unit {0}

-- What a terminal is shown of output that came before: the last 256 KiB, behind a note if there was more.
abbrev pub past : List ℕ → List ℕ
past bytes =
    if ltb output_tail_bytes (length bytes)
    then truncation_marker ++ last_bytes output_tail_bytes bytes
    else last_bytes output_tail_bytes bytes

-- An attachment that came behind `before`, and has been sent, or still will be, the past and all output
-- since, in order, as the payloads of `Output` records and nothing else.
pub record Attended (c : Connection) (es : List Effect) : Type 0 where
  pub before : List Effect
  pub after : List Effect
  pub split : before ++ recorded true ∷ after ≡ es
  pub alone : All (IsOf c.stream) after
  pub pieces : List (List ℕ)
  pub sent : sent_bytes after ++ c.output.bytes ≡ wires (outputs pieces)
  pub shows : concat pieces ≡ past (read_bytes before) ++ read_bytes after

pub outputs-append : (cs ds : List (List ℕ)) → outputs (cs ++ ds) ≡ outputs cs ++ outputs ds
outputs-append [] ds = refl
outputs-append (c ∷ cs) ds = ap (λ l. output c ∷ l) (outputs-append cs ds)

pub concat-append : (cs ds : List (List ℕ)) → concat (cs ++ ds) ≡ concat cs ++ concat ds
concat-append [] ds = refl
concat-append (c ∷ cs) ds =
    ap (λ l. c ++ l) (concat-append cs ds) ∙ sym (append_assoc c (concat cs) (concat ds))

-- One effect more, with what it does to the connection: `ps` is the output that is queued with it.
pub Attended-effect :
    (e : Effect) (c c' : Connection) (es : List Effect) (ps : List (List ℕ))
    → c'.stream ≡ c.stream
    → IsOf c.stream e
    → sent_bytes (e ∷ []) ++ c'.output.bytes ≡ c.output.bytes ++ wires (outputs ps)
    → concat ps ≡ read_bytes (e ∷ [])
    → Attended c es
    → Attended c' (es ++ e ∷ [])
Attended-effect e c c' es ps stream own queued read a = record {
  before = a.before;
  after = a.after ++ e ∷ [];
  split =
      sym (append_assoc a.before (recorded true ∷ a.after) (e ∷ []))
      ∙ ap (λ l. l ++ e ∷ []) a.split;
  alone = rw stream (All-append (IsOf c.stream) a.after (e ∷ []) a.alone (own, tt));
  pieces = a.pieces ++ ps;
  sent =
      ap (λ l. l ++ c'.output.bytes) (sent_bytes-append a.after (e ∷ []))
      ∙ append_assoc (sent_bytes a.after) (sent_bytes (e ∷ [])) c'.output.bytes
      ∙ ap (λ l. sent_bytes a.after ++ l) queued
      ∙ sym (append_assoc (sent_bytes a.after) c.output.bytes (wires (outputs ps)))
      ∙ ap (λ l. l ++ wires (outputs ps)) a.sent
      ∙ sym (wires-append (outputs a.pieces) (outputs ps))
      ∙ ap wires (sym (outputs-append a.pieces ps));
  shows =
      concat-append a.pieces ps
      ∙ ap (λ l. l ++ concat ps) a.shows
      ∙ append_assoc (past (read_bytes a.before)) (read_bytes a.after) (concat ps)
      ∙ ap (λ l. past (read_bytes a.before) ++ (read_bytes a.after ++ l)) read
      ∙ ap (λ l. past (read_bytes a.before) ++ l) (sym (read_bytes-append a.after (e ∷ [])));
}

-- What a connection was shown does not depend on its decoder.
pub Attended-same :
    (c c' : Connection) (es : List Effect)
    → c'.stream ≡ c.stream
    → c'.output ≡ c.output
    → Attended c es
    → Attended c' es
Attended-same c c' es stream queue a = record {
  before = a.before;
  after = a.after;
  split = a.split;
  alone = rw stream a.alone;
  pieces = a.pieces;
  sent = ap (λ q. sent_bytes a.after ++ q.bytes) queue ∙ a.sent;
  shows = a.shows;
}
