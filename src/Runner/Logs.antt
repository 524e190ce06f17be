-- ===== src/Runner/Logs.antt =====
-- src/runner.rs, the event loop: what the effects of a run say of the terminal's bytes.
use afk_cli.Prelude.{ℕ, ◌≡◌, refl, ap, sym, ◌∙◌, List, [], ◌∷◌, ◌++◌, append_assoc, append-nil}
use afk_cli.Runner.State.{
  Effect, traced, traced_error, read_pty, took_input, wrote_pty, wrote_stream, resized, recorded,
}
use afk_cli.Runner.Frame.{IsQuiet}

-- All bytes that were read from the terminal.
abbrev pub read_bytes : List Effect → List ℕ
read_bytes [] = []
read_bytes (read_pty bytes ∷ es) = bytes ++ read_bytes es
read_bytes (_ ∷ es) = read_bytes es

-- All bytes that were taken as input for the terminal, and all that were written to it.
abbrev pub taken_bytes : List Effect → List ℕ
taken_bytes [] = []
taken_bytes (took_input bytes ∷ es) = bytes ++ taken_bytes es
taken_bytes (_ ∷ es) = taken_bytes es

abbrev pub written_bytes : List Effect → List ℕ
written_bytes [] = []
written_bytes (wrote_pty bytes ∷ es) = bytes ++ written_bytes es
written_bytes (_ ∷ es) = written_bytes es

pub read_bytes-append :
    (es fs : List Effect) → read_bytes (es ++ fs) ≡ read_bytes es ++ read_bytes fs
read_bytes-append [] fs = refl
read_bytes-append (traced event ∷ es) fs = read_bytes-append es fs
read_bytes-append (traced_error event e ∷ es) fs = read_bytes-append es fs
read_bytes-append (read_pty bytes ∷ es) fs =
    ap (λ l. bytes ++ l) (read_bytes-append es fs)
    ∙ sym (append_assoc bytes (read_bytes es) (read_bytes fs))
read_bytes-append (took_input bytes ∷ es) fs = read_bytes-append es fs
read_bytes-append (wrote_pty bytes ∷ es) fs = read_bytes-append es fs
read_bytes-append (wrote_stream stream bytes ∷ es) fs = read_bytes-append es fs
read_bytes-append (resized rows columns ∷ es) fs = read_bytes-append es fs
read_bytes-append (recorded value ∷ es) fs = read_bytes-append es fs

pub taken_bytes-append :
    (es fs : List Effect) → taken_bytes (es ++ fs) ≡ taken_bytes es ++ taken_bytes fs
taken_bytes-append [] fs = refl
taken_bytes-append (traced event ∷ es) fs = taken_bytes-append es fs
taken_bytes-append (traced_error event e ∷ es) fs = taken_bytes-append es fs
taken_bytes-append (read_pty bytes ∷ es) fs = taken_bytes-append es fs
taken_bytes-append (took_input bytes ∷ es) fs =
    ap (λ l. bytes ++ l) (taken_bytes-append es fs)
    ∙ sym (append_assoc bytes (taken_bytes es) (taken_bytes fs))
taken_bytes-append (wrote_pty bytes ∷ es) fs = taken_bytes-append es fs
taken_bytes-append (wrote_stream stream bytes ∷ es) fs = taken_bytes-append es fs
taken_bytes-append (resized rows columns ∷ es) fs = taken_bytes-append es fs
taken_bytes-append (recorded value ∷ es) fs = taken_bytes-append es fs

pub written_bytes-append :
    (es fs : List Effect) → written_bytes (es ++ fs) ≡ written_bytes es ++ written_bytes fs
written_bytes-append [] fs = refl
written_bytes-append (traced event ∷ es) fs = written_bytes-append es fs
written_bytes-append (traced_error event e ∷ es) fs = written_bytes-append es fs
written_bytes-append (read_pty bytes ∷ es) fs = written_bytes-append es fs
written_bytes-append (took_input bytes ∷ es) fs = written_bytes-append es fs
written_bytes-append (wrote_pty bytes ∷ es) fs =
    ap (λ l. bytes ++ l) (written_bytes-append es fs)
    ∙ sym (append_assoc bytes (written_bytes es) (written_bytes fs))
written_bytes-append (wrote_stream stream bytes ∷ es) fs = written_bytes-append es fs
written_bytes-append (resized rows columns ∷ es) fs = written_bytes-append es fs
written_bytes-append (recorded value ∷ es) fs = written_bytes-append es fs

pub read_bytes-quiet :
    (es : List Effect) (e : Effect) → IsQuiet e → read_bytes (es ++ e ∷ []) ≡ read_bytes es
read_bytes-quiet es (traced event) h = read_bytes-append es _ ∙ append-nil (read_bytes es)
read_bytes-quiet es (traced_error event e) h = read_bytes-append es _ ∙ append-nil (read_bytes es)
read_bytes-quiet es (wrote_stream stream bytes) h =
    read_bytes-append es _ ∙ append-nil (read_bytes es)
read_bytes-quiet es (recorded value) h = read_bytes-append es _ ∙ append-nil (read_bytes es)
read_bytes-quiet es (read_pty _) h = absurd h
read_bytes-quiet es (took_input _) h = absurd h
read_bytes-quiet es (wrote_pty _) h = absurd h
read_bytes-quiet es (resized _ _) h = absurd h

pub taken_bytes-quiet :
    (es : List Effect) (e : Effect) → IsQuiet e → taken_bytes (es ++ e ∷ []) ≡ taken_bytes es
taken_bytes-quiet es (traced event) h = taken_bytes-append es _ ∙ append-nil (taken_bytes es)
taken_bytes-quiet es (traced_error event e) h =
    taken_bytes-append es _ ∙ append-nil (taken_bytes es)
taken_bytes-quiet es (wrote_stream stream bytes) h =
    taken_bytes-append es _ ∙ append-nil (taken_bytes es)
taken_bytes-quiet es (recorded value) h = taken_bytes-append es _ ∙ append-nil (taken_bytes es)
taken_bytes-quiet es (read_pty _) h = absurd h
taken_bytes-quiet es (took_input _) h = absurd h
taken_bytes-quiet es (wrote_pty _) h = absurd h
taken_bytes-quiet es (resized _ _) h = absurd h

pub written_bytes-quiet :
    (es : List Effect) (e : Effect) → IsQuiet e → written_bytes (es ++ e ∷ []) ≡ written_bytes es
written_bytes-quiet es (traced event) h = written_bytes-append es _ ∙ append-nil (written_bytes es)
written_bytes-quiet es (traced_error event e) h =
    written_bytes-append es _ ∙ append-nil (written_bytes es)
written_bytes-quiet es (wrote_stream stream bytes) h =
    written_bytes-append es _ ∙ append-nil (written_bytes es)
written_bytes-quiet es (recorded value) h =
    written_bytes-append es _ ∙ append-nil (written_bytes es)
written_bytes-quiet es (read_pty _) h = absurd h
written_bytes-quiet es (took_input _) h = absurd h
written_bytes-quiet es (wrote_pty _) h = absurd h
written_bytes-quiet es (resized _ _) h = absurd h
