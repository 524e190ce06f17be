-- ===== src/Attach/Replay/Left.antt =====
-- src/registry.rs: the files of a session that a runner leaves, where the system fails no call.
use afk_cli.Prelude.{
  ℕ, ◌+◌, ◌≤◌, ◌≡◌, ◌≢◌, refl, ap, sym, ◌∙◌, List, [], ◌++◌, false, none, some, le→ltb, length,
  length-append, codes, arith, Bool-cases, ok, IoResult, inl, inr,
}
use afk_cli.Limits.{output_tail_bytes}
use afk_cli.Identity.{SessionId, display}
use afk_cli.Prelude.Exec.{◌>>=◌, ◌>>◌, lift, attempt}
use afk_cli.Registry.Disk.{FilePath, path_eq, Files, Disk, is_directory_entry}
use afk_cli.Registry.Disk.Calls.{disk, path_eq→eq}
use afk_cli.Registry.Metadata.{completed, Completed}
use afk_cli.Registry.Files.{temporary}
use afk_cli.Registry.Sessions.{
  Registry, RegistryHost, session_paths, paths, write_output, write_metadata, read_output,
}
use afk_cli.Registry.Atomic.Moments.{own_file}
use afk_cli.Registry.RoundTrip.{Encodes, write_metadata-calm}
use afk_cli.Registry.RoundTrip.Calm.{
  calm, replaced, atomic_write-calm, replaced_same, replaced_other, read_bounded_file-calm,
}

-- Paths of different lengths.
apart : (p q : FilePath) → length p.file_name ≢ length q.file_name → path_eq p q ≡ false
apart p q h = elim (Bool-cases (path_eq p q)) [
  | inr e ↦ e
  | inl e ↦ absurd (h (ap (λ (x : FilePath). length x.file_name) (path_eq→eq p q e)))
]

module _ (r : Registry) (session : SessionId) where
  abbrev pub json_path : FilePath
  json_path = (session_paths r session).metadata

  abbrev pub output_path : FilePath
  output_path = (session_paths r session).output

  json_length : length json_path.file_name ≡ length (display session) + 5
  json_length = length-append (display session) (codes ".json")

  output_length : length output_path.file_name ≡ length (display session) + 4
  output_length = length-append (display session) (codes ".out")

length-temporary :
    (pid : List ℕ) (p : FilePath)
    → length (temporary pid p).file_name ≡ length p.file_name + 6 + length pid
length-temporary pid p =
    omega
      (arith, length-append p.file_name (codes ".tmp." ++ pid), length-append (codes ".tmp.") pid)

-- Nothing is in the way of the files of a session.
pub record IsReady (host : RegistryHost) (r : Registry) (session : SessionId) (files : Files)
    : Type 0 where
  pub short : paths r session ≡ ok (session_paths r session)
  pub free_output : files (temporary host.process_id (session_paths r session).output) ≡ none
  pub free_json : files (temporary host.process_id (session_paths r session).metadata) ≡ none
  pub target_output : is_directory_entry (files (session_paths r session).output) ≡ false
  pub target_json : is_directory_entry (files (session_paths r session).metadata) ≡ false

-- The files that a runner leaves: first the output, and then the metadata.
module _ (host : RegistryHost) (r : Registry) (session : SessionId) (files : Files)
    (ready : IsReady host r session files) (output : List ℕ)
    (small : length output ≤ output_tail_bytes) where
  abbrev pub with_output : Files
  with_output = replaced r.uid host.process_id (output_path r session) output files

  with_output_other :
      (q : FilePath)
      → length q.file_name ≢ length (output_path r session).file_name
      → length q.file_name ≢ length (temporary host.process_id (output_path r session)).file_name
      → with_output q ≡ files q
  with_output_other q h k =
      replaced_other r.uid host.process_id (output_path r session) output files ready.free_output
        ready.target_output q (apart (output_path r session) q (λ e. h (sym e)))
        (apart (temporary host.process_id (output_path r session)) q (λ e. k (sym e)))

  write_output-calm :
      (history : List Files)
      → (after : List Files) × (write_output host r
            (session_paths r session)
            output
            (calm files history)
          ≡ (ok tt, calm with_output after))
  unfolding write_output
  write_output-calm history =
      let w =
        atomic_write-calm r.uid host.process_id (output_path r session) output files
          ready.free_output ready.target_output history in
      (w.0, rw (le→ltb output_tail_bytes (length output) small, w.1) refl)

  pub same_free : with_output (temporary host.process_id (json_path r session)) ≡ none
  same_free =
      let t = length-temporary host.process_id (json_path r session) in
      let u = length-temporary host.process_id (output_path r session) in
      with_output_other (temporary host.process_id (json_path r session))
        (λ e. omega (arith, e, t, json_length r session, output_length r session))
        (λ e. omega (arith, e, t, u, json_length r session, output_length r session))
      ∙ ready.free_json

  pub same_target : is_directory_entry (with_output (json_path r session)) ≡ false
  same_target =
      let u = length-temporary host.process_id (output_path r session) in
      ap is_directory_entry (
        with_output_other (json_path r session)
          (λ e. omega (arith, e, json_length r session, output_length r session))
          (λ e. omega (arith, e, u, json_length r session, output_length r session)))
      ∙ ready.target_json

  module _ (c : Completed) (json : Encodes host (completed c)) where
    abbrev pub left : Files
    left = replaced r.uid host.process_id (json_path r session) json.encoded with_output

    same_output : left (output_path r session) ≡ some (own_file r.uid output)
    same_output =
        let t = length-temporary host.process_id (json_path r session) in
        replaced_other r.uid host.process_id (json_path r session) json.encoded with_output
          same_free same_target (output_path r session)
          (apart (json_path r session) (output_path r session)
            (λ e. omega (arith, e, json_length r session, output_length r session)))
          (apart (temporary host.process_id (json_path r session)) (output_path r session)
            (λ e. omega (arith, e, t, json_length r session, output_length r session)))
        ∙ replaced_same r.uid host.process_id (output_path r session) output files ready.free_output
            ready.target_output

    -- What the runner does at the end.
    abbrev pub stored : IoResult (Unit {0}) × Disk
    stored =
        (write_output host r (session_paths r session) output
            >> write_metadata host r (session_paths r session) (completed c))
          (disk files [])

    pub stored-calm : (after : List Files) × (stored ≡ (ok tt, calm left after))
    unfolding ◌>>=◌ attempt
    stored-calm =
        let o = write_output-calm [] in
        let m =
          write_metadata-calm host r session (completed c) json with_output o.0 same_free
            same_target in
        (m.0, rw (o.1, m.1) refl)

    pub read_output-calm :
        (history : List Files)
        → (after : List Files) × (read_output host r session (calm left history)
            ≡ (ok (some output), calm left after))
    unfolding read_output ◌>>=◌ attempt lift
    read_output-calm history =
        let b =
          read_bounded_file-calm r.uid (output_path r session) output left same_output
            output_tail_bytes history small in
        (b.0, rw (ready.short, b.1) refl)
