-- ===== src/Registry/RoundTrip.antt =====
-- src/registry.rs: what `write_metadata` has written, `read_metadata` reads.
pub mod Calm
use afk_cli.Prelude.{
  ℕ, ◌≤◌, ◌≡◌, refl, ap, ◌∙◌, sym, List, [], ◌∷◌, Bool, true, false, Option, none, some, arith, ok,
  IoResult, length, ltb, le→ltb, bytes_eq_refl, bytes_eq, not,
}
use afk_cli.Limits.{max_metadata_bytes}
use afk_cli.Identity.{SessionId, display}
use afk_cli.Prelude.Exec.{pure, lift, ◌>>=◌, attempt}
use afk_cli.Registry.Disk.{Files, Disk, is_directory_entry}
use afk_cli.Registry.Disk.Calls.{disk}
use afk_cli.Registry.Metadata.{SessionMetadata, session_id}
use afk_cli.Registry.Files.{temporary, owner_only_mode}
use afk_cli.Registry.Sessions.{
  Registry, RegistryHost, session_paths, paths, from_option, write_metadata, read_metadata,
  decode_metadata,
}
use afk_cli.Registry.Atomic.Moments.{own_file}
use afk_cli.Registry.RoundTrip.Calm.{
  calm, replaced, atomic_write-calm, replaced_same, read_bounded_file-calm,
}

-- What serde_json promises of one record, whose text is within the limit.
pub record Encodes (host : RegistryHost) (m : SessionMetadata) : Type 0 where
  pub encoded : List ℕ
  pub written : host.to_vec m ≡ some encoded
  pub read : host.from_slice encoded ≡ some m
  pub small : length encoded ≤ max_metadata_bytes

module _ (host : RegistryHost) (r : Registry) (session : SessionId) (m : SessionMetadata)
    (json : Encodes host m) (files : Files) where
  pub write_metadata-calm :
      (history : List Files)
      → files (temporary host.process_id (session_paths r session).metadata) ≡ none
      → is_directory_entry (files (session_paths r session).metadata) ≡ false
      → (after : List Files) × (write_metadata host r
            (session_paths r session)
            m
            (calm files history)
          ≡ (
            ok tt,
            calm
                (replaced r.uid host.process_id
                  (session_paths r session).metadata
                  json.encoded
                  files)
                after,
          ))
  unfolding write_metadata attempt ◌>>=◌ pure
  write_metadata-calm history free target =
      let w =
        atomic_write-calm r.uid host.process_id (session_paths r session).metadata json.encoded
          files free target history in
      (
        w.0,
        rw
            (
              json.written,
              from_option,
              le→ltb max_metadata_bytes (length json.encoded) json.small,
              w.1,
            )
            refl,
      )

  pub read_metadata-calm :
      (history : List Files)
      → files (session_paths r session).metadata ≡ some (own_file r.uid json.encoded)
      → session_id m ≡ display session
      → paths r session ≡ ok (session_paths r session)
      → (after : List Files) × (read_metadata host r session (calm files history)
          ≡ (ok (some m), calm files after))
  unfolding read_metadata decode_metadata attempt ◌>>=◌ pure lift
  read_metadata-calm history there own_name short =
      let b =
        read_bounded_file-calm r.uid (session_paths r session).metadata json.encoded files there
          max_metadata_bytes history json.small in
      (b.0, rw (short, b.1, json.read, from_option, own_name, bytes_eq_refl (display session)) refl)

-- A record that `write_metadata` stores for a session is the one that `read_metadata` finds for it, and
-- both succeed: where the system fails no call, no temporary file is in the way and no directory
-- has the file's name, for a record with the session's own name that serde_json can encode within
-- the limit and decode again, and a path that fits a socket address.
pub read_metadata-write_metadata :
    (host : RegistryHost) (r : Registry) (session : SessionId) (m : SessionMetadata) (files : Files)
    → Encodes host m
    → session_id m ≡ display session
    → paths r session ≡ ok (session_paths r session)
    → files (temporary host.process_id (session_paths r session).metadata) ≡ none
    → is_directory_entry (files (session_paths r session).metadata) ≡ false
    → let written = write_metadata host r (session_paths r session) m (disk files []) in
      (written.0 ≡ ok tt) × ((read_metadata host r session written.1).0 ≡ ok (some m))
read_metadata-write_metadata host r session m files json own_name short free target =
    let p = (session_paths r session).metadata in
    let after = replaced r.uid host.process_id p json.encoded files in
    let w = write_metadata-calm host r session m json files [] free target in
    let b =
      read_metadata-calm host r session m json after w.0
        (replaced_same r.uid host.process_id p json.encoded files free target) own_name short in
    (rw w.1 refl, rw (w.1, b.1) refl)
