-- ===== src/Registry/Listing.antt =====
-- src/registry.rs: the functions that go through the directory of the sessions.
pub mod Sorted
pub mod Names
pub mod Sparing
use afk_cli.Prelude.{
  ℕ, zero, suc, ◌≤◌, List, [], ◌∷◌, ◌++◌, Bool, true, false, ◌||◌, Option, none, some, leb, ◌==◌,
  if◌then◌else◌, bytes_eq, not, length, take, drop, codes, Result, ok, err, IoError, IoResult,
  io_error, ErrorKind, permission_denied, already_exists, invalid_data,
}
use afk_cli.Limits.{max_session_list_entries}
use afk_cli.Identity.{SessionId, parse_bytes}
use afk_cli.Prelude.Exec.{Exec, ◌>>=◌, ◌>>◌, pure, fail, lift, attempt}
use afk_cli.Registry.Disk.{
  FilePath, join, path_bytes, Entry, Disk, is_directory, is_symlink, symlink_metadata,
  set_permissions, create_directory,
}
use afk_cli.Registry.Metadata.{SessionMetadata, started_at, is_expired}
use afk_cli.Registry.Files.{owner_directory_mode, is_not_found, invalid}
use afk_cli.Registry.Sessions.{
  Registry, RegistryHost, SessionPaths, paths, read_metadata, remove_completed,
}

-- `result.ok()`
abbrev pub ok_of : {E A : Type 0} → Result E A → Option A
ok_of (ok a) = some a
ok_of (err e) = none

unfoldable pub session_from_metadata_name : List ℕ → Option SessionId
session_from_metadata_name name =
    if not (length name == 37) || not (bytes_eq (drop 32 name) (codes ".json"))
    then none
    else ok_of (parse_bytes (take 32 name))

-- `sort_by_key`, which keeps the order of records that started together.
unfoldable pub insert_by_start : SessionMetadata → List SessionMetadata → List SessionMetadata
insert_by_start m [] = m ∷ []
insert_by_start m (n ∷ rest) =
    if leb (started_at m) (started_at n) then m ∷ n ∷ rest else n ∷ insert_by_start m rest

unfoldable pub sort_by_start : List SessionMetadata → List SessionMetadata
unfolding insert_by_start
sort_by_start [] = []
sort_by_start (m ∷ rest) = insert_by_start m (sort_by_start rest)

abbrev pub push_found : List SessionMetadata → Option SessionMetadata → List SessionMetadata
push_found sessions none = sessions
push_found sessions (some m) = sessions ++ m ∷ []

-- `read_dir` is the answer of the call, and then of each step of its iterator: the name of an entry.
abbrev pub ReadDir : Type 0
ReadDir = IoResult (List (IoResult (List ℕ)))

module _ (host : RegistryHost) (r : Registry) where
  -- The metadata of one entry of the directory.
  unfoldable pub read_named : List ℕ → Exec Disk (Option SessionMetadata)
  unfolding pure
  read_named name = elim (session_from_metadata_name name) [
    | none ↦ pure none
    | some session ↦ read_metadata host r session
  ]

  unfoldable pub collect :
      List (IoResult (List ℕ)) → List SessionMetadata → Exec Disk (List SessionMetadata)
  unfolding ◌>>=◌
  collect [] sessions = pure sessions
  collect (entry ∷ entries) sessions =
      let more : Exec Disk (List SessionMetadata) = (do
        name ← lift entry
        found ← read_named name
        collect entries (push_found sessions found)) in
      if length sessions == max_session_list_entries then pure sessions else more

  unfoldable pub list : ReadDir → Exec Disk (List SessionMetadata)
  unfolding ◌>>=◌
  list read_dir = do
    entries ← lift read_dir
    sessions ← collect entries []
    pure (sort_by_start sessions)

  -- What `cleanup_expired` does with the metadata of a session.
  unfoldable pub remove_if_expired :
      ℕ → SessionPaths → Option SessionMetadata → Exec Disk (Unit {0})
  unfolding pure
  remove_if_expired now found none = pure tt
  remove_if_expired now found (some metadata) =
      if is_expired metadata now then remove_completed host r found else pure tt

  unfoldable pub clean_session : ℕ → Option SessionId → Exec Disk (Unit {0})
  unfolding ◌>>=◌
  clean_session now none = pure tt
  clean_session now (some session) = do
    found ← lift (paths r session)
    metadata ← read_metadata host r session
    remove_if_expired now found metadata

  unfoldable pub clean_entries : ℕ → List (IoResult (List ℕ)) → Exec Disk (Unit {0})
  unfolding ◌>>=◌
  clean_entries now [] = pure tt
  clean_entries now (entry ∷ entries) = do
    name ← lift entry
    clean_session now (session_from_metadata_name name)
    clean_entries now entries

  unfoldable pub cleanup_expired : ReadDir → Exec Disk (Unit {0})
  unfolding ◌>>=◌
  cleanup_expired read_dir = do
    now ← lift host.now_seconds
    entries ← lift read_dir
    clean_entries now (take max_session_list_entries entries)
