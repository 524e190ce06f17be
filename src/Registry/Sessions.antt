-- ===== src/Registry/Sessions.antt =====
-- src/registry.rs: the files of one session.
use afk_cli.Prelude.{
  ℕ, ◌++◌, List, true, Option, none, some, ltb, ◌==◌, if◌then◌else◌, bytes_eq, not, length, codes,
  String, ok, err, IoError, IoResult, io_error, permission_denied, already_exists, addr_in_use,
  invalid_data,
}
use afk_cli.Limits.{max_metadata_bytes, output_tail_bytes, unix_socket_path_bytes}
use afk_cli.Identity.{SessionId, display}
use afk_cli.Prelude.Exec.{Exec, ◌>>=◌, ◌>>◌, pure, fail, lift, attempt}
use afk_cli.Registry.Disk.{
  FilePath, join, path_bytes, Disk, set_permissions, create_file, bind_socket, remove_file, passes,
}
use afk_cli.Registry.Metadata.{SessionMetadata, live, completed, session_id, is_expired}
use afk_cli.Registry.Files.{
  regular, socket, owner_only_mode, owner_directory_mode, ignore, invalid, verify_path,
  read_bounded_file, atomic_write, path_entry_exists, remove_owned_entry_if_present,
  remove_if_present,
}

pub record Registry : Type 0 where
  pub root : List ℕ
  pub uid : ℕ

pub record SessionPaths : Type 0 where
  pub socket : FilePath
  pub metadata : FilePath
  pub lock : FilePath
  pub output : FilePath
  pub trace : FilePath

-- What the registry uses of the system besides the files, and of serde_json. A stream is a number.
pub record RegistryHost : Type 0 where
  pub process_id : List ℕ
  pub now_seconds : IoResult ℕ
  pub connect : FilePath → IoResult ℕ
  pub peer_uid : ℕ → IoResult ℕ
  pub to_vec : SessionMetadata → Option (List ℕ)
  pub from_slice : List ℕ → Option SessionMetadata

abbrev pub session_path : Registry → SessionId → String → FilePath
session_path r session extension = join r.root (display session ++ codes extension)

abbrev pub session_paths : Registry → SessionId → SessionPaths
session_paths r session = record {
  socket = session_path r session ".sock";
  metadata = session_path r session ".json";
  lock = session_path r session ".lock";
  output = session_path r session ".out";
  trace = session_path r session ".trace";
}

unfoldable pub paths : Registry → SessionId → IoResult SessionPaths
paths r session =
    let found = session_paths r session in
    if ltb unix_socket_path_bytes (length (path_bytes found.socket))
    then err (io_error invalid_data)
    else ok found

abbrev pub from_option : {A : Type 0} → Option A → Exec Disk A
from_option none = invalid
from_option (some a) = pure a

module _ (host : RegistryHost) (r : Registry) where
  -- The test of the peer behind a connection.
  unfoldable pub check_peer : ℕ → ℕ → Exec Disk ℕ
  unfolding pure fail
  check_peer stream peer =
      if not (peer == r.uid) then fail (io_error permission_denied) else pure stream

  unfoldable pub connect : SessionId → Exec Disk ℕ
  unfolding check_peer ◌>>=◌
  connect session = do
    found ← lift (paths r session)
    verify_path found.socket r.uid socket owner_only_mode
    stream ← lift (host.connect found.socket)
    peer ← lift (host.peer_uid stream)
    check_peer stream peer

  -- What the bytes of a metadata file say.
  unfoldable pub decode_metadata : SessionId → Option (List ℕ) → Exec Disk (Option SessionMetadata)
  unfolding ◌>>=◌
  decode_metadata session none = pure none
  decode_metadata session (some bytes) = do
    metadata ← from_option (host.from_slice bytes)
    if not (bytes_eq (session_id metadata) (display session)) then invalid else pure (some metadata)

  unfoldable pub read_metadata : SessionId → Exec Disk (Option SessionMetadata)
  unfolding ◌>>=◌
  read_metadata session = do
    found ← lift (paths r session)
    bytes ← read_bounded_file found.metadata r.uid regular owner_only_mode max_metadata_bytes
    decode_metadata session bytes

  unfoldable pub read_output : SessionId → Exec Disk (Option (List ℕ))
  unfolding ◌>>=◌
  read_output session = do
    found ← lift (paths r session)
    read_bounded_file found.output r.uid regular owner_only_mode output_tail_bytes

  unfoldable pub write_metadata : SessionPaths → SessionMetadata → Exec Disk (Unit {0})
  unfolding ◌>>=◌
  write_metadata found metadata = do
    encoded ← from_option (host.to_vec metadata)
    if ltb max_metadata_bytes (length encoded)
        then invalid
        else atomic_write r.uid host.process_id found.metadata encoded

  unfoldable pub write_output : SessionPaths → List ℕ → Exec Disk (Unit {0})
  write_output found output =
      if ltb output_tail_bytes (length output)
      then invalid
      else atomic_write r.uid host.process_id found.output output

  unfoldable pub remove_completed : SessionPaths → Exec Disk (Unit {0})
  unfolding ◌>>=◌
  remove_completed found = do
    remove_if_present found.output
    remove_if_present found.trace
    remove_if_present found.metadata

  unfoldable pub remove_stale_live : SessionPaths → Exec Disk (Unit {0})
  unfolding ◌>>=◌
  remove_stale_live found = do
    remove_owned_entry_if_present found.socket r.uid socket owner_only_mode
    remove_owned_entry_if_present found.lock r.uid regular owner_only_mode
    remove_owned_entry_if_present found.trace r.uid regular owner_only_mode
    remove_owned_entry_if_present found.metadata r.uid regular owner_only_mode

  -- `self.connect(session).is_ok()`: a live runner is left alone, and what is left of one goes.
  unfoldable pub replace_stale : SessionId → SessionPaths → Exec Disk (Unit {0})
  unfolding attempt
  replace_stale session found =
      attempt (connect session) (λ _. fail (io_error already_exists)) (λ _. remove_stale_live found)

  -- What `bind_session` does with metadata that have not expired.
  unfoldable pub replace_recorded :
      SessionId → SessionPaths → SessionMetadata → Exec Disk (Unit {0})
  replace_recorded session found (completed _) = fail (io_error already_exists)
  replace_recorded session found (live _) = replace_stale session found

  -- What it does with the metadata that it finds, or without any.
  unfoldable pub make_room :
      SessionId → SessionPaths → Option SessionMetadata → Exec Disk (Unit {0})
  unfolding ◌>>=◌
  make_room session found (some metadata) = do
    now ← lift host.now_seconds
    if is_expired metadata now
        then remove_completed found
        else replace_recorded session found metadata
  make_room session found none = do
    has_socket ← path_entry_exists found.socket
    taken ← (if has_socket then pure true else path_entry_exists found.lock)
    if taken then replace_stale session found else pure tt

  -- The lock, without which the socket goes again.
  unfoldable pub take_lock : SessionPaths → Exec Disk (Unit {0})
  unfolding attempt ◌>>=◌
  take_lock found =
      attempt (create_file r.uid found.lock owner_only_mode) pure
        (λ e. do ignore (remove_file found.socket); fail e)

  -- Behind a `bind` that succeeds.
  unfoldable pub secure_socket : SessionPaths → Exec Disk SessionPaths
  unfolding ◌>>=◌
  secure_socket found = do
    set_permissions found.socket owner_only_mode
    passes
    take_lock found
    pure found

  abbrev pub bind_error : IoError → IoError
  bind_error error = elim error.kind [ addr_in_use ↦ io_error already_exists | _ ↦ error ]

  -- `SessionFiles` is known by its paths.
  unfoldable pub bind_session : SessionId → Exec Disk SessionPaths
  unfolding ◌>>=◌
  bind_session session = do
    found ← lift (paths r session)
    metadata ← read_metadata session
    make_room session found metadata
    attempt (bind_socket r.uid found.socket owner_directory_mode) (λ _. secure_socket found)
        (λ error. fail (bind_error error))

-- `remove_live_files`, and the same in `SessionFiles::drop`.
unfoldable pub remove_live_files : SessionPaths → Exec Disk (Unit {0})
unfolding ◌>>=◌
remove_live_files found = do ignore (remove_file found.socket); ignore (remove_file found.lock)
