-- ===== src/Registry/Tests.antt =====
-- src/registry.rs on a directory with one session.
use afk_cli.Prelude.{
  length-append, ◌≡◌, refl, List, [], ◌∷◌, false, none, some, ok, err, io_error, other, not_found,
  codes, All, arith, if◌then◌else◌, bytes_eq, already_exists,
}
use afk_cli.Identity.{SessionId, IsSessionId, display}
use afk_cli.Identity.RoundTrip.{length-display}
use afk_cli.Prelude.Exec.{attempt, ◌>>=◌}
use afk_cli.Registry.Disk.{
  FilePath, join, Files, Fault, proceed, fails, set_entry, call, write_call, create_file, write_all,
  passes, rename, remove_file,
}
use afk_cli.Registry.Disk.Calls.{disk, set_entry_same, Faulty}
use afk_cli.Registry.Metadata.{completed, Completed, ExitMetadata, is_expired}
use afk_cli.Registry.Files.{atomic_write, replace_by, clean_up, ignore}
use afk_cli.Registry.Sessions.{
  Registry, RegistryHost, session_paths, paths, bind_session, write_metadata, read_metadata,
}
use afk_cli.Registry.Atomic.{atomic_write_whole, Written}
use afk_cli.Registry.Atomic.Moments.{own_file, Moment}
use afk_cli.Registry.Reading.{IsFault, Still, IsRecorded}
use afk_cli.Registry.Binding.{Bindings, bind_session-IsConfined, IsRefused, bind_session_refuses}
use afk_cli.Registry.Binding.Leaves.{IsConfined}
use afk_cli.Registry.Listing.{list, cleanup_expired, ReadDir}
use afk_cli.Registry.Listing.Names.{AreSame}
use afk_cli.Registry.Listing.Sorted.{Lists, list-IsListing}
use afk_cli.Registry.Listing.Sparing.{cleanup_expired_spares}
use afk_cli.Registry.Opening.{ensure_private_directory}
use afk_cli.Registry.Opening.Private.{Returned, ensure_private_directory-Returned}
use afk_cli.Registry.RoundTrip.{read_metadata-write_metadata}

abbrev session : SessionId
session = record {
  bytes = 1 ∷ 2 ∷ 3 ∷ 4 ∷ 5 ∷ 6 ∷ 7 ∷ 8 ∷ 9 ∷ 10 ∷ 11 ∷ 12 ∷ 13 ∷ 14 ∷ 15 ∷ 16 ∷ [];
}

session-IsSessionId : IsSessionId session
session-IsSessionId = record { width = refl; are_bytes = omega arith }

abbrev registry : Registry
registry = record { root = codes "/h/.afk/run"; uid = 1000 }

abbrev ended : Completed
ended = record {
  session_id = display session;
  started_at = 100;
  finished_at = 200;
  exit = ExitMetadata.code 0;
  output_bytes = 3;
  truncated = false;
}

-- The text of every record is `{`.
abbrev host : RegistryHost
host = record {
  process_id = codes "42";
  now_seconds = ok 1000;
  connect = λ p. err (io_error not_found);
  peer_uid = λ stream. ok 1000;
  to_vec = λ m. some (b'{' ∷ []);
  from_slice = λ bytes. if bytes_eq bytes (b'{' ∷ []) then some (completed ended) else none;
}

abbrev no_files : Files
no_files _ = none

abbrev json : FilePath
json = (session_paths registry session).metadata

abbrev one_session : Files
one_session = set_entry json (some (own_file 1000 (b'{' ∷ []))) no_files

ended-IsRecorded : IsRecorded one_session host registry session (completed ended)
ended-IsRecorded = record {
  bytes = b'{' ∷ [];
  contents = record {
    entry = own_file 1000 (b'{' ∷ []);
    verified = (
      set_entry_same json _ no_files,
      record { no_link = refl; own = refl; of_kind = refl; of_mode = refl },
    );
    all = refl;
    small = omega arith;
  };
  decoded = refl;
  own_name = refl;
}

-- The third call, which is a write, writes one byte and fails.
abbrev full_disk : List Fault
full_disk = proceed ∷ fails 1 (io_error other) ∷ []

abbrev notes : FilePath
notes = join (codes "/h") (codes "notes")

full_disk_fails :
    (atomic_write 7 (codes "1") notes (65 ∷ 66 ∷ []) (disk no_files full_disk)).0
    ≡ err (io_error other)
unfolding atomic_write create_file write_all replace_by clean_up ignore remove_file passes rename
    call write_call attempt ◌>>=◌
full_disk_fails = refl

atomic_write_whole_example :
    let out = atomic_write 7 (codes "1") notes (65 ∷ 66 ∷ []) (disk no_files full_disk) in
    All (Moment 7 (codes "1") notes (65 ∷ 66 ∷ []) no_files) out.1.history
    × Written 7 (codes "1") notes (65 ∷ 66 ∷ []) no_files out.0 out.1.files
atomic_write_whole_example =
    atomic_write_whole 7 (codes "1") notes (65 ∷ 66 ∷ []) no_files full_disk

bind_session-IsConfined_example :
    let out = bind_session host registry session (disk one_session full_disk) in
    All (IsConfined (session_paths registry session) one_session) out.1.history
    × IsConfined (session_paths registry session) one_session out.1.files
    × Bindings registry session out.0 out.1.files
bind_session-IsConfined_example =
    bind_session-IsConfined host registry session one_session full_disk

ended-fresh : is_expired (completed ended) 1000 ≡ false
unfolding is_expired
ended-fresh = refl

full_disk-IsFault : All (Faulty IsFault) full_disk
full_disk-IsFault = (tt, (refl, tt))

bind_session_refuses_example :
    let out = bind_session host registry session (disk one_session full_disk) in
    IsRefused out.0 × All (Still one_session) out.1.history
bind_session_refuses_example =
    bind_session_refuses host registry session one_session full_disk 1000 ended refl
      (record { recorded = ended-IsRecorded; fresh = ended-fresh }) full_disk-IsFault

abbrev entries : ReadDir
entries = ok (ok json.file_name ∷ ok (codes "notes") ∷ [])

list-IsListing_example :
    let out = list host registry entries (disk one_session full_disk) in
    Lists one_session host registry out.0 × All (Still one_session) out.1.history
list-IsListing_example =
    list-IsListing host registry entries one_session full_disk full_disk-IsFault

cleanup_expired_spares_example :
    let out = cleanup_expired host registry entries (disk one_session full_disk) in
    AreSame registry session one_session out.1.files
    × All (AreSame registry session one_session) out.1.history
cleanup_expired_spares_example =
    cleanup_expired_spares host registry session one_session 1000 (completed ended) entries
      full_disk session-IsSessionId ended-IsRecorded ended-fresh refl full_disk-IsFault

session_path_fits : paths registry session ≡ ok (session_paths registry session)
unfolding paths
session_path_fits = ground (
  arith,
  length-append (display session) (codes ".sock"),
  length-display session session-IsSessionId,
)

read_metadata-write_metadata_example :
    let written =
      write_metadata host registry
        (session_paths registry session)
        (completed ended)
        (disk no_files []) in
    (written.0 ≡ ok tt)
    × ((read_metadata host registry session written.1).0 ≡ ok (some (completed ended)))
read_metadata-write_metadata_example =
    read_metadata-write_metadata host registry session (completed ended) no_files
      (record { encoded = b'{' ∷ []; written = refl; read = refl; small = omega arith }) refl
      session_path_fits refl refl

-- A directory that comes to be between the two calls is adopted in the second round.
abbrev raced : List Fault
raced = proceed ∷ fails 0 (io_error already_exists) ∷ []

ensure_private_directory-Returned_example :
    let out =
      ensure_private_directory 3 1000 (join (codes "/h") (codes ".afk")) (disk no_files raced) in
    Returned 1000 (join (codes "/h") (codes ".afk")) out.0 out.1
ensure_private_directory-Returned_example =
    ensure_private_directory-Returned 3 1000 (join (codes "/h") (codes ".afk")) no_files raced
      (omega arith)
