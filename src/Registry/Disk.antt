-- ===== src/Registry/Disk.antt =====
-- The file system that src/registry.rs works on: what each call of `std::fs` does.
--
-- A call is answered by the next fault of the list, or by none if the list has ended. The system may
-- fail any call, also where the model would let it pass; a call that fails changes nothing, but for
-- `write_all`, which may have written a part. No other process changes the files meanwhile.
pub mod Calls
use afk_cli.Prelude.{
  ℕ, List, [], ◌∷◌, ◌++◌, Bool, true, false, ◌&&◌, Option, none, some, ◌==◌, if◌then◌else◌,
  bytes_eq, take, ok, err, IoError, IoResult, io_error, ErrorKind, not_found, already_exists,
  addr_in_use, other,
}
use afk_cli.Prelude.Exec.{Exec}

-- A `PathBuf` as the registry builds one: a file in a directory.
pub record FilePath : Type 0 where
  pub directory : List ℕ
  pub file_name : List ℕ

abbrev pub join : List ℕ → List ℕ → FilePath
join directory name = record { directory = directory; file_name = name }

abbrev pub ends_in_separator : List ℕ → Bool
ends_in_separator [] = false
ends_in_separator (b ∷ []) = b == b'/'
ends_in_separator (b ∷ c ∷ rest) = ends_in_separator (c ∷ rest)

-- The bytes of the path: `join` sets a separator where none is.
abbrev pub path_bytes : FilePath → List ℕ
path_bytes p =
    p.directory ++ (if ends_in_separator p.directory then p.file_name else b'/' ∷ p.file_name)

abbrev pub path_eq : FilePath → FilePath → Bool
path_eq p q = bytes_eq p.directory q.directory && bytes_eq p.file_name q.file_name

pub data FileKind : Type 0 where
  regular socket directory_kind symlink other_kind : FileKind

abbrev pub is_regular : FileKind → Bool
is_regular regular = true
is_regular _ = false

abbrev pub is_socket : FileKind → Bool
is_socket socket = true
is_socket _ = false

abbrev pub is_symlink : FileKind → Bool
is_symlink symlink = true
is_symlink _ = false

abbrev pub is_directory : FileKind → Bool
is_directory directory_kind = true
is_directory _ = false

-- `fs::Metadata`, and the bytes of a file. `mode` are all bits of `st_mode`.
pub record Entry : Type 0 where
  pub kind : FileKind
  pub owner : ℕ
  pub mode : ℕ
  pub bytes : List ℕ

abbrev pub Files : Type 0
Files = FilePath → Option Entry

abbrev pub set_entry : FilePath → Option Entry → Files → Files
set_entry p e files q = if path_eq p q then e else files q

-- The number is that of the bytes which a failing write has written.
pub data Fault : Type 0 where
  proceed : Fault
  fails : ℕ → IoError → Fault

-- `history` are the files behind each call so far, the last first; the system has no such variable.
pub record Disk : Type 0 where
  pub files : Files
  pub faults : List Fault
  pub history : List Files

abbrev pub settle : {A : Type 0} → List Fault → List Files → IoResult A × Files → IoResult A × Disk
settle faults history (r, files) =
    (r, record { files = files; faults = faults; history = files ∷ history })

-- One call: `works` is what it does if it is not failed, `partly` what a failure leaves.
abbrev pub answer :
    {A : Type 0}
    → (ℕ → Files → Files)
    → (Files → IoResult A × Files)
    → Files
    → List Files
    → List Fault
    → IoResult A × Disk
answer partly works files history [] = settle [] history (works files)
answer partly works files history (proceed ∷ faults) = settle faults history (works files)
answer partly works files history (fails n e ∷ faults) =
    settle faults history (err e, partly n files)

unfoldable pub call : {A : Type 0} → (Files → IoResult A × Files) → Exec Disk A
call works d = answer (λ _ files. files) works d.files d.history d.faults

unfoldable pub write_call :
    (ℕ → Files → Files) → (Files → IoResult (Unit {0}) × Files) → Exec Disk (Unit {0})
write_call partly works d = answer partly works d.files d.history d.faults

-- What each call does, by the entry that it finds.
abbrev pub found : Option Entry → IoResult Entry
found none = err (io_error not_found)
found (some e) = ok e

unfoldable pub symlink_metadata : FilePath → Exec Disk Entry
symlink_metadata p = call (λ files. (found (files p), files))

-- The permission bits, 9 of them, are set.
abbrev pub with_mode : ℕ → FilePath → Option Entry → Files → IoResult (Unit {0}) × Files
with_mode mode p none files = (err (io_error not_found), files)
with_mode mode p (some e) files = (ok tt, set_entry p (some (record e { mode = mode })) files)

unfoldable pub set_permissions : FilePath → ℕ → Exec Disk (Unit {0})
set_permissions p mode = call (λ files. with_mode mode p (files p) files)

-- A new entry where there must be none; `taken` is the error where there is one.
abbrev pub new_entry :
    ErrorKind → FilePath → Entry → Option Entry → Files → IoResult (Unit {0}) × Files
new_entry taken p e none files = (ok tt, set_entry p (some e) files)
new_entry taken p e (some _) files = (err (io_error taken), files)

-- `DirBuilder::create`
unfoldable pub create_directory : ℕ → FilePath → ℕ → Exec Disk (Unit {0})
create_directory uid p mode = call (λ files.
    new_entry already_exists p
      (record { kind = directory_kind; owner = uid; mode = mode; bytes = [] }) (files p) files)

-- `OpenOptions::new().write(true).create_new(true).mode(mode).open(path)`
unfoldable pub create_file : ℕ → FilePath → ℕ → Exec Disk (Unit {0})
create_file uid p mode = call (λ files.
    new_entry already_exists p (record { kind = regular; owner = uid; mode = mode; bytes = [] })
      (files p) files)

-- `UnixListener::bind`; under the umask 077 of the runner a socket is made with the mode 0700.
unfoldable pub bind_socket : ℕ → FilePath → ℕ → Exec Disk (Unit {0})
bind_socket uid p mode = call (λ files.
    new_entry addr_in_use p (record { kind = socket; owner = uid; mode = mode; bytes = [] })
      (files p) files)

-- A directory is not removed by `remove_file`.
abbrev pub unlinked : FilePath → Option Entry → Files → IoResult (Unit {0}) × Files
unlinked p none files = (err (io_error not_found), files)
unlinked p (some e) files =
    if is_directory e.kind then (err (io_error other), files) else (ok tt, set_entry p none files)

unfoldable pub remove_file : FilePath → Exec Disk (Unit {0})
remove_file p = call (λ files. unlinked p (files p) files)

abbrev pub read_entry : ℕ → Option Entry → IoResult (List ℕ)
read_entry limit none = err (io_error not_found)
read_entry limit (some e) =
    if is_regular e.kind then ok (take limit e.bytes) else err (io_error other)

-- `file.take(limit).read_to_end(..)` of a file that has been opened.
unfoldable pub read_file : FilePath → ℕ → Exec Disk (List ℕ)
read_file p limit = call (λ files. (read_entry limit (files p), files))

-- Bytes behind those of an open file.
abbrev pub grown : FilePath → List ℕ → Option Entry → Files → Files
grown p bytes none files = files
grown p bytes (some e) files = set_entry p (some (record e { bytes = e.bytes ++ bytes })) files

-- `file.write_all(bytes)`
unfoldable pub write_all : FilePath → List ℕ → Exec Disk (Unit {0})
write_all p bytes =
    write_call (λ n files. grown p (take n bytes) (files p) files)
      (λ files. (ok tt, grown p bytes (files p) files))

-- A call that changes nothing that can be seen: `File::open`, `sync_all`, `set_nonblocking`.
unfoldable pub passes : Exec Disk (Unit {0})
passes = call (λ files. (ok tt, files))

abbrev pub is_directory_entry : Option Entry → Bool
is_directory_entry none = false
is_directory_entry (some e) = is_directory e.kind

abbrev pub moved : FilePath → FilePath → Option Entry → Files → IoResult (Unit {0}) × Files
moved from to none files = (err (io_error not_found), files)
moved from to (some e) files =
    if is_directory_entry (files to)
    then (err (io_error other), files)
    else (ok tt, set_entry to (some e) (set_entry from none files))

-- `fs::rename`, of a file that is no directory
unfoldable pub rename : FilePath → FilePath → Exec Disk (Unit {0})
rename from to = call (λ files. moved from to (files from) files)
