-- ===== src/Registry/Files.antt =====
-- src/registry.rs: the functions on single paths.
use afk_cli.Prelude.{
  ℕ, ◌+◌, ◌%◌, ◌++◌, List, ◌∷◌, Bool, true, false, ◌||◌, not, Option, none, some, ltb, ◌==◌,
  if◌then◌else◌, length, codes, IoError, io_error, ErrorKind, not_found, permission_denied,
  invalid_data,
}
use afk_cli.Prelude.Exec.{Exec, ◌>>=◌, ◌>>◌, pure, fail, attempt}
use afk_cli.Registry.Disk.{
  FilePath, FileKind, Entry, Disk, is_regular, is_socket, is_symlink, symlink_metadata, create_file,
  remove_file, read_file, write_all, passes, rename,
}

pub data PathKind : Type 0 where
  regular socket : PathKind

abbrev pub is_not_found : ErrorKind → Bool
is_not_found not_found = true
is_not_found _ = false

-- The modes 0600 and 0700.
abbrev pub owner_only_mode : ℕ
owner_only_mode = 384

abbrev pub owner_directory_mode : ℕ
owner_directory_mode = 448

-- `let _ = m`
unfoldable pub ignore : Exec Disk (Unit {0}) → Exec Disk (Unit {0})
unfolding pure attempt
ignore m = attempt m pure (λ _. pure tt)

-- `invalid`
abbrev pub invalid : {A : Type 0} → Exec Disk A
invalid = fail (io_error invalid_data)

abbrev pub type_matches : PathKind → FileKind → Bool
type_matches regular k = is_regular k
type_matches socket k = is_socket k

-- `actual_mode` is `metadata.mode() & 0o777`.
abbrev pub mode_matches : PathKind → ℕ → ℕ → Bool
mode_matches regular mode actual_mode = actual_mode == mode
mode_matches socket mode actual_mode = actual_mode == mode || actual_mode == owner_directory_mode

-- The tests of `verify_path`.
unfoldable pub check_entry : ℕ → PathKind → ℕ → Entry → Exec Disk Entry
unfolding pure fail
check_entry uid kind mode metadata =
    if is_symlink metadata.kind || not (metadata.owner == uid)
    then fail (io_error permission_denied)
    else if not (type_matches kind metadata.kind)
        || not (mode_matches kind mode (metadata.mode % 512))
    then fail (io_error permission_denied)
    else pure metadata

unfoldable pub verify_path : FilePath → ℕ → PathKind → ℕ → Exec Disk Entry
unfolding check_entry ◌>>=◌
verify_path path uid kind mode = do
  metadata ← symlink_metadata path
  check_entry uid kind mode metadata

-- An entry that is not there is no failure.
unfoldable pub unless_missing : {A : Type 0} → A → IoError → Exec Disk A
unfolding pure fail
unless_missing value error = if is_not_found error.kind then pure value else fail error

-- The part of `read_bounded_file` behind the test of the length.
unfoldable pub read_verified : FilePath → ℕ → Exec Disk (Option (List ℕ))
unfolding ◌>>=◌
read_verified path limit = do
  passes
  bytes ← read_file path (limit + 1)
  if ltb limit (length bytes) then invalid else pure (some bytes)

unfoldable pub read_bounded_file : FilePath → ℕ → PathKind → ℕ → ℕ → Exec Disk (Option (List ℕ))
unfolding attempt
read_bounded_file path uid kind mode limit =
    attempt (verify_path path uid kind mode)
      (λ metadata. if ltb limit (length metadata.bytes) then invalid else read_verified path limit)
      (unless_missing none)

-- The name of the temporary file of a process; `process_id` is the text of its number.
abbrev pub temporary : List ℕ → FilePath → FilePath
temporary process_id path = record path {
  file_name = b'.' ∷ (path.file_name ++ (codes ".tmp." ++ process_id));
}

-- The closure of `atomic_write`.
unfoldable pub replace_by : FilePath → FilePath → List ℕ → Exec Disk (Unit {0})
unfolding ◌>>=◌
replace_by temp path bytes = do write_all temp bytes; passes; rename temp path

unfoldable pub clean_up : FilePath → IoError → Exec Disk (Unit {0})
unfolding ◌>>=◌
clean_up temp error = do ignore (remove_file temp); fail error

-- The names that the registry makes are ASCII, so `file_name` and `to_str` give them.
unfoldable pub atomic_write : ℕ → List ℕ → FilePath → List ℕ → Exec Disk (Unit {0})
unfolding attempt ◌>>=◌
atomic_write uid process_id path bytes =
    let temp = temporary process_id path in
    do
      create_file uid temp owner_only_mode
      attempt (replace_by temp path bytes) pure (clean_up temp)

unfoldable pub path_entry_exists : FilePath → Exec Disk Bool
unfolding attempt
path_entry_exists path = attempt (symlink_metadata path) (λ _. pure true) (unless_missing false)

unfoldable pub remove_owned_entry_if_present : FilePath → ℕ → PathKind → ℕ → Exec Disk (Unit {0})
unfolding attempt
remove_owned_entry_if_present path uid kind mode =
    attempt (verify_path path uid kind mode) (λ _. remove_file path) (unless_missing tt)

unfoldable pub remove_if_present : FilePath → Exec Disk (Unit {0})
unfolding attempt
remove_if_present path = attempt (remove_file path) pure (unless_missing tt)
