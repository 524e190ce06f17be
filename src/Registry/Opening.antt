-- ===== src/Registry/Opening.antt =====
-- src/registry.rs, `Registry::open`: the directories of the registry.
pub mod Private
use afk_cli.Prelude.{
  ℕ, zero, suc, List, [], ◌∷◌, Bool, true, false, ◌||◌, not, Option, none, some, ◌==◌,
  if◌then◌else◌, codes, io_error, ErrorKind, permission_denied, already_exists,
}
use afk_cli.Prelude.Exec.{Exec, ◌>>=◌, ◌>>◌, pure, fail, attempt}
use afk_cli.Registry.Disk.{
  FilePath, join, path_bytes, Entry, Disk, is_directory, is_symlink, symlink_metadata,
  set_permissions, create_directory,
}
use afk_cli.Registry.Files.{owner_directory_mode, is_not_found, invalid}
use afk_cli.Registry.Sessions.{Registry, RegistryHost}
use afk_cli.Registry.Listing.{ReadDir, cleanup_expired}

-- An entry that is there already.
unfoldable pub adopt_directory : ℕ → FilePath → Entry → Exec Disk (Unit {0})
adopt_directory uid path metadata =
    if not (is_directory metadata.kind) || is_symlink metadata.kind
    then invalid
    else if not (metadata.owner == uid)
    then fail (io_error permission_denied)
    else set_permissions path owner_directory_mode

abbrev pub is_already_exists : ErrorKind → Bool
is_already_exists already_exists = true
is_already_exists _ = false

-- The function calls itself if a directory has come to be meanwhile; `none` says that the rounds have
-- run out before.
unfoldable pub ensure_private_directory : ℕ → ℕ → FilePath → Exec Disk (Option (Unit {0}))
unfolding attempt ◌>>=◌
ensure_private_directory zero uid path = pure none
ensure_private_directory (suc rounds) uid path =
    attempt (symlink_metadata path)
      (λ metadata. do adopt_directory uid path metadata; pure (some tt))
      (λ error.
        if is_not_found error.kind
        then attempt (create_directory uid path owner_directory_mode) (λ _. pure (some tt))
            (λ e.
              if is_already_exists e.kind then ensure_private_directory rounds uid path else fail e)
        else fail error)

-- `path.is_absolute()`
abbrev pub is_absolute : List ℕ → Bool
is_absolute [] = false
is_absolute (b ∷ rest) = b == b'/'

-- `HOME`, where it names an absolute directory.
abbrev pub home_directory : Option (List ℕ) → Exec Disk (List ℕ)
home_directory none = invalid
home_directory (some home) = if is_absolute home then pure home else invalid

abbrev pub afk_path : List ℕ → FilePath
afk_path home = join home (codes ".afk")

abbrev pub root_path : List ℕ → FilePath
root_path home = join (path_bytes (afk_path home)) (codes "run")

-- With both directories there.
unfoldable pub open_at : RegistryHost → ℕ → FilePath → ReadDir → Exec Disk Registry
unfolding ◌>>=◌
open_at host uid root read_dir =
    let r : Registry = record { root = path_bytes root; uid = uid } in
    do cleanup_expired host r read_dir; pure r

-- What follows a directory that is there, or the rounds have run out.
abbrev pub if_there : {A : Type 0} → Option (Unit {0}) → Exec Disk (Option A) → Exec Disk (Option A)
if_there none next = pure none
if_there (some _) next = next

-- `none` says again that the rounds have run out.
unfoldable pub open_registry :
    RegistryHost → (rounds uid : ℕ) → Option (List ℕ) → ReadDir → Exec Disk (Option Registry)
unfolding ◌>>=◌
open_registry host rounds uid home_variable read_dir = do
  home ← home_directory home_variable
  afk ← ensure_private_directory rounds uid (afk_path home)
  if_there afk (do
    run ← ensure_private_directory rounds uid (root_path home)
    if_there run (do r ← open_at host uid (root_path home) read_dir; pure (some r)))
