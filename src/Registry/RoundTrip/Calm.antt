-- ===== src/Registry/RoundTrip/Calm.antt =====
-- src/registry.rs: writes and reads of a file where the system fails no call.
use afk_cli.Prelude.{
  ℕ, ◌+◌, ◌≤◌, ◌≡◌, refl, ◌∙◌, List, [], ◌∷◌, ◌++◌, false, none, some, arith, ok, length, take,
  take_all, le→ltb, ==_refl,
}
use afk_cli.Prelude.Exec.{pure, ◌>>=◌, attempt}
use afk_cli.Registry.Disk.{
  FilePath, path_eq, Files, Disk, set_entry, create_file, write_all, passes, rename,
  is_directory_entry, call, write_call, read_file, new_entry, grown, moved, Entry, FileKind,
  symlink_metadata, found, read_entry,
}
use afk_cli.Registry.Disk.Calls.{set_entry_same, set_entry_other}
use afk_cli.Registry.Files.{
  regular, owner_only_mode, temporary, replace_by, atomic_write, read_bounded_file, verify_path,
  check_entry, read_verified,
}
use afk_cli.Registry.Atomic.Moments.{own_file, temporary-path_eq}

-- A disk whose calls are not failed.
abbrev pub calm : Files → List Files → Disk
calm files history = record { files = files; faults = []; history = history }

create_file-calm :
    (uid : ℕ) (p : FilePath) (mode : ℕ) (files : Files) (history : List Files)
    → files p ≡ none
    → let e : Entry = record { kind = FileKind.regular; owner = uid; mode = mode; bytes = [] } in
      let after = set_entry p (some e) files in
      create_file uid p mode (calm files history) ≡ (ok tt, calm after (after ∷ history))
unfolding create_file call
create_file-calm uid p mode files history free = rw (free, new_entry) refl

write_all-calm :
    (p : FilePath) (bytes : List ℕ) (e : Entry) (files : Files) (history : List Files)
    → files p ≡ some e
    → let after = set_entry p (some (record e { bytes = e.bytes ++ bytes })) files in
      write_all p bytes (calm files history) ≡ (ok tt, calm after (after ∷ history))
unfolding write_all write_call
write_all-calm p bytes e files history there = rw (there, grown) refl

passes-calm :
    (files : Files) (history : List Files)
    → passes (calm files history) ≡ (ok tt, calm files (files ∷ history))
unfolding passes call
passes-calm files history = refl

rename-calm :
    (from to : FilePath) (e : Entry) (files : Files) (history : List Files)
    → files from ≡ some e
    → is_directory_entry (files to) ≡ false
    → let after = set_entry to (some e) (set_entry from none files) in
      rename from to (calm files history) ≡ (ok tt, calm after (after ∷ history))
unfolding rename call
rename-calm from to e files history there target = rw (there, moved, target) refl

symlink_metadata-calm :
    (p : FilePath) (e : Entry) (files : Files) (history : List Files)
    → files p ≡ some e
    → symlink_metadata p (calm files history) ≡ (ok e, calm files (files ∷ history))
unfolding symlink_metadata call
symlink_metadata-calm p e files history there = rw (there, found) refl

read_file-calm :
    (p : FilePath) (limit uid : ℕ) (bytes : List ℕ) (files : Files) (history : List Files)
    → files p ≡ some (own_file uid bytes)
    → read_file p limit (calm files history) ≡ (ok (take limit bytes), calm files (files ∷ history))
unfolding read_file call
read_file-calm p limit uid bytes files history there = rw (there, read_entry) refl

-- The files during a write.
module _ (uid : ℕ) (pid : List ℕ) (p : FilePath) (bytes : List ℕ) (files : Files) where
  abbrev pub created : Files
  created = set_entry (temporary pid p) (some (own_file uid [])) files

  abbrev pub filled : Files
  filled = set_entry (temporary pid p) (some (own_file uid bytes)) created

  abbrev pub replaced : Files
  replaced = set_entry p (some (own_file uid bytes)) (set_entry (temporary pid p) none filled)

-- A write of a file whose temporary name is free.
module _ (uid : ℕ) (pid : List ℕ) (p : FilePath) (bytes : List ℕ) (files : Files)
    (free : files (temporary pid p) ≡ none) (target : is_directory_entry (files p) ≡ false) where
  same_target : (filled uid pid p bytes files) p ≡ files p
  same_target =
      let apart = temporary-path_eq pid p in
      set_entry_other (temporary pid p) p _ (created uid pid p bytes files) apart
      ∙ set_entry_other (temporary pid p) p _ files apart

  pub atomic_write-calm :
      (history : List Files)
      → (after : List Files) × (atomic_write uid pid p bytes (calm files history)
          ≡ (ok tt, calm (replaced uid pid p bytes files) after))
  unfolding atomic_write replace_by attempt ◌>>=◌
  atomic_write-calm history = (
    (replaced uid pid p bytes files)
        ∷ (filled uid pid p bytes files)
        ∷ (filled uid pid p bytes files)
        ∷ (created uid pid p bytes files)
        ∷ history,
    rw
        (
          create_file-calm uid (temporary pid p) owner_only_mode files history free,
          write_all-calm (temporary pid p) bytes (own_file uid []) (created uid pid p bytes files)
              ((created uid pid p bytes files) ∷ history)
              (set_entry_same (temporary pid p) _ files),
          passes-calm (filled uid pid p bytes files)
              ((filled uid pid p bytes files) ∷ (created uid pid p bytes files) ∷ history),
          rename-calm (temporary pid p) p (own_file uid bytes) (filled uid pid p bytes files)
              ((filled uid pid p bytes files)
                ∷ (filled uid pid p bytes files)
                ∷ (created uid pid p bytes files)
                ∷ history)
              (set_entry_same (temporary pid p) _ (created uid pid p bytes files))
              (rw same_target target),
        )
        refl,
  )

  pub replaced_same : (replaced uid pid p bytes files) p ≡ some (own_file uid bytes)
  replaced_same =
      set_entry_same p _ (set_entry (temporary pid p) none (filled uid pid p bytes files))

  -- Whatever file is neither it nor the temporary one.
  pub replaced_other :
      (q : FilePath)
      → path_eq p q ≡ false
      → path_eq (temporary pid p) q ≡ false
      → (replaced uid pid p bytes files) q ≡ files q
  replaced_other q h k =
      set_entry_other p q _ (set_entry (temporary pid p) none (filled uid pid p bytes files)) h
      ∙ set_entry_other (temporary pid p) q none (filled uid pid p bytes files) k
      ∙ set_entry_other (temporary pid p) q _ (created uid pid p bytes files) k
      ∙ set_entry_other (temporary pid p) q _ files k

-- A read of such a file.
module _ (uid : ℕ) (p : FilePath) (bytes : List ℕ) (files : Files)
    (there : files p ≡ some (own_file uid bytes)) where
  check_entry-calm :
      (d : Disk)
      → check_entry uid regular owner_only_mode (own_file uid bytes) d
        ≡ (ok (own_file uid bytes), d)
  unfolding check_entry pure
  check_entry-calm d = rw (==_refl uid) refl

  verify_path-calm :
      (history : List Files)
      → verify_path p uid regular owner_only_mode (calm files history)
        ≡ (ok (own_file uid bytes), calm files (files ∷ history))
  unfolding verify_path attempt ◌>>=◌
  verify_path-calm history =
      rw
        (
          symlink_metadata-calm p (own_file uid bytes) files history there,
          check_entry-calm (calm files (files ∷ history)),
        )
        refl

  pub read_bounded_file-calm :
      (limit : ℕ) (history : List Files)
      → length bytes ≤ limit
      → (after : List Files) × (read_bounded_file p uid regular owner_only_mode limit
            (calm files history)
          ≡ (ok (some bytes), calm files after))
  unfolding read_bounded_file read_verified attempt ◌>>=◌ pure
  read_bounded_file-calm limit history small = (
    files ∷ files ∷ files ∷ history,
    rw
        (
          verify_path-calm history,
          le→ltb limit (length bytes) small,
          passes-calm files (files ∷ history),
          read_file-calm p (limit + 1) uid bytes files (files ∷ files ∷ history) there,
          take_all (limit + 1) bytes (omega arith),
          le→ltb limit (length bytes) small,
        )
        refl,
  )
