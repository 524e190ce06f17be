-- ===== src/Registry/Atomic.antt =====
-- src/registry.rs, `atomic_write`: a file is replaced as a whole, or not at all.
pub mod Moments
mod Steps
use afk_cli.Prelude.{
  ℕ, suc, ◌+◌, ◌<◌, ◌≡◌, refl, ap, sym, ◌⊎◌, inl, inr, List, [], ◌∷◌, ◌++◌, Bool, true, false,
  Option, none, some, if◌then◌else◌, arith, length, length-append, take, All, ok, err, IoError,
  IoResult, Bool-cases, codes, io_error, other, ◌∙◌, already_exists,
}
use afk_cli.Prelude.Exec.{Exec, pure, fail, attempt, ◌>>=◌}
use afk_cli.Prelude.Ensures.{
  Ensures, Outcome, Ensures-attempt, Ensures-bind, Ensures-pure, Ensures-fail, Ensures-map,
}
use afk_cli.Registry.Disk.{
  FilePath, path_eq, Files, FileKind, Entry, set_entry, Fault, proceed, fails, Disk, answer, call,
  write_call, create_file, new_entry, remove_file, unlinked, write_all, grown, passes, rename,
  moved, is_directory, is_directory_entry, symlink_metadata,
}
use afk_cli.Registry.Disk.Calls.{
  disk, path_eq_refl, path_eq→eq, set_entry_same, set_entry_other, Now, no_assumption, call-Ensures,
  write_call-Ensures,
}
use afk_cli.Registry.Files.{owner_only_mode, temporary, ignore, replace_by, clean_up, atomic_write}
use afk_cli.Registry.Atomic.Moments.{own_file, Moment, Untouched, Replaced, Prepared}
use afk_cli.Registry.Atomic.Steps.{
  create_file-Prepared, write_all-Prepared, passes-Prepared, rename-Replaced, ignore-Untouched,
}

module _ (F : IoError → Type 0) (uid : ℕ) (pid : List ℕ) (p : FilePath) (bytes : List ℕ)
    (before : Files) where
  replace_by-Replaced :
      Ensures
        (Now F (Moment uid pid p bytes before) (Prepared uid pid p bytes before []))
        (replace_by (temporary pid p) p bytes)
        (λ _. Now F (Moment uid pid p bytes before) (Replaced uid pid p bytes before))
        (λ _. Now F (Moment uid pid p bytes before) (Untouched uid pid p bytes before))
  unfolding replace_by
  replace_by-Replaced = Ensures-bind _ _ (write_all-Prepared F uid pid p bytes before) (λ _.
      Ensures-bind _ _ (passes-Prepared F uid pid p bytes before)
        (λ _. (rename-Replaced F uid pid p bytes before)))

  clean_up-Untouched :
      (error : IoError)
      → Ensures
          (Now F (Moment uid pid p bytes before) (Untouched uid pid p bytes before))
          (clean_up (temporary pid p) error)
          (λ _. Now F (Moment uid pid p bytes before) (Replaced uid pid p bytes before))
          (λ _. Now F (Moment uid pid p bytes before) (Untouched uid pid p bytes before))
  unfolding clean_up
  clean_up-Untouched error =
      Ensures-bind _ _ (ignore-Untouched F uid pid p bytes before)
        (λ _. Ensures-fail error (λ d h. h))

  pub atomic_write-Replaced :
      Ensures
        (Now F (Moment uid pid p bytes before) (Untouched uid pid p bytes before))
        (atomic_write uid pid p bytes)
        (λ _. Now F (Moment uid pid p bytes before) (Replaced uid pid p bytes before))
        (λ _. Now F (Moment uid pid p bytes before) (Untouched uid pid p bytes before))
  unfolding atomic_write
  atomic_write-Replaced = Ensures-bind _ _ (create_file-Prepared F uid pid p bytes before) (λ _.
      Ensures-attempt _ _ _ replace_by-Replaced (λ a. Ensures-pure a (λ d h. h)) clean_up-Untouched)

-- What a write leaves, by its result.
abbrev pub Written : ℕ → List ℕ → FilePath → List ℕ → Files → IoResult (Unit {0}) → Files → Type 0
Written uid pid p bytes before (ok _) after = Replaced uid pid p bytes before after
Written uid pid p bytes before (err e) after = Untouched uid pid p bytes before after

-- Whatever the system fails, and after each call: the file is as it was or a file of the user alone with
-- exactly the new bytes, and no file but it and the temporary one is touched. A success replaces
-- it and leaves no temporary file, and a failure leaves it as it was.
pub atomic_write_whole :
    (uid : ℕ) (pid : List ℕ) (p : FilePath) (bytes : List ℕ) (files : Files) (faults : List Fault)
    → let out = atomic_write uid pid p bytes (disk files faults) in
      All (Moment uid pid p bytes files) out.1.history
      × Written uid pid p bytes files out.0 out.1.files
atomic_write_whole uid pid p bytes files faults = told _ _ (
    (atomic_write-Replaced (λ _. Unit {0}) uid pid p bytes files).at (disk files faults)
      (record { target = refl; others = λ q _ _. refl }, tt, no_assumption faults))
  where
    told :
        (r : IoResult (Unit {0})) (d : Disk)
        → Outcome
            (λ _.
              Now (λ _. Unit {0}) (Moment uid pid p bytes files) (Replaced uid pid p bytes files))
            (λ _.
              Now (λ _. Unit {0}) (Moment uid pid p bytes files) (Untouched uid pid p bytes files))
            r
            d
        → All (Moment uid pid p bytes files) d.history × Written uid pid p bytes files r d.files
    told (ok a) d o = (o.1, o.0)
    told (err e) d o = (o.1, o.0)
