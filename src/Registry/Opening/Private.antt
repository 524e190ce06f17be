-- ===== src/Registry/Opening/Private.antt =====
-- src/registry.rs, `ensure_private_directory`: it returns, with a directory of the user's own.
use afk_cli.Prelude.{
  ℕ, zero, suc, ◌≤◌, ◌<◌, ◌≡◌, refl, ◌⊎◌, inl, inr, List, [], ◌∷◌, Bool, true, false, ◌||◌, not,
  Option, none, some, ◌==◌, ==→eq, if◌then◌else◌, length, arith, Bool-cases, ok, err, IoError,
  IoResult, io_error, already_exists,
}
use afk_cli.Prelude.Exec.{Exec, ◌>>=◌, pure, fail, attempt}
use afk_cli.Registry.Disk.{
  FilePath, Files, Entry, Fault, proceed, fails, Disk, is_directory, is_symlink, symlink_metadata,
  found, set_permissions, with_mode, create_directory, new_entry, call,
}
use afk_cli.Registry.Disk.Calls.{disk, set_entry_same}
use afk_cli.Registry.Files.{owner_directory_mode, is_not_found}
use afk_cli.Registry.Opening.{adopt_directory, is_already_exists, ensure_private_directory}

-- A directory that no other user may enter.
abbrev pub IsPrivate : ℕ → Option Entry → Type 0
IsPrivate uid none = ⊥
IsPrivate uid (some e) =
    (is_directory e.kind ≡ true) × (e.owner ≡ uid) × (e.mode ≡ owner_directory_mode)

-- The rounds did not run out, and a success leaves such a directory.
abbrev pub Returned : ℕ → FilePath → IoResult (Option (Unit {0})) → Disk → Type 0
Returned uid p (ok none) d = ⊥
Returned uid p (ok (some _)) d = IsPrivate uid (d.files p)
Returned uid p (err e) d = Unit {0}

abbrev at : Files → List Fault → List Files → Disk
at files faults history = record { files = files; faults = faults; history = history }

is_true : (a b : Bool) → (not a || b) ≡ false → a ≡ true
is_true true b h = refl
is_true false b h = cc

is_negated : (a : Bool) → not a ≡ false → a ≡ true
is_negated true h = refl
is_negated false h = cc

module _ (uid : ℕ) (p : FilePath) where
  permitted :
      (e : Entry) (files : Files) (faults : List Fault) (history : List Files)
      → files p ≡ some e
      → is_directory e.kind ≡ true
      → e.owner ≡ uid
      → let out =
          (set_permissions p owner_directory_mode >>= λ _. pure (some tt))
            (at files faults history) in
        Returned uid p out.0 out.1
  unfolding ◌>>=◌ set_permissions call
  permitted e files [] history there kind owner =
      rw (there, with_mode) (rw (set_entry_same p _ files) (kind, owner, refl))
  permitted e files (proceed ∷ faults) history there kind owner =
      rw (there, with_mode) (rw (set_entry_same p _ files) (kind, owner, refl))
  permitted e files (fails n er ∷ faults) history there kind owner = tt

  adopted :
      (e : Entry) (files : Files) (faults : List Fault) (history : List Files)
      → files p ≡ some e
      → let out = (adopt_directory uid p e >>= λ _. pure (some tt)) (at files faults history) in
        Returned uid p out.0 out.1
  unfolding adopt_directory ◌>>=◌
  adopted e files faults history there =
      elim (Bool-cases (not (is_directory e.kind) || is_symlink e.kind)) [
        | inl bad ↦ rw bad tt
        | inr good ↦ rw good (elim (Bool-cases (not (e.owner == uid))) [
          | inl other ↦ rw other tt
          | inr own ↦ rw own (
              permitted e files faults history there (is_true (is_directory e.kind) _ good)
                (==→eq e.owner uid (is_negated (e.owner == uid) own)))
        ])
      ]

  -- The next round, if `rounds` are enough for the faults that are left.
  abbrev Enough : ℕ → Type 0
  Enough rounds =
      (files : Files) (faults : List Fault) (history : List Files)
      → length faults < rounds
      → let out = ensure_private_directory rounds uid p (at files faults history) in
        Returned uid p out.0 out.1

  -- What follows where the entry was not found.
  abbrev after_missing : ℕ → Exec Disk (Option (Unit {0}))
  after_missing rounds =
      attempt (create_directory uid p owner_directory_mode) (λ _. pure (some tt))
        (λ e. if is_already_exists e.kind then ensure_private_directory rounds uid p else fail e)

  retried :
      (rounds : ℕ) (error : IoError) (files : Files) (faults : List Fault) (history : List Files)
      → Enough rounds
      → length faults < rounds
      → let out =
          (if is_already_exists error.kind
              then ensure_private_directory rounds uid p
              else fail error)
            (at files faults history) in
        Returned uid p out.0 out.1
  unfolding fail
  retried rounds error files faults history more short =
      elim (Bool-cases (is_already_exists error.kind)) [
        | inl again ↦ rw again (more files faults history short)
        | inr bad ↦ rw bad tt
      ]

  -- There is nothing at the path, or a fault has made it seem so.
  missing :
      (rounds : ℕ) (o : Option Entry) (files : Files) (faults : List Fault) (history : List Files)
      → files p ≡ o
      → Enough rounds
      → length faults ≤ rounds
      → (o ≡ none) ⊎ (length faults < rounds)
      → let out = after_missing rounds (at files faults history) in Returned uid p out.0 out.1
  unfolding attempt create_directory call pure
  missing rounds none files [] history there more short why =
      rw (there, new_entry) (rw (set_entry_same p _ files) (refl, refl, refl))
  missing rounds none files (proceed ∷ faults) history there more short why =
      rw (there, new_entry) (rw (set_entry_same p _ files) (refl, refl, refl))
  missing rounds (some e) files [] history there more short (inr less) =
      rw (there, new_entry) (retried rounds (io_error already_exists) files [] _ more less)
  missing rounds (some e) files (proceed ∷ faults) history there more short (inr less) =
      rw (there, new_entry)
        (retried rounds (io_error already_exists) files faults _ more (omega (arith, less)))
  missing rounds (some e) files faults history there more short (inl never) = cc
  missing rounds o files (fails n error ∷ faults) history there more short why =
      retried rounds error files faults _ more (omega (arith, short))

  looked :
      (rounds : ℕ) (o : Option Entry) (files : Files) (faults : List Fault) (history : List Files)
      → files p ≡ o
      → Enough rounds
      → length faults ≤ rounds
      → let out =
          attempt
            (λ d. (found o, d))
            (λ metadata. adopt_directory uid p metadata >>= λ _. pure (some tt))
            (λ error. if is_not_found error.kind then after_missing rounds else fail error)
            (at files faults history) in
        Returned uid p out.0 out.1
  unfolding attempt
  looked rounds none files faults history there more short =
      missing rounds none files faults history there more short (inl refl)
  looked rounds (some e) files faults history there more short =
      adopted e files faults history there

  -- A failed call to look is a fault less.
  not_looked :
      (rounds : ℕ) (error : IoError) (files : Files) (faults : List Fault) (history : List Files)
      → Enough rounds
      → length faults < rounds
      → let out =
          (if is_not_found error.kind then after_missing rounds else fail error)
            (at files faults history) in
        Returned uid p out.0 out.1
  unfolding fail
  not_looked rounds error files faults history more short =
      elim (Bool-cases (is_not_found error.kind)) [
        | inl gone ↦ rw gone (
            missing rounds (files p) files faults history refl more (omega (arith, short))
              (inr short))
        | inr bad ↦ rw bad tt
      ]

  returns : (rounds : ℕ) → Enough rounds
  unfolding ensure_private_directory symlink_metadata call attempt
  returns zero files faults history short = omega (arith, short)
  returns (suc rounds) files [] history short =
      looked rounds (files p) files [] (files ∷ history) refl (returns rounds) (omega arith)
  returns (suc rounds) files (proceed ∷ faults) history short =
      looked rounds (files p) files faults (files ∷ history) refl (returns rounds)
        (omega (arith, short))
  returns (suc rounds) files (fails n error ∷ faults) history short =
      not_looked rounds error files faults (files ∷ history) (returns rounds) (omega (arith, short))

-- `ensure_private_directory` calls itself no more often than the system fails calls, whatever it is that
-- the system makes up and whatever is at the path; where it succeeds, a directory of the user is
-- there that no other user may enter.
pub ensure_private_directory-Returned :
    (rounds uid : ℕ) (path : FilePath) (files : Files) (faults : List Fault)
    → length faults < rounds
    → let out = ensure_private_directory rounds uid path (disk files faults) in
      Returned uid path out.0 out.1
ensure_private_directory-Returned rounds uid path files faults short =
    returns uid path rounds files faults [] short
