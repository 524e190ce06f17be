-- ===== src/Registry/Atomic/Moments.antt =====
-- src/registry.rs, `atomic_write`: the files at each moment of a write.
use afk_cli.Prelude.{
  ℕ, ◌≡◌, ap, sym, ◌⊎◌, inl, inr, List, ◌++◌, false, Option, none, some, arith, length,
  length-append, Bool-cases, codes, ◌∙◌,
}
use afk_cli.Registry.Disk.{FilePath, path_eq, Files, FileKind, Entry, set_entry}
use afk_cli.Registry.Disk.Calls.{path_eq→eq, set_entry_same, set_entry_other}
use afk_cli.Registry.Files.{owner_only_mode, temporary}

-- A file of the user that no other user may touch.
abbrev pub own_file : ℕ → List ℕ → Entry
own_file uid bytes = record {
  kind = FileKind.regular;
  owner = uid;
  mode = owner_only_mode;
  bytes = bytes;
}

-- The temporary file is another file: its name is longer.
temporary-ne : (pid : List ℕ) (p : FilePath) → temporary pid p ≡ p → ⊥
temporary-ne pid p e =
    let same = ap (λ (q : FilePath). length q.file_name) e in
    omega (arith, same, length-append p.file_name (codes ".tmp." ++ pid))

path_eq-temporary : (pid : List ℕ) (p : FilePath) → path_eq p (temporary pid p) ≡ false
path_eq-temporary pid p = elim (Bool-cases (path_eq p (temporary pid p))) [
  | inr e ↦ e
  | inl e ↦ absurd (temporary-ne pid p (sym (path_eq→eq p (temporary pid p) e)))
]

pub temporary-path_eq : (pid : List ℕ) (p : FilePath) → path_eq (temporary pid p) p ≡ false
temporary-path_eq pid p = elim (Bool-cases (path_eq (temporary pid p) p)) [
  | inr e ↦ e
  | inl e ↦ absurd (temporary-ne pid p (path_eq→eq (temporary pid p) p e))
]

module _ (uid : ℕ) (pid : List ℕ) (p : FilePath) (bytes : List ℕ) (before : Files) where
  -- The files at any moment: the target is as it was or as it shall be, and no other file is touched.
  pub record Moment (fs : Files) : Type 0 where
    pub whole : (fs p ≡ before p) ⊎ (fs p ≡ some (own_file uid bytes))
    pub others :
        (q : FilePath) → path_eq p q ≡ false → path_eq (temporary pid p) q ≡ false → fs q ≡ before q

  -- The target is still as it was.
  pub record Untouched (fs : Files) : Type 0 where
    pub target : fs p ≡ before p
    pub others :
        (q : FilePath) → path_eq p q ≡ false → path_eq (temporary pid p) q ≡ false → fs q ≡ before q

  pub record Replaced (fs : Files) : Type 0 where
    pub target : fs p ≡ some (own_file uid bytes)
    pub gone : fs (temporary pid p) ≡ none
    pub others :
        (q : FilePath) → path_eq p q ≡ false → path_eq (temporary pid p) q ≡ false → fs q ≡ before q

  -- With a temporary file of these bytes.
  pub record Prepared (written : List ℕ) (fs : Files) : Type 0 where
    pub untouched : Untouched fs
    pub holds : fs (temporary pid p) ≡ some (own_file uid written)

  pub moment : (fs : Files) → Untouched fs → Moment fs
  moment fs u = record { whole = inl u.target; others = u.others }

  -- Whatever becomes of the temporary file.
  pub set_temporary :
      (e : Option Entry) (fs : Files) → Untouched fs → Untouched (set_entry (temporary pid p) e fs)
  set_temporary e fs u = record {
    target = set_entry_other (temporary pid p) p e fs (temporary-path_eq pid p) ∙ u.target;
    others = λ q h k. set_entry_other (temporary pid p) q e fs k ∙ u.others q h k;
  }

  pub moved-Replaced :
      (fs : Files)
      → Prepared bytes fs
      → Replaced (set_entry p (some (own_file uid bytes)) (set_entry (temporary pid p) none fs))
  moved-Replaced fs u =
      let kept = set_entry (temporary pid p) none fs in
      record {
        target = set_entry_same p _ kept;
        gone =
            set_entry_other p (temporary pid p) _ kept (path_eq-temporary pid p)
            ∙ set_entry_same (temporary pid p) none fs;
        others = λ q h k.
            set_entry_other p q _ kept h ∙ (set_temporary none fs u.untouched).others q h k;
      }
