-- ===== src/Registry/Atomic/Steps.antt =====
-- src/registry.rs, `atomic_write`: what each of its calls does.
use afk_cli.Prelude.{
  ℕ, inl, inr, List, [], Bool, true, false, Option, none, some, if◌then◌else◌, take, ok, err,
  IoError, IoResult, Bool-cases, io_error, other, already_exists,
}
use afk_cli.Prelude.Ensures.{Ensures, Outcome, Ensures-attempt, Ensures-pure}
use afk_cli.Registry.Disk.{
  FilePath, Files, Entry, set_entry, create_file, new_entry, remove_file, unlinked, write_all,
  grown, passes, rename, is_directory, is_directory_entry,
}
use afk_cli.Registry.Disk.Calls.{set_entry_same, Now, call-Ensures, write_call-Ensures}
use afk_cli.Registry.Files.{owner_only_mode, temporary, ignore}
use afk_cli.Registry.Atomic.Moments.{
  own_file, Moment, Untouched, Replaced, Prepared, moment, set_temporary, moved-Replaced,
}

module _ (F : IoError → Type 0) (uid : ℕ) (pid : List ℕ) (p : FilePath) (bytes : List ℕ)
    (before : Files) where
  pub create_file-Prepared :
      Ensures
        (Now F (Moment uid pid p bytes before) (Untouched uid pid p bytes before))
        (create_file uid (temporary pid p) owner_only_mode)
        (λ _. Now F (Moment uid pid p bytes before) (Prepared uid pid p bytes before []))
        (λ _. Now F (Moment uid pid p bytes before) (Untouched uid pid p bytes before))
  unfolding create_file
  create_file-Prepared =
      call-Ensures F (Moment uid pid p bytes before) (Untouched uid pid p bytes before)
        (λ _. (Untouched uid pid p bytes before)) (λ _. Prepared uid pid p bytes before []) _
        (λ fs u. created (fs (temporary pid p)) fs u)
        (λ fs _ _ u. (moment uid pid p bytes before fs u, u))
    where
      created :
          (o : Option Entry) (fs : Files)
          → (Untouched uid pid p bytes before) fs
          → let out = new_entry already_exists (temporary pid p) (own_file uid []) o fs in
            (Moment uid pid p bytes before) out.1
            × Outcome
                (λ (_ : Unit {0}). Prepared uid pid p bytes before [])
                (λ _. (Untouched uid pid p bytes before))
                out.0
                out.1
      created none fs u = (
        moment uid pid p bytes before _ (set_temporary uid pid p bytes before _ fs u),
        record {
          untouched = set_temporary uid pid p bytes before _ fs u;
          holds = set_entry_same (temporary pid p) _ fs;
        },
      )
      created (some e) fs u = (moment uid pid p bytes before fs u, u)

  pub write_all-Prepared :
      Ensures
        (Now F (Moment uid pid p bytes before) (Prepared uid pid p bytes before []))
        (write_all (temporary pid p) bytes)
        (λ _. Now F (Moment uid pid p bytes before) (Prepared uid pid p bytes before bytes))
        (λ _. Now F (Moment uid pid p bytes before) (Untouched uid pid p bytes before))
  unfolding write_all
  write_all-Prepared =
      write_call-Ensures F (Moment uid pid p bytes before) (Prepared uid pid p bytes before [])
        (λ _. (Untouched uid pid p bytes before)) (λ _. Prepared uid pid p bytes before bytes) _ _
        (λ fs u.
          let g = grown-Prepared bytes fs u in (moment uid pid p bytes before _ g.untouched, g))
        (λ n fs _ _ u.
          let g = grown-Prepared (take n bytes) fs u in
          (moment uid pid p bytes before _ g.untouched, g.untouched))
    where
      grown-Prepared :
          (bs : List ℕ) (fs : Files)
          → Prepared uid pid p bytes before [] fs
          → Prepared uid pid p bytes before bs
              (grown (temporary pid p) bs (fs (temporary pid p)) fs)
      grown-Prepared bs fs u = rw u.holds (record {
        untouched = set_temporary uid pid p bytes before _ fs u.untouched;
        holds = set_entry_same (temporary pid p) _ fs;
      })

  pub passes-Prepared :
      Ensures
        (Now F (Moment uid pid p bytes before) (Prepared uid pid p bytes before bytes))
        passes
        (λ _. Now F (Moment uid pid p bytes before) (Prepared uid pid p bytes before bytes))
        (λ _. Now F (Moment uid pid p bytes before) (Untouched uid pid p bytes before))
  unfolding passes
  passes-Prepared =
      call-Ensures F (Moment uid pid p bytes before) (Prepared uid pid p bytes before bytes)
        (λ _. (Untouched uid pid p bytes before)) (λ _. Prepared uid pid p bytes before bytes) _
        (λ fs u. (moment uid pid p bytes before fs u.untouched, u))
        (λ fs _ _ u. (moment uid pid p bytes before fs u.untouched, u.untouched))

  pub rename-Replaced :
      Ensures
        (Now F (Moment uid pid p bytes before) (Prepared uid pid p bytes before bytes))
        (rename (temporary pid p) p)
        (λ _. Now F (Moment uid pid p bytes before) (Replaced uid pid p bytes before))
        (λ _. Now F (Moment uid pid p bytes before) (Untouched uid pid p bytes before))
  unfolding rename
  rename-Replaced =
      call-Ensures F (Moment uid pid p bytes before) (Prepared uid pid p bytes before bytes)
        (λ _. (Untouched uid pid p bytes before)) (λ _. (Replaced uid pid p bytes before)) _
        (λ fs u. rw u.holds (chosen (is_directory_entry (fs p)) fs u))
        (λ fs _ _ u. (moment uid pid p bytes before fs u.untouched, u.untouched))
    where
      chosen :
          (b : Bool) (fs : Files)
          → Prepared uid pid p bytes before bytes fs
          → let r : IoResult (Unit {0}) × Files =
              (if b then (err (io_error other), fs) else (
                ok tt,
                set_entry p (some (own_file uid bytes)) (set_entry (temporary pid p) none fs),
              )) in
            (Moment uid pid p bytes before) r.1
            × Outcome
                (λ (_ : Unit {0}). (Replaced uid pid p bytes before))
                (λ _. (Untouched uid pid p bytes before))
                r.0
                r.1
      chosen true fs u = (moment uid pid p bytes before fs u.untouched, u.untouched)
      chosen false fs u =
          let m = moved-Replaced uid pid p bytes before fs u in
          (record { whole = inr m.target; others = m.others }, m)

  pub ignore-Untouched :
      Ensures
        (Now F (Moment uid pid p bytes before) (Untouched uid pid p bytes before))
        (ignore (remove_file (temporary pid p)))
        (λ _. Now F (Moment uid pid p bytes before) (Untouched uid pid p bytes before))
        (λ _. Now F (Moment uid pid p bytes before) (Untouched uid pid p bytes before))
  unfolding ignore remove_file
  ignore-Untouched =
      Ensures-attempt _ _ _
        (call-Ensures F (Moment uid pid p bytes before) (Untouched uid pid p bytes before)
          (λ _. (Untouched uid pid p bytes before)) (λ _. (Untouched uid pid p bytes before)) _
          (λ fs u. removed (fs (temporary pid p)) fs u)
          (λ fs _ _ u. (moment uid pid p bytes before fs u, u)))
        (λ a. Ensures-pure a (λ d h. h)) (λ e. Ensures-pure tt (λ d h. h))
    where
      removed :
          (o : Option Entry) (fs : Files)
          → (Untouched uid pid p bytes before) fs
          → let out = unlinked (temporary pid p) o fs in
            (Moment uid pid p bytes before) out.1
            × Outcome
                (λ (_ : Unit {0}). (Untouched uid pid p bytes before))
                (λ _. (Untouched uid pid p bytes before))
                out.0
                out.1
      removed none fs u = (moment uid pid p bytes before fs u, u)
      removed (some e) fs u = elim (Bool-cases (is_directory e.kind)) [
        | inl y ↦ rw y ((moment uid pid p bytes before fs u, u))
        | inr n ↦ rw n (
            (
              moment uid pid p bytes before _ (set_temporary uid pid p bytes before none fs u),
              set_temporary uid pid p bytes before none fs u,
            ))
      ]
