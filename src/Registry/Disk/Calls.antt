-- ===== src/Registry/Disk/Calls.antt =====
-- What a call to the file system guarantees, at every moment.
use afk_cli.Prelude.{
  ℕ, ◌≡◌, List, [], ◌∷◌, true, false, arith, bytes_eq→eq, bytes_eq_refl, All, ok, err, IoError,
  IoResult, Option,
}
use afk_cli.Prelude.Ensures.{Ensures, Outcome}
use afk_cli.Registry.Disk.{
  FilePath, path_eq, Files, set_entry, Fault, proceed, fails, Disk, settle, answer, call,
  write_call,
}

-- A disk with no call so far.
abbrev pub disk : Files → List Fault → Disk
disk files faults = record { files = files; faults = faults; history = [] }

pub path_eq_refl : (p : FilePath) → path_eq p p ≡ true
path_eq_refl p = ground (arith, bytes_eq_refl p.directory, bytes_eq_refl p.file_name)

pub path_eq→eq : (p q : FilePath) → path_eq p q ≡ true → p ≡ q
path_eq→eq p q h =
    ground (arith, bytes_eq→eq p.directory q.directory, bytes_eq→eq p.file_name q.file_name)

pub set_entry_same : (p : FilePath) (e : Option _) (files : Files) → set_entry p e files p ≡ e
set_entry_same p e files = rw (path_eq_refl p)

pub set_entry_other :
    (p q : FilePath) (e : Option _) (files : Files)
    → path_eq p q ≡ false
    → set_entry p e files q ≡ files q
set_entry_other p q e files h = rw h

-- What is assumed of the errors that the system makes up.
abbrev pub Faulty : (IoError → Type 0) → Fault → Type 0
Faulty F proceed = Unit {0}
Faulty F (fails n e) = F e

pub no_assumption : (faults : List Fault) → All (Faulty (λ _. Unit {0})) faults
no_assumption [] = tt
no_assumption (proceed ∷ faults) = (tt, no_assumption faults)
no_assumption (fails n e ∷ faults) = (tt, no_assumption faults)

-- `C` of the files as they are, `I` of the files behind each call so far, and `F` of the faults to come.
abbrev pub Now : (IoError → Type 0) → (Files → Type 0) → (Files → Type 0) → Disk → Type 0
Now F I C d = C d.files × All I d.history × All (Faulty F) d.faults

module _ {A : Type 0} (F : IoError → Type 0) (I : Files → Type 0) (E : IoError → Files → Type 0)
    (Q : A → Files → Type 0) where
  settle-Ensures :
      (faults : List Fault) (history : List Files) (r : IoResult A) (fs : Files)
      → I fs × Outcome Q E r fs
      → All I history
      → All (Faulty F) faults
      → let out = settle faults history (r, fs) in
        Outcome (λ a. Now F I (Q a)) (λ e. Now F I (E e)) out.0 out.1
  settle-Ensures faults history (ok a) fs s past coming = (s.1, (s.0, past), coming)
  settle-Ensures faults history (err e) fs s past coming = (s.1, (s.0, past), coming)

  answer-Ensures :
      (partly : ℕ → Files → Files) (works : Files → IoResult A × Files) (files : Files)
      (history : List Files) (faults : List Fault)
      → I (works files).1 × Outcome Q E (works files).0 (works files).1
      → ((n : ℕ) (e : IoError) → F e → I (partly n files) × E e (partly n files))
      → All I history
      → All (Faulty F) faults
      → let out = answer partly works files history faults in
        Outcome (λ a. Now F I (Q a)) (λ e. Now F I (E e)) out.0 out.1
  answer-Ensures partly works files history [] h k past coming =
      settle-Ensures [] history (works files).0 (works files).1 h past coming
  answer-Ensures partly works files history (proceed ∷ faults) h k past coming =
      settle-Ensures faults history (works files).0 (works files).1 h past coming.1
  answer-Ensures partly works files history (fails n e ∷ faults) h k past coming =
      ((k n e coming.0).1, ((k n e coming.0).0, past), coming.1)

module _ {A : Type 0} (F : IoError → Type 0) (I C : Files → Type 0) (E : IoError → Files → Type 0)
    (Q : A → Files → Type 0) where
  pub call-Ensures :
      (works : Files → IoResult A × Files)
      → ((fs : Files) → C fs → I (works fs).1 × Outcome Q E (works fs).0 (works fs).1)
      → ((fs : Files) (e : IoError) → F e → C fs → I fs × E e fs)
      → Ensures (Now F I C) (call works) (λ a. Now F I (Q a)) (λ e. Now F I (E e))
  unfolding call
  call-Ensures works h k = record {
    at = λ d p.
        answer-Ensures F I E Q (λ _ fs. fs) works d.files d.history d.faults (h d.files p.0)
          (λ _ e f. k d.files e f p.0) p.1 p.2;
  }

module _ (F : IoError → Type 0) (I C : Files → Type 0) (E : IoError → Files → Type 0)
    (Q : Unit {0} → Files → Type 0) where
  pub write_call-Ensures :
      (partly : ℕ → Files → Files) (works : Files → IoResult (Unit {0}) × Files)
      → ((fs : Files) → C fs → I (works fs).1 × Outcome Q E (works fs).0 (works fs).1)
      → ((n : ℕ) (fs : Files) (e : IoError) → F e → C fs → I (partly n fs) × E e (partly n fs))
      → Ensures (Now F I C) (write_call partly works) (λ a. Now F I (Q a)) (λ e. Now F I (E e))
  unfolding write_call
  write_call-Ensures partly works h k = record {
    at = λ d p.
        answer-Ensures F I E Q partly works d.files d.history d.faults (h d.files p.0)
          (λ n e f. k n d.files e f p.0) p.1 p.2;
  }
