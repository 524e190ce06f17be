-- ===== src/Trace/Growth.antt =====
-- src/trace.rs: the length of a file behind the calls that the trace makes.
use afk_cli.Prelude.{
  ℕ, ◌+◌, ◌≤◌, ◌≡◌, refl, List, [], ◌∷◌, ◌++◌, Option, none, some, length, length-append, take, All,
  arith, ok, err, IoResult, already_exists,
}
use afk_cli.Prelude.Ensures.{Ensures, Outcome}
use afk_cli.Registry.Disk.{
  FilePath, Files, Entry, Fault, proceed, fails, Disk, symlink_metadata, found, create_file,
  new_entry, write_all, FileKind, grown, passes, call, write_call,
}
use afk_cli.Registry.Disk.Calls.{set_entry_same}

-- A write that fails has written nothing.
abbrev pub IsHarmless : Fault → Type 0
IsHarmless proceed = Unit {0}
IsHarmless (fails n e) = n ≡ 0

abbrev pub size : Option Entry → ℕ
size none = 0
size (some e) = length e.bytes

-- At most `n` bytes are in the file.
pub record Has (p : FilePath) (n : ℕ) (d : Disk) : Type 0 where
  pub harmless : All IsHarmless d.faults
  pub small : size (d.files p) ≤ n

grown-size :
    (p : FilePath) (bytes : List ℕ) (files : Files)
    → size (grown p bytes (files p) files p) ≤ size (files p) + length bytes
grown-size p bytes files = by (files p) refl
  where
    by : (o : Option Entry) → files p ≡ o → size (grown p bytes o files p) ≤ size o + length bytes
    by none e = rw e (omega arith)
    by (some f) e =
        rw (set_entry_same p (some (record f { bytes = f.bytes ++ bytes })) files)
          (omega (arith, length-append f.bytes bytes))

module _ (p : FilePath) where
  pub write_all-Has :
      (bytes : List ℕ) (n : ℕ)
      → Ensures (Has p n) (write_all p bytes) (λ _. Has p (n + length bytes)) (λ _. Has p n)
  unfolding write_all write_call
  write_all-Has bytes n = record { at = λ d h. by d.files d.history d.faults h }
    where
      by :
          (files : Files) (history : List Files) (faults : List Fault)
          → Has p n (record { files = files; history = history; faults = faults })
          → let out =
              write_all p bytes (record { files = files; history = history; faults = faults }) in
            Outcome (λ _. Has p (n + length bytes)) (λ _. Has p n) out.0 out.1
      by files history [] h = record {
        harmless = tt;
        small = omega (arith, h.small, grown-size p bytes files);
      }
      by files history (proceed ∷ faults) h = record {
        harmless = h.harmless.1;
        small = omega (arith, h.small, grown-size p bytes files);
      }
      by files history (fails m e ∷ faults) h = record {
        harmless = h.harmless.1;
        small = rw (h.harmless.0) (omega (arith, h.small, grown-size p (take 0 bytes) files));
      }

  pub same_files-Has :
      (works : Files → IoResult (Unit {0}) × Files) (n : ℕ)
      → ((files : Files) → size ((works files).1 p) ≤ size (files p))
      → Ensures (Has p n) (call works) (λ _. Has p n) (λ _. Has p n)
  unfolding call
  same_files-Has works n k = record { at = λ d h. by d.files d.history d.faults h }
    where
      settled :
          (r : IoResult (Unit {0})) (d : Disk)
          → Has p n d
          → Outcome (λ _. Has p n) (λ _. Has p n) r d
      settled (ok _) d h = h
      settled (err _) d h = h

      by :
          (files : Files) (history : List Files) (faults : List Fault)
          → Has p n (record { files = files; history = history; faults = faults })
          → let out = call works (record { files = files; history = history; faults = faults }) in
            Outcome (λ _. Has p n) (λ _. Has p n) out.0 out.1
      by files history [] h =
          settled (works files).0 _
            (record { harmless = tt; small = omega (arith, h.small, k files) })
      by files history (proceed ∷ faults) h =
          settled (works files).0 _
            (record { harmless = h.harmless.1; small = omega (arith, h.small, k files) })
      by files history (fails m e ∷ faults) h = record { harmless = h.harmless.1; small = h.small }

  -- The length that `symlink_metadata` finds.
  pub symlink_metadata-Has :
      (n : ℕ)
      → Ensures
          (Has p n)
          (symlink_metadata p)
          (λ e d. (length e.bytes ≤ n) × Has p (length e.bytes) d)
          (λ _. Has p n)
  unfolding symlink_metadata call
  symlink_metadata-Has n = record { at = λ d h. by d.files d.history d.faults h }
    where
      looked :
          (files : Files) (history : List Files) (faults : List Fault) (o : Option Entry)
          → files p ≡ o
          → All IsHarmless faults
          → size o ≤ n
          → Outcome
              (λ (e : Entry) d. (length e.bytes ≤ n) × Has p (length e.bytes) d)
              (λ _. Has p n)
              (found o)
              (record { files = files; history = files ∷ history; faults = faults })
      looked files history faults none e h k = record { harmless = h; small = rw e k }
      looked files history faults (some entry) e h k =
          (k, record { harmless = h; small = rw e (omega arith) })

      by :
          (files : Files) (history : List Files) (faults : List Fault)
          → Has p n (record { files = files; history = history; faults = faults })
          → let out =
              symlink_metadata p (record { files = files; history = history; faults = faults }) in
            Outcome
              (λ (e : Entry) d. (length e.bytes ≤ n) × Has p (length e.bytes) d)
              (λ _. Has p n)
              out.0
              out.1
      by files history [] h = looked files history [] (files p) refl tt h.small
      by files history (proceed ∷ faults) h =
          looked files history faults (files p) refl h.harmless.1 h.small
      by files history (fails m e ∷ faults) h = record { harmless = h.harmless.1; small = h.small }

  pub create_file-Has :
      (uid mode n : ℕ) → Ensures (Has p n) (create_file uid p mode) (λ _. Has p n) (λ _. Has p n)
  unfolding create_file
  create_file-Has uid mode n = same_files-Has _ n (λ files. made files (files p) refl)
    where
      made :
          (files : Files) (o : Option Entry)
          → files p ≡ o
          → size (
              (new_entry already_exists p
                  (record { kind = FileKind.regular; owner = uid; mode = mode; bytes = [] })
                  o
                  files).1
                p)
            ≤ size o
      made files none e = rw (set_entry_same p _ files) (omega arith)
      made files (some f) e = rw e (omega arith)

  pub passes-Has : (n : ℕ) → Ensures (Has p n) passes (λ _. Has p n) (λ _. Has p n)
  unfolding passes
  passes-Has n = same_files-Has _ n (λ files. omega arith)
