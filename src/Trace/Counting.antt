-- ===== src/Trace/Counting.antt =====
-- src/trace.rs: what a trace has counted, against the length of its file.
use Prim.Native.String.{String}
use afk_cli.Prelude.{ℕ, ◌+◌, ◌≤◌, ◌≡◌, refl, List, [], false, ltb, leb, length, arith}
use afk_cli.Prelude.Ensures.{
  Ensures, Ensures-pure, Ensures-fail, Ensures-if, Ensures-attempt, Ensures-bind, Ensures-map,
  Ensures-fact,
}
use afk_cli.Registry.Disk.{FilePath, Entry, Disk}
use afk_cli.Trace.{
  max_trace_bytes, Trace, Moment, line_text, append_line, write, Report, event, io_failure, metric,
  report, open_checked, is_unsafe, open_trace,
}
use afk_cli.OutputTail.{saturating_add}
use afk_cli.Trace.Growth.{Has, write_all-Has, symlink_metadata-Has, passes-Has}

module _ (p : FilePath) where
  -- A trace of this file that has not counted too much.
  pub record IsTrace (t : Trace) : Type 0 where
    pub same_file : t.file ≡ p
    pub bounded : t.written ≤ max_trace_bytes

  -- The file has what the trace counted, and `others`.
  abbrev pub Counts : ℕ → Trace → Disk → Type 0
  Counts others t d = IsTrace t × Has p (t.written + others) d

  module _ (m : Moment) (others : ℕ) where
    append_line-Counts :
        (t : Trace) (line : List ℕ)
        → IsTrace t
        → t.written + length line ≤ max_trace_bytes
        → Ensures (Has p (t.written + others)) (append_line t line) (Counts others) (λ _ _. ⊥)
    unfolding append_line
    append_line-Counts t line h fits =
        Ensures-attempt {Q = λ _. Has p (t.written + others + length line)}
          {F = λ _. Has p (t.written + others)} _ _ _
          (rw h.same_file (write_all-Has p line (t.written + others)))
          (λ _. Ensures-pure _ (λ d k. (
            record { same_file = h.same_file; bounded = fits },
            record { harmless = k.harmless; small = omega (arith, k.small) },
          )))
          (λ _. Ensures-pure t (λ d k. (h, k)))

    write-Counts :
        (t : Trace) (e : String) (detail : List ℕ)
        → IsTrace t
        → Ensures (Has p (t.written + others)) (write m t e detail) (Counts others) (λ _ _. ⊥)
    unfolding write
    write-Counts t e detail h =
        Ensures-if (leb max_trace_bytes t.written) _ _ (λ _. Ensures-pure t (λ d k. (h, k)))
          (λ _.
            let line = line_text m t e detail in
            Ensures-if (ltb max_trace_bytes (saturating_add t.written (length line))) _ _
              (λ _. Ensures-pure t (λ d k. (h, k)))
              (λ room. append_line-Counts t line h (fits t.written (length line) room)))
      where
        fits :
            (a b : ℕ) → ltb max_trace_bytes (saturating_add a b) ≡ false → a + b ≤ max_trace_bytes
        fits a b room = ground arith

    pub report-Counts :
        (t : Trace) (r : Report)
        → IsTrace t
        → Ensures (Has p (t.written + others)) (report m t r) (Counts others) (λ _ _. ⊥)
    unfolding report
    report-Counts t (event e) h = write-Counts t e [] h
    report-Counts t (io_failure e error) h = write-Counts t e _ h
    report-Counts t (metric e name value) h = write-Counts t e _ h

    -- A trace that begins with what is in the file.
    pub begun-Counts :
        (component : String) (n : ℕ) (r : Report)
        → n ≤ max_trace_bytes
        → Ensures
            (Has p n)
            (report m (record { file = p; component = component; written = n }) r)
            (Counts others)
            (λ _ _. ⊥)
    begun-Counts component n r small =
        Ensures-map (λ d h. record { harmless = h.harmless; small = omega (arith, h.small) })
          (λ t d h. h) (λ e d h. h)
          (report-Counts (record { file = p; component = component; written = n }) r
            (record { same_file = refl; bounded = small }))

    open_checked-Counts :
        (component : String) (n k : ℕ)
        → n ≤ max_trace_bytes
        → n ≤ k
        → Ensures (Has p n) (open_checked m p component n) (Counts others) (λ _. Has p k)
    unfolding open_checked
    open_checked-Counts component n k small le =
        Ensures-bind {Q = λ _. Has p n} _ _
          (Ensures-map (λ d h. h) (λ _ d h. h) (λ _ d h. weaker n k le d h) (passes-Has p n))
          (λ _.
            Ensures-map (λ d h. h) (λ t d h. h) (λ e d h. absurd h)
              (begun-Counts component n (event "trace_opened") small))
      where
        weaker : (n k : ℕ) → n ≤ k → (d : Disk) → Has p n d → Has p k d
        weaker n k le d h = record { harmless = h.harmless; small = omega (arith, h.small) }

    pub open_trace-Counts :
        (uid : ℕ) (component : String) (n : ℕ)
        → Ensures (Has p n) (open_trace uid m p component) (Counts others) (λ _. Has p n)
    unfolding open_trace
    open_trace-Counts uid component n = Ensures-bind _ _ (symlink_metadata-Has p n) (λ e.
        Ensures-fact (λ le.
          Ensures-if (is_unsafe uid e) _ _
            (λ _. Ensures-fail _ (λ d h. weaker (length e.bytes) n le d h))
            (λ safe. open_checked-Counts component (length e.bytes) n (is_short e safe) le)))
      where
        weaker : (n k : ℕ) → n ≤ k → (d : Disk) → Has p n d → Has p k d
        weaker n k le d h = record { harmless = h.harmless; small = omega (arith, h.small) }

        is_short : (e : Entry) → is_unsafe uid e ≡ false → length e.bytes ≤ max_trace_bytes
        is_short e safe = ground arith
