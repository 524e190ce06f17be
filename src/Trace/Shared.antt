-- ===== src/Trace/Shared.antt =====
-- src/trace.rs: a runner and its attachments, which append to the same file in any order.
use afk_cli.Prelude.{
  ℕ, ◌+◌, ◌≤◌, ◌≡◌, refl, List, [], ◌∷◌, Option, none, some, All, arith, ok, err, IoError, IoResult,
}
use afk_cli.Prelude.Exec.{Exec, ◌>>=◌, pure, attempt}
use afk_cli.Prelude.Ensures.{
  Ensures, Outcome, Ensures-pure, Ensures-attempt, Ensures-bind, Ensures-map,
}
use afk_cli.Registry.Disk.{FilePath, Files, Fault, Disk}
use afk_cli.Registry.Disk.Calls.{disk}
use afk_cli.Registry.Files.{owner_only_mode}
use afk_cli.Trace.{max_trace_bytes, Trace, Moment, Report, event, report, create_trace, open_trace}
use afk_cli.Trace.Growth.{IsHarmless, size, Has, create_file-Has}
use afk_cli.Trace.Counting.{IsTrace, Counts, report-Counts, begun-Counts, open_trace-Counts}

-- The runner's trace, and that of the attachment, where one is open.
pub record Writers : Type 0 where
  pub runner : Trace
  pub attachment : Option Trace

-- What happens next to the file.
pub data Turn : Type 0 where
  runner_reports attachment_reports : Moment → Report → Turn
  attaches : Moment → Turn
  detaches : Turn

-- An attachment that may not open the file leaves things as they are.
unfoldable pub attachment_turn : Moment → Report → Writers → Option Trace → Exec Disk Writers
unfolding ◌>>=◌
attachment_turn m r s none = pure s
attachment_turn m r s (some a) = do t ← report m a r; pure (record s { attachment = some t })

module _ (uid : ℕ) (p : FilePath) where
  unfoldable pub turn : Turn → Writers → Exec Disk Writers
  unfolding attempt ◌>>=◌
  turn (runner_reports m r) s = do t ← report m s.runner r; pure (record s { runner = t })
  turn (attachment_reports m r) s = attachment_turn m r s s.attachment
  turn (attaches m) s =
      attempt (open_trace uid m p "attachment") (λ t. pure (record s { attachment = some t }))
        (λ _. pure s)
  turn detaches s = pure (record s { attachment = none })

  unfoldable pub turns : List Turn → Writers → Exec Disk Writers
  unfolding ◌>>=◌
  turns [] s = pure s
  turns (now ∷ rest) s = do s' ← turn now s; turns rest s'

  unfoldable pub traced_session : Moment → List Turn → Exec Disk Writers
  unfolding ◌>>=◌
  traced_session m steps = do
    t ← create_trace uid m p "runner"
    turns steps (record { runner = t; attachment = none })

-- What the attachments may add to the runner's limit: nothing where none comes.
abbrev pub others_limit : List Turn → ℕ
others_limit [] = 0
others_limit (attaches m ∷ rest) = max_trace_bytes
others_limit (_ ∷ rest) = others_limit rest

others_limit_le : (steps : List Turn) → others_limit steps ≤ max_trace_bytes
others_limit_le [] = omega arith
others_limit_le (attaches m ∷ rest) = omega arith
others_limit_le (runner_reports m r ∷ rest) = others_limit_le rest
others_limit_le (attachment_reports m r ∷ rest) = others_limit_le rest
others_limit_le (detaches ∷ rest) = others_limit_le rest

module _ (p : FilePath) (cap : ℕ) where
  -- `w` is what the attachment counted.
  abbrev Holds : ℕ → Option Trace → Type 0
  Holds w none = Unit {0}
  Holds w (some a) = IsTrace p a × (a.written ≡ w) × (max_trace_bytes ≤ cap)

  record Facts (s : Writers) (w : ℕ) : Type 0 where
    within : w ≤ cap
    holds : Holds w s.attachment
    runner : IsTrace p s.runner

  abbrev Shares : Writers → Disk → Type 0
  Shares s d = (w : ℕ) × (Facts s w × Has p (s.runner.written + w) d)

  from-Shares :
      {A : Type 0} {m : Exec Disk A} {Q : A → Disk → Type 0} {E : IoError → Disk → Type 0}
      (s : Writers)
      → ((w : ℕ) → Facts s w → Ensures (Has p (s.runner.written + w)) m Q E)
      → Ensures (Shares s) m Q E
  from-Shares s h = record { at = λ d k. (h k.0 k.1.0).at d k.1.1 }

  attached-Shares :
      (s : Writers) (t : Trace) (d : Disk)
      → IsTrace p s.runner
      → max_trace_bytes ≤ cap
      → Counts p s.runner.written t d
      → Shares (record s { attachment = some t }) d
  attached-Shares s t d runner le k = (t.written, (facts, has))
    where
      facts : Facts (record s { attachment = some t }) t.written
      facts = record {
        within = omega (arith, k.0.bounded);
        holds = (k.0, refl, le);
        runner = runner;
      }

      has : Has p (s.runner.written + t.written) d
      has = record { harmless = k.1.harmless; small = omega (arith, k.1.small) }

  attachment_turn-Shares :
      (m : Moment) (r : Report) (s : Writers) (o : Option Trace) (w : ℕ)
      → Facts s w
      → Holds w o
      → Ensures (Has p (s.runner.written + w)) (attachment_turn m r s o) Shares (λ _ _. ⊥)
  unfolding attachment_turn
  attachment_turn-Shares m r s none w f h = Ensures-pure s (λ d k. (w, (f, k)))
  attachment_turn-Shares m r s (some a) w f h =
      Ensures-bind _ _
        (Ensures-map (λ d k. record { harmless = k.harmless; small = omega (arith, k.small, h.1) })
          (λ t d k. k) (λ e d k. k) (report-Counts p m s.runner.written a r h.0))
        (λ t.
          Ensures-pure (record s { attachment = some t })
            (λ d k. attached-Shares s t d f.runner h.2 k))

  runner_turn-Shares :
      (m : Moment) (r : Report) (s : Writers) (w : ℕ)
      → Facts s w
      → Ensures
          (Has p (s.runner.written + w))
          (report m s.runner r >>= λ t. pure (record s { runner = t }))
          Shares
          (λ _ _. ⊥)
  unfolding ◌>>=◌
  runner_turn-Shares m r s w f = Ensures-bind _ _ (report-Counts p m w s.runner r f.runner) (λ t.
      Ensures-pure (record s { runner = t })
        (λ d k. (w, (record { within = f.within; holds = f.holds; runner = k.0 }, k.1))))

  -- A turn that the limit allows.
  abbrev Allowed : Turn → Type 0
  Allowed (attaches m) = max_trace_bytes ≤ cap
  Allowed _ = Unit {0}

  turn-Shares :
      (uid : ℕ) (now : Turn) (s : Writers)
      → Allowed now
      → Ensures (Shares s) (turn uid p now s) Shares (λ _ _. ⊥)
  unfolding turn
  turn-Shares uid (runner_reports m r) s allowed = from-Shares s (runner_turn-Shares m r s)
  turn-Shares uid (attachment_reports m r) s allowed =
      from-Shares s (λ w f. attachment_turn-Shares m r s s.attachment w f f.holds)
  turn-Shares uid (attaches m) s allowed = from-Shares s (λ w f.
      Ensures-attempt _ _ _
        (open_trace-Counts p m s.runner.written uid "attachment" (s.runner.written + w))
        (λ t.
          Ensures-pure (record s { attachment = some t })
            (λ d k. attached-Shares s t d f.runner allowed k))
        (λ e. Ensures-pure s (λ d k. (w, (f, k)))))
  turn-Shares uid detaches s allowed = from-Shares s (λ w f.
      Ensures-pure (record s { attachment = none })
        (λ d k. (w, (record { within = f.within; holds = tt; runner = f.runner }, k))))

  here-Allowed : (now : Turn) (rest : List Turn) → others_limit (now ∷ rest) ≤ cap → Allowed now
  here-Allowed (attaches m) rest h = h
  here-Allowed (runner_reports m r) rest h = tt
  here-Allowed (attachment_reports m r) rest h = tt
  here-Allowed detaches rest h = tt

  limit_later :
      (now : Turn) (rest : List Turn) → others_limit (now ∷ rest) ≤ cap → others_limit rest ≤ cap
  limit_later (attaches m) rest h = omega (arith, h, others_limit_le rest)
  limit_later (runner_reports m r) rest h = h
  limit_later (attachment_reports m r) rest h = h
  limit_later detaches rest h = h

  turns-Shares :
      (uid : ℕ) (steps : List Turn) (s : Writers)
      → others_limit steps ≤ cap
      → Ensures (Shares s) (turns uid p steps s) Shares (λ _ _. ⊥)
  unfolding turns
  turns-Shares uid [] s h = Ensures-pure s (λ d k. k)
  turns-Shares uid (now ∷ rest) s h =
      Ensures-bind _ _ (turn-Shares uid now s (here-Allowed now rest h))
        (λ s'. turns-Shares uid rest s' (limit_later now rest h))

  traced_session-Shares :
      (uid : ℕ) (m : Moment) (steps : List Turn)
      → others_limit steps ≤ cap
      → Ensures (Has p 0) (traced_session uid p m steps) Shares (λ _. Has p 0)
  unfolding traced_session create_trace
  traced_session-Shares uid m steps h =
      Ensures-bind {Q = λ t. Counts p 0 t} _ _
        (Ensures-bind {Q = λ _. Has p 0} _ _ (create_file-Has p uid owner_only_mode 0) (λ _.
          Ensures-map (λ d k. k) (λ t d k. k) (λ e d k. absurd k)
            (begun-Counts p m 0 "runner" 0 (event "trace_started") (omega arith))))
        (λ t.
          Ensures-map (λ d k. (0, (begins t k.0, k.1))) (λ s d k. k) (λ e d k. absurd k)
            (turns-Shares uid steps (record { runner = t; attachment = none }) h))
    where
      begins : (t : Trace) → IsTrace p t → Facts (record { runner = t; attachment = none }) 0
      begins t k = record { within = omega arith; holds = tt; runner = k }

-- The file of a runner that is traced never gets longer than 1 MiB if no attachment writes to it, and than
-- 2 MiB if attachments do, in whatever order the runner and one attachment at a time report. The
-- file is not there at first, and a write that the system fails has written nothing.
pub traced_session-IsBounded :
    (uid : ℕ) (p : FilePath) (m : Moment) (steps : List Turn) (files : Files) (faults : List Fault)
    → files p ≡ none
    → All IsHarmless faults
    → size ((traced_session uid p m steps (disk files faults)).1.files p)
      ≤ max_trace_bytes + others_limit steps
traced_session-IsBounded uid p m steps files faults free harmless = told _ _ (
    (traced_session-Shares p (others_limit steps) uid m steps (omega arith)).at (disk files faults)
      (record { harmless = harmless; small = rw free (omega arith) }))
  where
    told :
        (r : IoResult Writers) (d : Disk)
        → Outcome (Shares p (others_limit steps)) (λ _. Has p 0) r d
        → size (d.files p) ≤ max_trace_bytes + others_limit steps
    told (ok s) d k = omega (arith, k.1.1.small, k.1.0.within, k.1.0.runner.bounded)
    told (err e) d k = omega (arith, k.small)
