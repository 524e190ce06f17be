-- ===== src/Entry/Honest.antt =====
-- src/lib.rs: what `run` says and returns, on streams that may fail.
use afk_cli.Prelude.{
  ℕ, ◌≡◌, refl, ap, sym, ◌∙◌, ◌⊎◌, inl, inr, List, [], ◌∷◌, ◌++◌, append-nil, Result, ok, err,
  ok_not_err, IoResult,
}
use mathlib.Core.Path.{subst}
use afk_cli.Prelude.Exec.{Exec, pure}
use afk_cli.Prelude.Ensures.{Ensures, Outcome}
use afk_cli.Session.{connect_or_start}
use afk_cli.Cli.{
  Command, help, version, session, sessions, stop, hidden_runner, hidden_child, ParseError, parse,
}
use afk_cli.Cli.Sound.{parse-Accepted}
use afk_cli.Cli.Complete.{IsNamed, Accepted-parse, parse-IsNamed}
use afk_cli.Entry.{
  ExitStatus, success, failure, usage, exit_code, help_text, Stream, Commands, session_result,
  Console, to_stdout, to_stderr, report, run_session_command, usage_text, run_parsed, run,
}
use afk_cli.Entry.Writing.{
  IsBroken, IsCut, Told, write_static-Told, write_usage_error-Told, write_session_error-Told,
  write_version-Told,
}
use afk_cli.Entry.Expected.{Verdict, misused, expected, Reports, commanded, unnamed, unaccepted}
use afk_cli.Entry.Texts.{judged, judged-done, judged-ended, usage_text-unsupported}

-- The verdict is carried out, or a stream fails: then only a part of its text is cut off.
pub record Delivers (v : Verdict) (before after : Console) (returned : ExitStatus) : Type 0 where
  pub says :
      (exit_code returned ≡ v.returns
        × (after.stdout.written ≡ before.stdout.written ++ v.on_stdout)
        × (after.stderr.written ≡ before.stderr.written ++ v.on_stderr))
      ⊎ (exit_code returned ≡ 1
          × (IsCut v.on_stdout before.stdout.written after.stdout.written
              × IsCut v.on_stderr before.stderr.written after.stderr.written)
          × (IsBroken before.stdout.answers ⊎ IsBroken before.stderr.answers))

abbrev pub Honest : Verdict → Console → IoResult ExitStatus → Console → Type 0
Honest v before (ok returned) after = Delivers v before after returned
Honest v before (err e) after = ⊥

nothing-IsCut : (before : List ℕ) → IsCut [] before before
nothing-IsCut before = record {
  part = [];
  lost = [];
  split = refl;
  wrote = sym (append-nil before);
}

module _ (before : Console) where
  on_stdout-Honest :
      (text : List ℕ) (status : ExitStatus) (m : Exec Stream ExitStatus)
      → Ensures (λ t. t ≡ before.stdout) m (Told text status before.stdout) (λ _ _. ⊥)
      → let out = to_stdout m before in
        Honest
          (record { returns = exit_code status; on_stdout = text; on_stderr = [] })
          before
          out.0
          out.1
  unfolding to_stdout exit_code
  on_stdout-Honest text status m h = by (m before.stdout).0 (m before.stdout).1 (h.at _ refl)
    where
      by :
          (r : IoResult ExitStatus) (t : Stream)
          → Outcome (Told text status before.stdout) (λ _ _. ⊥) r t
          → Honest
              (record { returns = exit_code status; on_stdout = text; on_stderr = [] })
              before
              r
              (record before { stdout = t })
      by (ok returned) t (inl k) = record {
        says = inl (ap exit_code k.0, k.1.wrote, sym (append-nil before.stderr.written));
      }
      by (ok returned) t (inr k) = record {
        says = inr (ap exit_code k.0, (k.1.0, nothing-IsCut before.stderr.written), inl k.1.1);
      }
      by (err e) t k = k

  on_stderr-Honest :
      (text : List ℕ) (status : ExitStatus) (m : Exec Stream ExitStatus)
      → Ensures (λ t. t ≡ before.stderr) m (Told text status before.stderr) (λ _ _. ⊥)
      → let out = to_stderr m before in
        Honest
          (record { returns = exit_code status; on_stdout = []; on_stderr = text })
          before
          out.0
          out.1
  unfolding to_stderr exit_code
  on_stderr-Honest text status m h = by (m before.stderr).0 (m before.stderr).1 (h.at _ refl)
    where
      by :
          (r : IoResult ExitStatus) (t : Stream)
          → Outcome (Told text status before.stderr) (λ _ _. ⊥) r t
          → Honest
              (record { returns = exit_code status; on_stdout = []; on_stderr = text })
              before
              r
              (record before { stderr = t })
      by (ok returned) t (inl k) = record {
        says = inl (ap exit_code k.0, sym (append-nil before.stdout.written), k.1.wrote);
      }
      by (ok returned) t (inr k) = record {
        says = inr (ap exit_code k.0, (nothing-IsCut before.stdout.written, k.1.0), inr k.1.1);
      }
      by (err e) t k = k

  report-Honest :
      (r : IoResult ExitStatus) → let out = report r before in Honest (judged r) before out.0 out.1
  unfolding pure
  report-Honest (ok status) = record {
    says =
        inl (refl, sym (append-nil before.stdout.written), sym (append-nil before.stderr.written));
  }
  report-Honest (err e) = on_stderr-Honest _ failure _ (write_session_error-Told _ e.kind)

module _ (c : Commands) (v : List ℕ) (before : Console) where
  command-Honest :
      (command : Command)
      → let out = run_parsed c v (ok command) before in
        Honest (expected c v command) before out.0 out.1
  unfolding run_session_command session_result exit_code
  command-Honest help = on_stdout-Honest before _ success _ (write_static-Told _ help_text)
  command-Honest version = on_stdout-Honest before _ success _ (write_version-Told _ v)
  command-Honest (session id trace command) =
      rw (← judged-ended (connect_or_start (c.session_host id trace command)).0)
        (report-Honest before _)
  command-Honest (sessions json) =
      rw (← judged-done (c.list_sessions json)) (report-Honest before _)
  command-Honest (stop id) = rw (← judged-done (c.stop_session id)) (report-Honest before _)
  command-Honest (hidden_runner id) = rw (← judged-done (c.run_runner id)) (report-Honest before _)
  command-Honest (hidden_child command) =
      rw (← judged-done (c.run_child command)) (report-Honest before _)

  -- The verdict that the arguments call for, and that it is carried out.
  abbrev Reported : List (List ℕ) → IoResult ExitStatus × Console → Type 0
  Reported arguments out =
      (verdict : Verdict) × Reports c v arguments verdict × Honest verdict before out.0 out.1

  misused-Honest :
      (e : ParseError) (text : List ℕ)
      → usage_text e ≡ text
      → let out = run_parsed c v (err e) before in Honest (misused text) before out.0 out.1
  unfolding exit_code
  misused-Honest e text h =
      rw (← h) (on_stderr-Honest before _ usage _ (write_usage_error-Told _ (usage_text e)))

  run_parsed-Reported :
      (arguments : List (List ℕ)) (parsed : Result ParseError Command)
      → parse arguments ≡ parsed
      → Reported arguments (run_parsed c v parsed before)
  unfolding parse
  run_parsed-Reported arguments (ok command) e = (
    expected c v command,
    commanded arguments command (parse-Accepted arguments command e),
    command-Honest command,
  )
  run_parsed-Reported [] (err e) h = (
    _,
    unnamed,
    misused-Honest e _ (
        ap (λ (r : Result ParseError Command). elim r [ ok _ ↦ [] | err er ↦ usage_text er ])
          (sym h)),
  )
  run_parsed-Reported (first ∷ rest) (err e) h = (
    _,
    unaccepted first rest
        (λ command a. ok_not_err (sym (Accepted-parse (first ∷ rest) command a) ∙ h)),
    misused-Honest e _ (usage_text-unsupported e (subst IsNamed h (parse-IsNamed first rest))),
  )

-- Whatever the arguments are, the program returns a status and reports no more and no less than they and
-- the result of the command call for. A command that is accepted as it is written: the help or
-- the version on the standard output and 0; or what the one function behind the command results in, its
-- shell's status or 0, and for an error 1 and the one message for the error's kind on the standard
-- error. Any other command line: 2 and the usage error, which says whether a command is missing or
-- is not supported. It returns 1 instead, with a part of the text, only where a stream fails a write.
pub run-Honest :
    (c : Commands) (package_version : List ℕ) (arguments : List (List ℕ)) (before : Console)
    → let out = run c package_version arguments before in
      (verdict : Verdict) × Reports c package_version arguments verdict
      × Honest verdict before out.0 out.1
unfolding run
run-Honest c package_version arguments before =
    run_parsed-Reported c package_version before arguments (parse arguments) refl
