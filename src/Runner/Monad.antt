-- ===== src/Runner/Monad.antt =====
-- src/runner.rs: functions that change the variables of the event loop and may fail.
use afk_cli.Prelude.{Bool, if◌then◌else◌, ok, err, IoError, IoResult, String}
use afk_cli.Runner.State.{Runner, traced, traced_error, recorded, Host, emit}

-- What was changed before a failure stays changed.
abbrev pub Run : Type 0 → Type 0
Run A = Runner → IoResult A × Runner

module _ {A : Type 0} where
  unfoldable pub pure : A → Run A
  pure a s = (ok a, s)

  unfoldable pub fail : IoError → Run A
  fail e s = (err e, s)

  unfoldable pub lift : IoResult A → Run A
  lift r s = (r, s)

  unfoldable pub gets : (Runner → A) → Run A
  gets f s = (ok (f s), s)

unfoldable pub modify : (Runner → Runner) → Run (Unit {0})
modify f s = (ok tt, f s)

module _ {A B : Type 0} where
  abbrev pub continue : IoResult A → (A → Run B) → Run B
  continue (ok a) f s = f a s
  continue (err e) f s = (err e, s)

  infixl 5 ◌>>=◌ ◌>>◌
  -- opening this opens the actions above too
  unfoldable pub ◌>>=◌ : Run A → (A → Run B) → Run B
  unfolding pure fail lift gets modify
  ◌>>=◌ m f s = let (r, s') = m s in continue r f s'

  abbrev pub ◌>>◌ : Run A → Run B → Run B
  m >> k = m >>= λ _. k

unfoldable pub when : Bool → Run (Unit {0}) → Run (Unit {0})
unfolding pure
when b m = if b then m else pure tt

-- `trace_event` and `trace_io_error`: nothing without a trace.
unfoldable pub trace_event : String → Run (Unit {0})
unfolding modify
trace_event event = modify (λ s. if s.tracing then emit (traced event) s else s)

unfoldable pub trace_io_error : String → IoError → Run (Unit {0})
unfolding modify
trace_io_error event error =
    modify (λ s. if s.tracing then emit (traced_error event error) s else s)

abbrev pub set_attached : Bool → Runner → Runner
set_attached value s = emit (recorded value) (record s { attached = value })

-- `registry.write_metadata` of the live record: the file is replaced, or left as it is.
unfoldable pub record_attached : Host → Bool → Run (Unit {0})
record_attached host value = do lift (host.write_metadata value); modify (set_attached value)
