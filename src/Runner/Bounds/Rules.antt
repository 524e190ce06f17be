-- ===== src/Runner/Bounds/Rules.antt =====
-- src/runner.rs: the bound as an invariant, with a rule for each way to build a function.
use afk_cli.Prelude.{Bool, none, IoError, IoResult, String, if◌then◌else◌}
use afk_cli.Runner.State.{Runner, Host}
use afk_cli.Runner.Monad.{
  Run, pure, fail, lift, gets, modify, ◌>>=◌, ◌>>◌, when, trace_event, trace_io_error,
  record_attached,
}
use afk_cli.Runner.Ensures.{
  Keeps, Ensures-pure, Ensures-fail, Ensures-lift, Ensures-gets, Ensures-if, Ensures-bind,
  Ensures-modify, Ensures-when, Ensures-trace_event, Ensures-trace_io_error,
  Ensures-record_attached,
}
use afk_cli.Runner.Loop.{set_active, set_candidate}
use afk_cli.Runner.Bounds.Parts.{Within}

abbrev pub IsWithin : Runner → Type 0
IsWithin s = Within s.tail s.pty_input s.active s.candidate

module _ {A : Type 0} where
  pub IsWithin-pure : (a : A) → Keeps IsWithin (pure a)
  IsWithin-pure a = Ensures-pure a (λ s h. h)

  pub IsWithin-fail : (e : IoError) → Keeps IsWithin (fail {A = A} e)
  IsWithin-fail e = Ensures-fail e (λ s h. h)

  pub IsWithin-lift : (r : IoResult A) → Keeps IsWithin (lift r)
  IsWithin-lift r = Ensures-lift r (λ a s _ h. h) (λ s h. h)

  pub IsWithin-gets : (f : Runner → A) → Keeps IsWithin (gets f)
  IsWithin-gets f = Ensures-gets f (λ s h. h)

  pub IsWithin-if :
      (b : Bool) (m n : Run A)
      → Keeps IsWithin m
      → Keeps IsWithin n
      → Keeps IsWithin (if b then m else n)
  IsWithin-if b m n hm hn = Ensures-if b m n (λ _. hm) (λ _. hn)

pub IsWithin-bind :
    {A B : Type 0} (m : Run A) (f : A → Run B)
    → Keeps IsWithin m
    → ((a : A) → Keeps IsWithin (f a))
    → Keeps IsWithin (m >>= f)
IsWithin-bind m f hm hf = Ensures-bind m f hm hf

pub IsWithin-seq :
    {B : Type 0} (m : Run (Unit {0})) (k : Run B)
    → Keeps IsWithin m
    → Keeps IsWithin k
    → Keeps IsWithin (m >> k)
IsWithin-seq m k hm hk = Ensures-bind m (λ _. k) hm (λ _. hk)

pub IsWithin-when : (b : Bool) (m : Run (Unit {0})) → Keeps IsWithin m → Keeps IsWithin (when b m)
IsWithin-when b m h = Ensures-when b m (λ _. h) (λ _ s p. p)

pub IsWithin-trace_event : (event : String) → Keeps IsWithin (trace_event event)
IsWithin-trace_event event = Ensures-trace_event event (λ s h. h) (λ s e h. h)

pub IsWithin-trace_io_error :
    (event : String) (e : IoError) → Keeps IsWithin (trace_io_error event e)
IsWithin-trace_io_error event e = Ensures-trace_io_error event e (λ s h. h) (λ s e h. h)

pub IsWithin-record_attached :
    (host : Host) (value : Bool) → Keeps IsWithin (record_attached host value)
IsWithin-record_attached host value = Ensures-record_attached host value (λ s h. h) (λ s h. h)

pub IsWithin-modify :
    (f : Runner → Runner) → ((s : Runner) → IsWithin s → IsWithin (f s)) → Keeps IsWithin (modify f)
IsWithin-modify f h = Ensures-modify f h

pub IsWithin-drop_active : Keeps IsWithin (set_active none)
IsWithin-drop_active = IsWithin-modify _ (λ s h. record {
  tail_fits = h.tail_fits;
  input_fits = h.input_fits;
  active_fits = tt;
  candidate_fits = h.candidate_fits;
})

pub IsWithin-drop_candidate : Keeps IsWithin (set_candidate none)
IsWithin-drop_candidate = IsWithin-modify _ (λ s h. record {
  tail_fits = h.tail_fits;
  input_fits = h.input_fits;
  active_fits = h.active_fits;
  candidate_fits = tt;
})

pub ruleset within_rules = (
  IsWithin-pure, IsWithin-fail, IsWithin-lift, IsWithin-gets, IsWithin-if, IsWithin-bind,
  IsWithin-when, IsWithin-trace_event, IsWithin-trace_io_error, IsWithin-record_attached,
  IsWithin-drop_active, IsWithin-drop_candidate,
)
