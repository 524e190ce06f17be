-- ===== src/Session/Cautious.antt =====
-- src/session.rs: when a runner is launched.
use afk_cli.Prelude.{
  ℕ, ◌≡◌, refl, List, [], ◌∷◌, Bool, true, false, ok, err, IoError, IoResult, is_empty,
  Result-cases, arith, inl, inr, Bool-cases,
}
use afk_cli.Ipc.{ProcessExit}
use afk_cli.Ipc.Codec.{IsDimension}
use afk_cli.Terminal.{window_size, validate_dimensions}
use afk_cli.Session.{
  SessionHost, is_missing, size_or_default, launch, start_session, connect_failed, connect,
  connect_or_start,
}

abbrev pub IsSize : ℕ × ℕ → Type 0
IsSize size = IsDimension size.0 × IsDimension size.1

pub window_size-IsSize :
    (answer : IoResult (ℕ × ℕ)) (size : ℕ × ℕ) → window_size answer ≡ ok size → IsSize size
unfolding window_size validate_dimensions
window_size-IsSize (ok (rows, columns)) size e = ground arith
window_size-IsSize (err error) size e = ground arith

size_or_default-IsSize : (answer : IoResult (ℕ × ℕ)) → IsSize (size_or_default (window_size answer))
size_or_default-IsSize answer = elim (Result-cases (window_size answer)) [
  | inl (size, e) ↦ rw e (window_size-IsSize answer size e)
  | inr (error, e) ↦ rw e ((omega arith, omega arith), (omega arith, omega arith))
]

-- A launch: nobody could be attached to, nothing is recorded, and the size is within the bounds.
pub record IsCautious (host : SessionHost) (sizes : List (ℕ × ℕ)) : Type 0 where
  pub error : IoError
  pub refused : host.attach ≡ err error
  pub missing : is_missing error.kind ≡ true
  pub unrecorded : host.has_metadata ≡ ok false
  pub size : ℕ × ℕ
  pub once : sizes ≡ size ∷ []
  pub bounded : IsSize size

record Started (answer : IoResult Bool) (sizes : List (ℕ × ℕ)) : Type 0 where
  unrecorded : answer ≡ ok false
  size : ℕ × ℕ
  once : sizes ≡ size ∷ []
  bounded : IsSize size

start_session-Started :
    (host : SessionHost) (answer : IoResult Bool)
    → is_empty (start_session host answer).1 ≡ false
    → Started answer (start_session host answer).1
unfolding start_session launch
start_session-Started host (err e) h = ground (arith, h)
start_session-Started host (ok true) h = ground (arith, h)
start_session-Started host (ok false) h = record {
  unrecorded = refl;
  size = size_or_default (window_size host.tcgetwinsize);
  once = refl;
  bounded = size_or_default-IsSize host.tcgetwinsize;
}

connect-IsCautious :
    (host : SessionHost) (answer : IoResult ProcessExit)
    → host.attach ≡ answer
    → is_empty (connect host answer).1 ≡ false
    → IsCautious host (connect host answer).1
unfolding connect_failed
connect-IsCautious host (ok status) e h = ground (arith, h)
connect-IsCautious host (err error) e h = elim (Bool-cases (is_missing error.kind)) [
  | inr other ↦ ground (arith, rw other at h)
  | inl missing ↦
      let s = start_session-Started host host.has_metadata (rw missing at h) in
      rw missing (record {
        error = error;
        refused = e;
        missing = missing;
        unrecorded = s.unrecorded;
        size = s.size;
        once = s.once;
        bounded = s.bounded;
      })
]

-- A runner is only launched where no session could be reached, since there is none to connect to, and
-- none is recorded; there is one launch at most, with a terminal size from 1 to 4096 in both
-- directions.
pub connect_or_start-IsCautious :
    (host : SessionHost)
    → is_empty (connect_or_start host).1 ≡ false
    → IsCautious host (connect_or_start host).1
unfolding connect_or_start
connect_or_start-IsCautious host h = connect-IsCautious host host.attach refl h
