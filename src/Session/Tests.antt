-- ===== src/Session/Tests.antt =====
-- src/session.rs on a session that is not there yet.
use afk_cli.Prelude.{◌≡◌, refl, [], ◌∷◌, false, ok, err, io_error, not_found, is_empty}
use afk_cli.Ipc.{code}
use afk_cli.Terminal.{window_size, validate_dimensions}
use afk_cli.Session.{SessionHost, launch, start_session, connect_failed, connect_or_start}
use afk_cli.Session.Cautious.{IsCautious, connect_or_start-IsCautious}

abbrev fresh : SessionHost
fresh = record {
  attach = err (io_error not_found);
  has_metadata = ok false;
  tcgetwinsize = ok (0, 0);
  launch_runner = λ rows columns. ok tt;
  attach_again = ok (code 0);
}

-- A terminal without a size gets the default.
fresh-run : connect_or_start fresh ≡ (ok (code 0), (24, 80) ∷ [])
unfolding connect_or_start connect_failed start_session launch window_size validate_dimensions
fresh-run = refl

fresh-launched : is_empty (connect_or_start fresh).1 ≡ false
unfolding connect_or_start connect_failed start_session launch
fresh-launched = refl

connect_or_start-IsCautious_example : IsCautious fresh (connect_or_start fresh).1
connect_or_start-IsCautious_example = connect_or_start-IsCautious fresh fresh-launched
