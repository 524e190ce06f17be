-- ===== src/Runner/Stopping/Tests.antt =====
-- src/runner.rs, `stop_child`, on a child that does not listen.
use afk_cli.Prelude.{◌≡◌, refl, [], ◌∷◌, true, none, some, ok}
use afk_cli.Runner.Stopping.{ChildHost, stop_child, ask_child, await_child, force_child}
use afk_cli.Runner.Stopping.Patience.{has_kill, WasPatient, stop_child-WasPatient}

abbrev stubborn : ChildHost
stubborn = record {
  try_wait = ok none;
  pid = ok 4711;
  kill_term = ok tt;
  polls = ok none ∷ ok none ∷ [];
  last_try_wait = ok none;
  kill_kill = ok tt;
  wait = ok (record { code = none; signal = some 9 });
}

stubborn-has_kill : has_kill (stop_child stubborn).1 ≡ true
unfolding stop_child ask_child await_child force_child
stubborn-has_kill = refl

stop_child-WasPatient_example : WasPatient stubborn (stop_child stubborn).1
stop_child-WasPatient_example = stop_child-WasPatient stubborn stubborn-has_kill
