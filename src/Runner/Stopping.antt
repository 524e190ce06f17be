-- ===== src/Runner/Stopping.antt =====
-- src/runner.rs, `stop_child`: a child is asked to end, and killed if it does not. What the system
-- answers about the child is an argument.
pub mod Patience
mod Tests
use afk_cli.Prelude.{List, [], ◌∷◌, Option, none, some, ℕ, Result, ok, err, IoResult}
use afk_cli.Runner.State.{ExitStatus}

pub data Signal : Type 0 where
  terminate kill : Signal

-- `polls` are the answers of `try_wait` before the deadline, one for each 50 milliseconds.
pub record ChildHost : Type 0 where
  pub try_wait : IoResult (Option ExitStatus)
  pub pid : IoResult ℕ
  pub kill_term : IoResult (Unit {0})
  pub polls : List (IoResult (Option ExitStatus))
  pub last_try_wait : IoResult (Option ExitStatus)
  pub kill_kill : IoResult (Unit {0})
  pub wait : IoResult ExitStatus

-- Past the deadline.
unfoldable pub force_child : ChildHost → Option ExitStatus → IoResult ExitStatus × List Signal
force_child host (some status) = (host.wait, [])
force_child host none = elim host.kill_kill [ err e ↦ (err e, []) | ok _ ↦ (host.wait, kill ∷ []) ]

-- The loop `while Instant::now() < deadline`, and what follows it.
unfoldable pub await_child :
    ChildHost → List (IoResult (Option ExitStatus)) → IoResult ExitStatus × List Signal
await_child host [] = elim host.last_try_wait [
  | err e ↦ (err e, [])
  | ok found ↦ force_child host found
]
await_child host (err e ∷ polls) = (err e, [])
await_child host (ok (some status) ∷ polls) = (ok status, [])
await_child host (ok none ∷ polls) = await_child host polls

unfoldable pub ask_child : ChildHost → Option ExitStatus → IoResult ExitStatus × List Signal
ask_child host (some status) = (ok status, [])
ask_child host none = elim host.pid [
  | err e ↦ (err e, [])
  | ok pid ↦ elim host.kill_term [
    | err e ↦ (err e, [])
    | ok _ ↦ (let (result, signals) = await_child host host.polls in (result, terminate ∷ signals))
  ]
]

-- The status of the child, and the signals that it was sent.
unfoldable pub stop_child : ChildHost → IoResult ExitStatus × List Signal
stop_child host = elim host.try_wait [ err e ↦ (err e, []) | ok found ↦ ask_child host found ]
