-- ===== src/Cli.antt =====
-- src/cli.rs: the command line. An `OsStr` is the list of its encoded bytes.
pub mod Accepts
pub mod Sound
pub mod Complete
mod Tests
use afk_cli.Prelude.{
  ℕ, ◌+◌, ◌^◌, List, [], ◌∷◌, Bool, true, false, ◌&&◌, ◌||◌, not, Option, none, some, leb, ltb,
  if◌then◌else◌, bytes_eq, codes, length, is_empty, Result, ok, err, ◌>>=◌, ◌>>◌, map_err,
}
use afk_cli.Limits.{max_command_arguments, max_command_bytes}
use afk_cli.Identity.{SessionId, parse_bytes}

pub data Command : Type 0 where
  help version : Command
  session : SessionId → (trace : Bool) → (command : List (List ℕ)) → Command
  sessions : (json : Bool) → Command
  stop hidden_runner : SessionId → Command
  hidden_child : (command : List (List ℕ)) → Command

pub data ParseError : Type 0 where
  missing_command unsupported_command invalid_session_id invalid_arguments command_too_large :
      ParseError

-- `usize::checked_add`
abbrev pub checked_add : ℕ → ℕ → Option ℕ
checked_add a b = if ltb (a + b) (2 ^ 64) then some (a + b) else none

abbrev pub add_length : Option ℕ → List ℕ → Option ℕ
add_length none argument = none
add_length (some total) argument = checked_add total (length argument)

-- The `try_fold` of `validate_command`, from a total on.
unfoldable pub aggregate : Option ℕ → List (List ℕ) → Option ℕ
aggregate total [] = total
aggregate total (argument ∷ rest) = aggregate (add_length total argument) rest

abbrev pub is_small : Option ℕ → Bool
is_small none = false
is_small (some total) = leb total max_command_bytes

unfoldable pub validate_command : List (List ℕ) → Result ParseError (Unit {0})
unfolding aggregate
validate_command command =
    if ltb max_command_arguments (length command)
    then err command_too_large
    else if is_small (aggregate (some 0) command)
    then ok tt
    else err command_too_large

unfoldable pub parse_session_id : List ℕ → Result ParseError SessionId
parse_session_id value = map_err (parse_bytes value) invalid_session_id

unfoldable pub parse_session_command :
    List (List ℕ) → (SessionId → Command) → Result ParseError Command
parse_session_command (value ∷ []) command = do id ← parse_session_id value; ok (command id)
parse_session_command _ command = err invalid_arguments

unfoldable pub parse_sessions : List (List ℕ) → Result ParseError Command
parse_sessions [] = ok (sessions false)
parse_sessions (option ∷ []) =
    if bytes_eq option (codes "--json") then ok (sessions true) else err invalid_arguments
parse_sessions _ = err invalid_arguments

unfoldable pub parse_hidden_child : List (List ℕ) → Result ParseError Command
parse_hidden_child [] = err invalid_arguments
parse_hidden_child (first ∷ rest) = do
  validate_command (first ∷ rest)
  ok (hidden_child (first ∷ rest))

-- What stands behind the identifier and `--trace`.
unfoldable pub parse_remaining : List (List ℕ) → Result ParseError (List (List ℕ))
parse_remaining [] = ok []
parse_remaining (separator ∷ command) =
    if bytes_eq separator (codes "--") && not (is_empty command)
    then (do validate_command command; ok command)
    else err invalid_arguments

-- `--trace`, if it comes first, and the rest.
abbrev pub split_trace : List (List ℕ) → Bool × List (List ℕ)
split_trace [] = (false, [])
split_trace (option ∷ remaining) =
    if bytes_eq option (codes "--trace") then (true, remaining) else (false, option ∷ remaining)

unfoldable pub parse_session : List (List ℕ) → Result ParseError Command
parse_session [] = err invalid_arguments
parse_session (value ∷ rest) = do
  id ← parse_session_id value
  command ← parse_remaining (split_trace rest).1
  ok (session id (split_trace rest).0 command)

unfoldable pub parse : List (List ℕ) → Result ParseError Command
parse [] = err missing_command
parse (first ∷ rest) =
    if (bytes_eq first (codes "--help") || bytes_eq first (codes "-h")) && is_empty rest
    then ok help
    else if (bytes_eq first (codes "--version") || bytes_eq first (codes "-V")) && is_empty rest
    then ok version
    else if bytes_eq first (codes "session")
    then parse_session rest
    else if bytes_eq first (codes "sessions")
    then parse_sessions rest
    else if bytes_eq first (codes "stop")
    then parse_session_command rest stop
    else if bytes_eq first (codes "__runner")
    then parse_session_command rest hidden_runner
    else if bytes_eq first (codes "__child")
    then parse_hidden_child rest
    else err unsupported_command
