-- ===== src/Cli/Complete.antt =====
-- src/cli.rs: what is not accepted, and with which errors.
use afk_cli.Prelude.{
  ◌≡◌, refl, inl, inr, List, [], ◌∷◌, Bool, true, false, ◌&&◌, ◌||◌, not, is_empty, bytes_eq, codes,
  length, ltb, Result, ok, err, ◌>>=◌, map_err, if◌then◌else◌,
}
use afk_cli.Limits.{max_command_arguments}
use afk_cli.Identity.{SessionId, parse_bytes}
use afk_cli.Cli.{
  Command, stop, hidden_runner, ParseError, missing_command, unsupported_command,
  invalid_session_id, invalid_arguments, command_too_large, aggregate, is_small, validate_command,
  parse_session_id, parse_session_command, parse_sessions, parse_hidden_child, split_trace,
  parse_remaining, parse_session, parse,
}
use afk_cli.Cli.Accepts.{parse-arguments}
use afk_cli.Cli.Sound.{Accepted}

-- Nothing else is accepted than a command within the bounds, as it is written.
pub Accepted-parse : (args : List (List _)) (c : Command) → Accepted args c → parse args ≡ ok c
unfolding parse
Accepted-parse args c a = elim a.spelled [
  | inl e ↦ rw e (parse-arguments c a.valid)
  | inr (inl (e, h)) ↦ rw (e, h) refl
  | inr (inr (e, h)) ↦ rw (e, h) refl
]

-- A command is there, if not one that is supported.
abbrev pub IsNamed {ℓ} : {A : Type ℓ} → Result ParseError A → Type 0
IsNamed (ok a) = Unit {0}
IsNamed (err missing_command) = ⊥
IsNamed (err _) = Unit {0}

module _ {A B : Type 0} where
  bind-IsNamed :
      (r : Result ParseError A) (f : A → Result ParseError B)
      → IsNamed r
      → ((a : A) → IsNamed (f a))
      → IsNamed (r >>= f)
  bind-IsNamed (ok a) f h k = k a
  bind-IsNamed (err missing_command) f h k = absurd h
  bind-IsNamed (err unsupported_command) f h k = tt
  bind-IsNamed (err invalid_session_id) f h k = tt
  bind-IsNamed (err invalid_arguments) f h k = tt
  bind-IsNamed (err command_too_large) f h k = tt

if-IsNamed :
    {A : Type 0} (b : Bool) (m n : Result ParseError A)
    → IsNamed m
    → IsNamed n
    → IsNamed (if b then m else n)
if-IsNamed true m n h k = h
if-IsNamed false m n h k = k

validate_command-IsNamed : (command : List (List _)) → IsNamed (validate_command command)
unfolding validate_command
validate_command-IsNamed command =
    if-IsNamed (ltb max_command_arguments (length command)) _ _ tt
      (if-IsNamed (is_small (aggregate _ command)) _ _ tt tt)

parse_session_id-IsNamed : (value : List _) → IsNamed (parse_session_id value)
unfolding parse_session_id
parse_session_id-IsNamed value = mapped (parse_bytes value)
  where
    mapped : {E : Type 0} (r : Result E SessionId) → IsNamed (map_err r invalid_session_id)
    mapped (ok a) = tt
    mapped (err e) = tt

parse_session_command-IsNamed :
    (rest : List (List _)) (command : SessionId → Command)
    → IsNamed (parse_session_command rest command)
unfolding parse_session_command
parse_session_command-IsNamed [] command = tt
parse_session_command-IsNamed (value ∷ []) command =
    bind-IsNamed _ _ (parse_session_id-IsNamed value) (λ id. tt)
parse_session_command-IsNamed (value ∷ other ∷ rest) command = tt

parse_sessions-IsNamed : (rest : List (List _)) → IsNamed (parse_sessions rest)
unfolding parse_sessions
parse_sessions-IsNamed [] = tt
parse_sessions-IsNamed (option ∷ []) = if-IsNamed (bytes_eq option (codes "--json")) _ _ tt tt
parse_sessions-IsNamed (option ∷ other ∷ rest) = tt

parse_hidden_child-IsNamed : (rest : List (List _)) → IsNamed (parse_hidden_child rest)
unfolding parse_hidden_child
parse_hidden_child-IsNamed [] = tt
parse_hidden_child-IsNamed (first ∷ rest) =
    bind-IsNamed _ _ (validate_command-IsNamed (first ∷ rest)) (λ u. tt)

parse_remaining-IsNamed : (rest : List (List _)) → IsNamed (parse_remaining rest)
unfolding parse_remaining
parse_remaining-IsNamed [] = tt
parse_remaining-IsNamed (separator ∷ command) =
    if-IsNamed (bytes_eq separator (codes "--") && not (is_empty command)) _ _
      (bind-IsNamed _ _ (validate_command-IsNamed command) (λ u. tt)) tt

parse_session-IsNamed : (rest : List (List _)) → IsNamed (parse_session rest)
unfolding parse_session
parse_session-IsNamed [] = tt
parse_session-IsNamed (value ∷ rest) =
    bind-IsNamed _ _ (parse_session_id-IsNamed value)
      (λ id. bind-IsNamed _ _ (parse_remaining-IsNamed (split_trace rest).1) (λ command. tt))

-- Only a command line without a word lacks a command.
pub parse-IsNamed : (first : List _) (rest : List (List _)) → IsNamed (parse (first ∷ rest))
unfolding parse
parse-IsNamed first rest =
    if-IsNamed ((bytes_eq first (codes "--help") || bytes_eq first (codes "-h")) && is_empty rest) _
      _ tt
      (if-IsNamed
        ((bytes_eq first (codes "--version") || bytes_eq first (codes "-V")) && is_empty rest) _ _
        tt
        (if-IsNamed (bytes_eq first (codes "session")) _ _ (parse_session-IsNamed rest) (
          if-IsNamed (bytes_eq first (codes "sessions")) _ _ (parse_sessions-IsNamed rest) (
            if-IsNamed (bytes_eq first (codes "stop")) _ _ (parse_session_command-IsNamed rest stop)
              (if-IsNamed (bytes_eq first (codes "__runner")) _ _
                (parse_session_command-IsNamed rest hidden_runner)
                (if-IsNamed (bytes_eq first (codes "__child")) _ _ (parse_hidden_child-IsNamed rest)
                  tt))))))
