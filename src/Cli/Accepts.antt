-- ===== src/Cli/Accepts.antt =====
-- src/cli.rs: what the parser accepts.
use afk_cli.Prelude.{
  ℕ, ◌+◌, ◌^◌, ◌≤◌, ◌<◌, ◌≡◌, refl, ap, sym, ◌∙◌, List, [], ◌∷◌, Bool, true, false, none, some, ltb,
  Option-cases, some_not_none, codes, length, concat, length-append, is_empty, ok, arith, inl, inr,
  Bool-cases,
}
use afk_cli.Limits.{max_command_arguments, max_command_bytes}
use afk_cli.Identity.{SessionId, IsSessionId, display}
use afk_cli.Identity.RoundTrip.{parse_bytes-display}
use afk_cli.Cli.{
  Command, help, version, session, sessions, stop, hidden_runner, hidden_child, aggregate,
  validate_command, parse_session_id, parse_session_command, parse_sessions, parse_hidden_child,
  parse_remaining, split_trace, parse_session, parse,
}

-- Within the bounds of the program.
abbrev pub IsBounded : List (List ℕ) → Type 0
IsBounded command =
    (length command ≤ max_command_arguments) × (length (concat command) ≤ max_command_bytes)

aggregate-sum :
    (command : List (List ℕ)) (total : ℕ)
    → total + length (concat command) < 2 ^ 64
    → aggregate (some total) command ≡ some (total + length (concat command))
unfolding aggregate
aggregate-sum [] total h = ap some (omega arith)
aggregate-sum (argument ∷ rest) total h =
    let fits : ltb (total + length argument) (2 ^ 64) ≡ true =
      ground (arith, length-append argument (concat rest)) in
    rw fits (
      aggregate-sum rest (total + length argument)
        (omega (arith, length-append argument (concat rest)))
      ∙ ap some (omega (arith, length-append argument (concat rest))))

aggregate-none : (command : List (List ℕ)) → aggregate none command ≡ none
unfolding aggregate
aggregate-none [] = refl
aggregate-none (argument ∷ rest) = aggregate-none rest

-- A sum that was found is the sum.
aggregate-inv :
    (command : List (List ℕ)) (total n : ℕ)
    → aggregate (some total) command ≡ some n
    → n ≡ total + length (concat command)
unfolding aggregate
aggregate-inv [] total n e = ground arith
aggregate-inv (argument ∷ rest) total n e =
    elim (Bool-cases (ltb (total + length argument) (2 ^ 64))) [
      | inl fits ↦ omega (
        arith,
        aggregate-inv rest (total + length argument) n (rw fits at e),
        length-append argument (concat rest),
      )
      | inr over ↦ absurd (some_not_none (sym (rw over at e) ∙ aggregate-none rest))
    ]

pub validate_command-IsBounded :
    (command : List (List ℕ)) → IsBounded command → validate_command command ≡ ok tt
unfolding validate_command
validate_command-IsBounded command h =
    rw (aggregate-sum command 0 (omega (arith, h.1))) (ground arith)

pub IsBounded-validate_command :
    (command : List (List ℕ)) (u : Unit {0}) → validate_command command ≡ ok u → IsBounded command
unfolding validate_command
IsBounded-validate_command command u e = elim (Option-cases (aggregate (some 0) command)) [
  | inl over ↦ ground (arith, rw over at e)
  | inr (n, sum) ↦ let total = aggregate-inv command 0 n sum in ground (arith, total, rw sum at e)
]

-- The command of `afk session`, as it is written.
abbrev pub separated : List (List ℕ) → List (List ℕ)
separated [] = []
separated (first ∷ rest) = codes "--" ∷ first ∷ rest

abbrev pub flagged : Bool → List (List ℕ) → List (List ℕ)
flagged true rest = codes "--trace" ∷ rest
flagged false rest = rest

-- The arguments that a command is written with, as a specification.
abbrev pub arguments : Command → List (List ℕ)
arguments help = codes "--help" ∷ []
arguments version = codes "--version" ∷ []
arguments (session id trace command) =
    codes "session" ∷ display id ∷ flagged trace (separated command)
arguments (sessions true) = codes "sessions" ∷ codes "--json" ∷ []
arguments (sessions false) = codes "sessions" ∷ []
arguments (stop id) = codes "stop" ∷ display id ∷ []
arguments (hidden_runner id) = codes "__runner" ∷ display id ∷ []
arguments (hidden_child command) = codes "__child" ∷ command

abbrev pub IsCommand : Command → Type 0
IsCommand help = Unit {0}
IsCommand version = Unit {0}
IsCommand (session id trace command) = IsSessionId id × IsBounded command
IsCommand (sessions json) = Unit {0}
IsCommand (stop id) = IsSessionId id
IsCommand (hidden_runner id) = IsSessionId id
IsCommand (hidden_child command) = (is_empty command ≡ false) × IsBounded command

parse_session_id-display : (id : SessionId) → IsSessionId id → parse_session_id (display id) ≡ ok id
unfolding parse_session_id
parse_session_id-display id h = rw (parse_bytes-display id h)

parse_remaining-separated :
    (command : List (List ℕ)) → IsBounded command → parse_remaining (separated command) ≡ ok command
unfolding parse_remaining
parse_remaining-separated [] h = refl
parse_remaining-separated (first ∷ rest) h = rw (validate_command-IsBounded (first ∷ rest) h)

split_trace-flagged :
    (trace : Bool) (command : List (List ℕ))
    → split_trace (flagged trace (separated command)) ≡ (trace, separated command)
split_trace-flagged true command = refl
split_trace-flagged false [] = refl
split_trace-flagged false (first ∷ rest) = refl

parse_session-arguments :
    (id : SessionId) (trace : Bool) (command : List (List ℕ))
    → IsSessionId id
    → IsBounded command
    → parse_session (display id ∷ flagged trace (separated command)) ≡ ok (session id trace command)
unfolding parse_session
parse_session-arguments id trace command hi hc = rw (
  parse_session_id-display id hi,
  split_trace-flagged trace command,
  parse_remaining-separated command hc,
)

parse_command-display :
    (id : SessionId) (command : SessionId → Command)
    → IsSessionId id
    → parse_session_command (display id ∷ []) command ≡ ok (command id)
unfolding parse_session_command
parse_command-display id command h = rw (parse_session_id-display id h)

parse_hidden_child-IsBounded :
    (command : List (List ℕ))
    → is_empty command ≡ false
    → IsBounded command
    → parse_hidden_child command ≡ ok (hidden_child command)
unfolding parse_hidden_child
parse_hidden_child-IsBounded [] e h = ground arith
parse_hidden_child-IsBounded (first ∷ rest) e h = rw (validate_command-IsBounded (first ∷ rest) h)

-- Every command within the bounds can be written, and is parsed as what was written.
pub parse-arguments : (c : Command) → IsCommand c → parse (arguments c) ≡ ok c
unfolding parse parse_sessions
parse-arguments help h = refl
parse-arguments version h = refl
parse-arguments (session id trace command) h = parse_session-arguments id trace command h.0 h.1
parse-arguments (sessions true) h = refl
parse-arguments (sessions false) h = refl
parse-arguments (stop id) h = parse_command-display id stop h
parse-arguments (hidden_runner id) h = parse_command-display id hidden_runner h
parse-arguments (hidden_child command) h = parse_hidden_child-IsBounded command h.0 h.1
