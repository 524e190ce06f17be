-- ===== src/Cli/Tests.antt =====
-- src/cli.rs on concrete command lines.
use afk_cli.Prelude.{ℕ, ◌≡◌, refl, List, [], ◌∷◌, true, codes, ok, err, arith, are_bytes-AreBytes}
use afk_cli.Identity.{SessionId, IsSessionId, parse_bytes, decode_pairs, decode_nibble}
use afk_cli.Cli.{
  Command, session, parse, parse_session, parse_session_id, parse_remaining, validate_command,
  aggregate, unsupported_command,
}
use afk_cli.Cli.Accepts.{arguments, parse-arguments}
use afk_cli.Cli.Sound.{Accepted, parse-Accepted}

abbrev sample : SessionId
sample = record { bytes = 0 ∷ 1 ∷ 2 ∷ 3 ∷ 4 ∷ 5 ∷ 6 ∷ 7 ∷ 8 ∷ 9 ∷ 10 ∷ 11 ∷ 12 ∷ 13 ∷ 14 ∷ 15 ∷ [] }

-- afk session 000102030405060708090a0b0c0d0e0f --trace -- ls -l
abbrev sample_arguments : List (List ℕ)
sample_arguments =
    codes "session"
    ∷ codes "000102030405060708090a0b0c0d0e0f"
    ∷ codes "--trace"
    ∷ codes "--"
    ∷ codes "ls"
    ∷ codes "-l"
    ∷ []

abbrev sample_command : Command
sample_command = session sample true (codes "ls" ∷ codes "-l" ∷ [])

sample-parse : parse sample_arguments ≡ ok sample_command
unfolding parse parse_session parse_session_id parse_remaining validate_command aggregate
    parse_bytes decode_pairs decode_nibble
sample-parse = refl

-- An option that stands alone only.
help-parse : parse (codes "--help" ∷ codes "stop" ∷ []) ≡ err unsupported_command
unfolding parse
help-parse = refl

parse-Accepted_example : Accepted sample_arguments sample_command
parse-Accepted_example = parse-Accepted sample_arguments sample_command sample-parse

sample-IsSessionId : IsSessionId sample
sample-IsSessionId = record { width = refl; are_bytes = are_bytes-AreBytes sample.bytes refl }

parse-arguments_example : parse (arguments sample_command) ≡ ok sample_command
parse-arguments_example =
    parse-arguments sample_command (sample-IsSessionId, (omega arith, omega arith))
