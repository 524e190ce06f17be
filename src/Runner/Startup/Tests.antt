-- ===== src/Runner/Startup/Tests.antt =====
-- src/runner.rs, the startup configuration, on a concrete one.
use afk_cli.Prelude.{ℕ, ◌≡◌, refl, List, [], ◌∷◌, ◌++◌, true, codes, ok, arith}
use afk_cli.Identity.{SessionId, parse_bytes, decode_pairs, decode_nibble}
use afk_cli.Cli.{
  session, parse, parse_session, parse_session_id, parse_remaining, validate_command, aggregate,
}
use afk_cli.Runner.Startup.{
  StartupConfig, write_arguments, write_startup_config, read_exact, read_u8, read_u16, read_u32,
  read_trace, if_small, read_arguments, read_startup_config,
}
use afk_cli.Runner.Startup.RoundTrip.{IsConfig, read_startup_config-write}
use afk_cli.Runner.Startup.Accepts.{parse-read_startup_config, read_startup_config-IsConfig}

abbrev sample : StartupConfig
sample = record { trace = true; command = codes "ls" ∷ codes "-l" ∷ []; rows = 24; columns = 80 }

abbrev sample_bytes : List ℕ
sample_bytes =
    0 ∷ 24 ∷ 0 ∷ 80 ∷ 1 ∷ 0 ∷ 2 ∷ 0 ∷ 0 ∷ 0 ∷ 2 ∷ 108 ∷ 115 ∷ 0 ∷ 0 ∷ 0 ∷ 2 ∷ 45 ∷ 108 ∷ []

sample-write :
    write_startup_config true (codes "ls" ∷ codes "-l" ∷ []) 24 80 ≡ (ok tt, sample_bytes)
unfolding write_startup_config write_arguments
sample-write = refl

sample-read : read_startup_config sample_bytes ≡ ok (sample, [])
unfolding read_startup_config read_arguments read_u8 read_u16 read_u32 read_exact read_trace
    if_small
sample-read = refl

read_startup_config-write_example :
    (bs : List ℕ) × (write_startup_config true (codes "ls" ∷ codes "-l" ∷ []) 24 80 ≡ (ok tt, bs))
    × (read_startup_config (bs ++ 7 ∷ []) ≡ ok (sample, 7 ∷ []))
read_startup_config-write_example =
    read_startup_config-write sample (7 ∷ [])
      (((omega arith, omega arith), (omega arith, omega arith)), (omega arith, omega arith))

read_startup_config-IsConfig_example : IsConfig sample
read_startup_config-IsConfig_example =
    read_startup_config-IsConfig sample_bytes sample [] sample-read

abbrev sample_id : SessionId
sample_id = record {
  bytes = 0 ∷ 1 ∷ 2 ∷ 3 ∷ 4 ∷ 5 ∷ 6 ∷ 7 ∷ 8 ∷ 9 ∷ 10 ∷ 11 ∷ 12 ∷ 13 ∷ 14 ∷ 15 ∷ [];
}

abbrev sample_arguments : List (List ℕ)
sample_arguments =
    codes "session"
    ∷ codes "000102030405060708090a0b0c0d0e0f"
    ∷ codes "--trace"
    ∷ codes "--"
    ∷ codes "ls"
    ∷ codes "-l"
    ∷ []

sample-parse : parse sample_arguments ≡ ok (session sample_id true (codes "ls" ∷ codes "-l" ∷ []))
unfolding parse parse_session parse_session_id parse_remaining validate_command aggregate
    parse_bytes decode_pairs decode_nibble
sample-parse = refl

parse-read_startup_config_example :
    (bs : List ℕ) × (write_startup_config true (codes "ls" ∷ codes "-l" ∷ []) 24 80 ≡ (ok tt, bs))
    × (read_startup_config bs ≡ ok (sample, []))
parse-read_startup_config_example =
    parse-read_startup_config sample_arguments sample_id true (codes "ls" ∷ codes "-l" ∷ []) 24 80
      sample-parse (omega arith, omega arith) (omega arith, omega arith)
