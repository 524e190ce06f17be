-- ===== src/Runner/Startup/Accepts.antt =====
-- src/runner.rs: the configurations that the runner accepts, and those of the command line.
use afk_cli.Prelude.{
  append-nil, ℕ, zero, suc, ◌+◌, ◌≤◌, ◌≡◌, refl, ap, sym, List, [], ◌∷◌, Bool, some, length, concat,
  length-append, ltb, ◌==◌, ◌||◌, if◌then◌else◌, length-take, ok, err, ◌>>=◌, >>=-eq-ok, ok_inj,
  ok_not_err, ok_or, ok_or-eq-ok, IoResult, io_error, invalid_data, arith, inl, inr, Bool-cases,
}
use afk_cli.Limits.{max_command_arguments, max_command_bytes}
use afk_cli.Identity.{SessionId}
use afk_cli.Ipc.Codec.{IsDimension}
use afk_cli.Cli.{checked_add, session, parse}
use afk_cli.Cli.Sound.{parse-Accepted}
use afk_cli.Runner.Startup.{
  StartupConfig, write_startup_config, read_exact, read_u8, read_u16, read_u32, read_trace,
  if_small, read_arguments, read_startup_config,
}
use afk_cli.Runner.Startup.RoundTrip.{IsConfig, read_startup_config-write}

-- A command that the command line accepts reaches the runner as it is: with a terminal of a size
-- within the bounds the launcher's writing succeeds, and the runner reads the same command, trace
-- option and size.
pub parse-read_startup_config :
    (args : List (List ℕ)) (id : SessionId) (trace : Bool) (command : List (List ℕ))
    (rows columns : ℕ)
    → parse args ≡ ok (session id trace command)
    → IsDimension rows
    → IsDimension columns
    → (bs : List ℕ) × (write_startup_config trace command rows columns ≡ (ok tt, bs))
      × (read_startup_config bs
          ≡ ok (record { trace = trace; command = command; rows = rows; columns = columns }, []))
parse-read_startup_config args id trace command rows columns e hr hc =
    let accepted = parse-Accepted args (session id trace command) e in
    let (bs, written, read) =
      read_startup_config-write
        (record { trace = trace; command = command; rows = rows; columns = columns }) []
        ((hr, hc), accepted.valid.1) in
    (bs, written, rw append-nil at read)

read_exact-length :
    (n : ℕ) (input bytes rest : List ℕ) → read_exact n input ≡ ok (bytes, rest) → length bytes ≡ n
unfolding read_exact
read_exact-length n input bytes rest e = ground (arith, length-take n input)

if_small-inv :
    (a b total : ℕ)
    → if_small (checked_add a b) ≡ some total
    → (total ≡ a + b) × (total ≤ max_command_bytes)
unfolding if_small
if_small-inv a b total e = ground arith

-- So many arguments as were announced, and no more bytes than the limit.
record ArgumentsFit (count total : ℕ) (command : List (List ℕ)) : Type 0 where
  counted : length command ≡ count
  small : total + length (concat command) ≤ max_command_bytes

read_arguments-ArgumentsFit :
    (count total : ℕ) (input : List ℕ) (command : List (List ℕ)) (rest : List ℕ)
    → total ≤ max_command_bytes
    → read_arguments count total input ≡ ok (command, rest)
    → ArgumentsFit count total command
unfolding read_arguments
read_arguments-ArgumentsFit zero total input command rest h e =
    let e' : [] ≡ command = ap (λ p. p.0) (ok_inj e) in
    rw (← e') (record { counted = refl; small = omega arith })
read_arguments-ArgumentsFit (suc count) total input command rest h e =
    let (sized, e1, k1) = >>=-eq-ok (read_u32 input) _ e in
    let (sum, e2, k2) =
      >>=-eq-ok (ok_or (if_small (checked_add total sized.0)) (io_error invalid_data)) _ k1 in
    let (got, e3, k3) = >>=-eq-ok (read_exact sized.0 sized.1) _ k2 in
    let (more, e4, k4) = >>=-eq-ok (read_arguments count sum got.1) _ k3 in
    let added = if_small-inv total sized.0 sum (ok_or-eq-ok _ _ e2) in
    let fit = read_arguments-ArgumentsFit count sum got.1 more.0 more.1 added.1 e4 in
    let e' : got.0 ∷ more.0 ≡ command = ap (λ p. p.0) (ok_inj k4) in
    rw (← e') (record {
      counted = omega (arith, fit.counted);
      small = omega (
        arith,
        fit.small,
        added.0,
        read_exact-length sized.0 sized.1 got.0 got.1 e3,
        length-append got.0 (concat more.0),
      );
    })

-- Past the header, what is read of the command.
command_of : ℕ → ℕ → Bool → ℕ × List ℕ → IoResult (StartupConfig × List ℕ)
command_of rows columns trace counted =
    if ltb max_command_arguments counted.0
    then err (io_error invalid_data)
    else (read_arguments counted.0 0 counted.1 >>= λ got.
        ok (record { trace = trace; command = got.0; rows = rows; columns = columns }, got.1))

command_of-IsConfig :
    (rows columns : ℕ) (trace : Bool) (counted : ℕ × List ℕ) (c : StartupConfig) (rest : List ℕ)
    → IsDimension rows
    → IsDimension columns
    → command_of rows columns trace counted ≡ ok (c, rest)
    → IsConfig c
unfolding command_of
command_of-IsConfig rows columns trace counted c rest hr hc e =
    elim (Bool-cases (ltb max_command_arguments counted.0)) [
      | inl many ↦ absurd (ok_not_err (sym (rw many at e)))
      | inr few ↦
          let (got, eg, k) = >>=-eq-ok (read_arguments counted.0 0 counted.1) _ (rw few at e) in
          let fit =
            read_arguments-ArgumentsFit counted.0 0 counted.1 got.0 got.1 (omega arith) eg in
          let same = ap (λ p. p.0) (ok_inj k) in
          rw (← same) ((hr, hc), (ground (arith, fit.counted), omega (arith, fit.small)))
    ]

-- Past the trace option, the test of the size and then the command.
sized_command : ℕ → ℕ → Bool → List ℕ → IoResult (StartupConfig × List ℕ)
unfolding command_of
sized_command rows columns trace input =
    if rows == 0 || (columns == 0 || (ltb 4096 rows || ltb 4096 columns))
    then err (io_error invalid_data)
    else (read_u16 input >>= command_of rows columns trace)

sized_command-IsConfig :
    (rows columns : ℕ) (trace : Bool) (input : List ℕ) (c : StartupConfig) (rest : List ℕ)
    → sized_command rows columns trace input ≡ ok (c, rest)
    → IsConfig c
unfolding sized_command
sized_command-IsConfig rows columns trace input c rest e =
    elim (Bool-cases (rows == 0 || (columns == 0 || (ltb 4096 rows || ltb 4096 columns)))) [
      | inl wrong ↦ absurd (ok_not_err (sym (rw wrong at e)))
      | inr sized ↦
          let (counted, e5, k5) = >>=-eq-ok (read_u16 input) _ (rw sized at e) in
          command_of-IsConfig rows columns trace counted c rest (ground (arith, sized))
            (ground (arith, sized)) k5
    ]

-- Whatever bytes arrive, a configuration that the runner accepts is within the bounds: the size of
-- the terminal, the number of arguments, and their length together.
pub read_startup_config-IsConfig :
    (input : List ℕ) (c : StartupConfig) (rest : List ℕ)
    → read_startup_config input ≡ ok (c, rest)
    → IsConfig c
unfolding read_startup_config sized_command
read_startup_config-IsConfig input c rest e =
    let (rows, e1, k1) = >>=-eq-ok (read_u16 input) _ e in
    let (columns, e2, k2) = >>=-eq-ok (read_u16 rows.1) _ k1 in
    let (byte, e3, k3) = >>=-eq-ok (read_u8 columns.1) _ k2 in
    let (trace, e4, k4) = >>=-eq-ok (read_trace byte.0) _ k3 in
    sized_command-IsConfig rows.0 columns.0 trace byte.1 c rest k4
