-- ===== src/Runner/Startup/RoundTrip.antt =====
-- src/runner.rs: the startup configuration, written and then read.
use afk_cli.Prelude.{
  ℕ, ◌+◌, ◌^◌, ◌≤◌, ◌<◌, ◌≡◌, refl, ap, sym, ◌∙◌, List, [], ◌∷◌, ◌++◌, append-nil, append_assoc,
  Bool, true, false, some, length, concat, length-append, take-append_len, drop-append_len, be16,
  be32, from_be16-be16, from_be32-be32, leb, ltb, ok, ◌==◌, ◌||◌, arith,
}
use afk_cli.Limits.{max_command_arguments, max_command_bytes}
use afk_cli.Ipc.Codec.{IsDimension}
use afk_cli.Cli.{checked_add}
use afk_cli.Cli.Accepts.{IsBounded}
use afk_cli.Runner.Startup.{
  StartupConfig, byte_of, write_arguments, write_startup_config, read_exact, read_u8, read_u16,
  read_u32, read_trace, if_small, read_arguments, read_startup_config,
}

-- What is written for the arguments, as a specification.
abbrev pub argument_bytes : List (List ℕ) → List ℕ
argument_bytes [] = []
argument_bytes (argument ∷ rest) = be32 (length argument) ++ argument ++ argument_bytes rest

abbrev pub config_bytes : StartupConfig → List ℕ
config_bytes c =
    be16 c.rows
    ++ be16 c.columns
    ++ byte_of c.trace ∷ be16 (length c.command)
    ++ argument_bytes c.command

abbrev pub IsConfig : StartupConfig → Type 0
IsConfig c = (IsDimension c.rows × IsDimension c.columns) × IsBounded c.command

write_arguments-lem :
    (command : List (List ℕ)) (out : List ℕ)
    → length (concat command) ≤ max_command_bytes
    → write_arguments out command ≡ (ok tt, out ++ argument_bytes command)
unfolding write_arguments
write_arguments-lem [] out h = ap (λ l. (ok tt, l)) (sym (append-nil out))
write_arguments-lem (argument ∷ rest) out h =
    let small : leb (2 ^ 32) (length argument) ≡ false =
      ground (arith, length-append argument (concat rest)) in
    rw small (
      write_arguments-lem rest (out ++ be32 (length argument) ++ argument)
        (omega (arith, length-append argument (concat rest)))
      ∙ ap (λ l. (ok tt, l))
          (append_assoc (out ++ be32 (length argument)) argument (argument_bytes rest)
            ∙ append_assoc out (be32 (length argument)) (argument ++ argument_bytes rest)))

read_exact-append :
    (n : ℕ) (bytes rest : List ℕ)
    → n ≡ length bytes
    → read_exact n (bytes ++ rest) ≡ ok (bytes, rest)
unfolding read_exact
read_exact-append n bytes rest e =
    let room : leb n (length (bytes ++ rest)) ≡ true = ground (arith, length-append bytes rest) in
    rw (room, take-append_len n bytes rest e, drop-append_len n bytes rest e)

read_u8-cons : (b : ℕ) (rest : List ℕ) → read_u8 (b ∷ rest) ≡ ok (b, rest)
unfolding read_u8
read_u8-cons b rest = rw (read_exact-append 1 (b ∷ []) rest refl)

read_u16-be16 : (v : ℕ) (rest : List ℕ) → v < 2 ^ 16 → read_u16 (be16 v ++ rest) ≡ ok (v, rest)
unfolding read_u16
read_u16-be16 v rest h = rw (read_exact-append 2 (be16 v) rest refl, from_be16-be16 v h)

read_u32-be32 : (v : ℕ) (rest : List ℕ) → v < 2 ^ 32 → read_u32 (be32 v ++ rest) ≡ ok (v, rest)
unfolding read_u32
read_u32-be32 v rest h = rw (read_exact-append 4 (be32 v) rest refl, from_be32-be32 v h)

if_small-sum : (a b : ℕ) → a + b ≤ max_command_bytes → if_small (checked_add a b) ≡ some (a + b)
unfolding if_small
if_small-sum a b h = ground arith

read_arguments-lem :
    (command : List (List ℕ)) (total : ℕ) (rest : List ℕ)
    → total + length (concat command) ≤ max_command_bytes
    → read_arguments (length command) total (argument_bytes command ++ rest) ≡ ok (command, rest)
unfolding read_arguments
read_arguments-lem [] total rest h = refl
read_arguments-lem (argument ∷ command) total rest h =
    let n = length argument in
    let more = argument_bytes command ++ rest in
    let size = length-append argument (concat command) in
    rw (append_assoc argument (argument_bytes command) rest) (
      rw
        (
          read_u32-be32 n (argument ++ more) (omega (arith, size)),
          if_small-sum total n (omega (arith, size)),
          read_exact-append n argument more refl,
          read_arguments-lem command (total + n) rest (omega (arith, size)),
        )
        refl)

-- The launcher's writing succeeds.
write_startup_config-lem :
    (c : StartupConfig)
    → IsConfig c
    → write_startup_config c.trace c.command c.rows c.columns ≡ (ok tt, config_bytes c)
unfolding write_startup_config
write_startup_config-lem c h =
    let few : leb (2 ^ 16) (length c.command) ≡ false = ground (arith, h.1.0) in
    rw few (write_arguments-lem c.command _ h.1.1)

read_trace-byte_of : (trace : Bool) → read_trace (byte_of trace) ≡ ok trace
unfolding read_trace
read_trace-byte_of true = refl
read_trace-byte_of false = refl

read_startup_config-lem :
    (c : StartupConfig) (rest : List ℕ)
    → IsConfig c
    → read_startup_config (config_bytes c ++ rest) ≡ ok (c, rest)
unfolding read_startup_config
read_startup_config-lem c rest h =
    let arguments = argument_bytes c.command ++ rest in
    let counted = be16 (length c.command) ++ arguments in
    let few : ltb max_command_arguments (length c.command) ≡ false = ground (arith, h.1.0) in
    let sized : (c.rows == 0 || (c.columns == 0 || (ltb 4096 c.rows || ltb 4096 c.columns)))
        ≡ false =
      ground (arith, h.0) in
    rw
      (
        read_u16-be16 c.rows (be16 c.columns ++ byte_of c.trace ∷ counted) (omega (arith, h.0.0)),
        read_u16-be16 c.columns (byte_of c.trace ∷ counted) (omega (arith, h.0.1)),
        read_u8-cons (byte_of c.trace) counted,
        read_trace-byte_of c.trace,
        sized,
        read_u16-be16 (length c.command) arguments (omega (arith, h.1.0)),
        few,
        read_arguments-lem c.command 0 rest (omega (arith, h.1.1)),
      )
      refl

-- What the launcher writes for a configuration within the bounds is read back by the runner as that
-- configuration, whatever bytes follow, and neither side fails.
pub read_startup_config-write :
    (c : StartupConfig) (rest : List ℕ)
    → IsConfig c
    → (bs : List ℕ) × (write_startup_config c.trace c.command c.rows c.columns ≡ (ok tt, bs))
      × (read_startup_config (bs ++ rest) ≡ ok (c, rest))
read_startup_config-write c rest h =
    (config_bytes c, write_startup_config-lem c h, read_startup_config-lem c rest h)
