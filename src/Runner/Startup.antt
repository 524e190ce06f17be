-- ===== src/Runner/Startup.antt =====
-- src/runner.rs: how the launcher tells the runner what to start. The launcher writes to one end of a
-- socket pair, the runner reads the other; what it reads from is the list of the bytes to come.
pub mod RoundTrip
pub mod Accepts
mod Tests
use afk_cli.Prelude.{
  ℕ, zero, suc, ◌+◌, ◌^◌, List, [], ◌∷◌, ◌++◌, Bool, true, false, ◌&&◌, ◌||◌, Option, none, some,
  leb, ltb, ◌==◌, if◌then◌else◌, length, take, drop, get_or, be16, be32, from_be16, from_be32,
  Result, ok, err, ◌>>=◌, ◌>>◌, ok_or, guard, IoResult, io_error, invalid_input, invalid_data,
  unexpected_eof,
}
use afk_cli.Limits.{max_command_arguments, max_command_bytes}
use afk_cli.Cli.{checked_add}

pub record StartupConfig : Type 0 where
  pub trace : Bool
  pub command : List (List ℕ)
  pub rows : ℕ
  pub columns : ℕ

abbrev pub byte_of : Bool → ℕ
byte_of true = 1
byte_of false = 0

-- What is written, and how writing ends: the socket takes all bytes.
pub write_arguments : List ℕ → List (List ℕ) → IoResult (Unit {0}) × List ℕ
write_arguments out [] = (ok tt, out)
write_arguments out (argument ∷ rest) =
    let more = write_arguments (out ++ be32 (length argument) ++ argument) rest in
    if leb (2 ^ 32) (length argument) then (err (io_error invalid_input), out) else more

pub write_startup_config : Bool → List (List ℕ) → ℕ → ℕ → IoResult (Unit {0}) × List ℕ
write_startup_config trace command rows columns =
    if leb (2 ^ 16) (length command)
    then (err (io_error invalid_input), [])
    else write_arguments (be16 rows ++ be16 columns ++ byte_of trace ∷ be16 (length command))
        command

-- `Read::read_exact`
pub read_exact : ℕ → List ℕ → IoResult (List ℕ × List ℕ)
read_exact n input =
    if leb n (length input) then ok (take n input, drop n input) else err (io_error unexpected_eof)

pub read_u8 : List ℕ → IoResult (ℕ × List ℕ)
read_u8 input = do (bytes, rest) ← read_exact 1 input; ok (get_or bytes 0 0, rest)

pub read_u16 : List ℕ → IoResult (ℕ × List ℕ)
read_u16 input = do
  (bytes, rest) ← read_exact 2 input
  ok (from_be16 (get_or bytes 0 0) (get_or bytes 1 0), rest)

pub read_u32 : List ℕ → IoResult (ℕ × List ℕ)
read_u32 input = do
  (bytes, rest) ← read_exact 4 input
  ok (from_be32 (get_or bytes 0 0) (get_or bytes 1 0) (get_or bytes 2 0) (get_or bytes 3 0), rest)

pub read_trace : ℕ → IoResult Bool
read_trace byte =
    if byte == 0 then ok false else if byte == 1 then ok true else err (io_error invalid_data)

-- `.filter(|total| *total <= MAX_COMMAND_BYTES)`
pub if_small : Option ℕ → Option ℕ
if_small none = none
if_small (some total) = if leb total max_command_bytes then some total else none

-- The loop `for _ in 0..count`, with the bytes of the arguments so far.
pub read_arguments : ℕ → ℕ → List ℕ → IoResult (List (List ℕ) × List ℕ)
read_arguments zero aggregate input = ok ([], input)
read_arguments (suc count) aggregate input = do
  (size, input_1) ← read_u32 input
  total ← ok_or (if_small (checked_add aggregate size)) (io_error invalid_data)
  (bytes, input_2) ← read_exact size input_1
  (rest, input_3) ← read_arguments count total input_2
  ok (bytes ∷ rest, input_3)

-- The configuration, and what was not read.
pub read_startup_config : List ℕ → IoResult (StartupConfig × List ℕ)
read_startup_config input = do
  (rows, input_1) ← read_u16 input
  (columns, input_2) ← read_u16 input_1
  (trace_byte, input_3) ← read_u8 input_2
  trace ← read_trace trace_byte
  if rows == 0 || (columns == 0 || (ltb 4096 rows || ltb 4096 columns))
      then err (io_error invalid_data)
      else (do
        (count, input_4) ← read_u16 input_3
        if ltb max_command_arguments count then err (io_error invalid_data) else (do
          (command, input_5) ← read_arguments count 0 input_4
          ok (
            record { trace = trace; command = command; rows = rows; columns = columns },
            input_5,
          )))
