-- ===== src/Trace.antt =====
-- src/trace.rs: the diagnostics of a runner and of an attachment, in a file that both append to.
pub mod Growth
pub mod Counting
pub mod Shared
mod Tests
use Prim.Native.String.{String}
use Prim.Native.Nat.{◌/◌}
use afk_cli.Prelude.{
  ℕ, zero, suc, ◌+◌, ◌*◌, ◌%◌, List, [], ◌∷◌, ◌++◌, Bool, true, false, ◌||◌, not, Option, none,
  some, ltb, leb, ◌==◌, if◌then◌else◌, length, codes, ok, err, IoError, IoResult, io_error,
  ErrorKind, not_found, permission_denied, connection_refused, connection_reset, connection_aborted,
  not_connected, broken_pipe, already_exists, would_block, invalid_input, invalid_data, timed_out,
  write_zero, interrupted, unexpected_eof, out_of_memory,
}
use afk_cli.Prelude.Exec.{Exec, ◌>>=◌, ◌>>◌, pure, fail, attempt}
use afk_cli.OutputTail.{saturating_add}
use afk_cli.Registry.Disk.{
  FilePath, Entry, Disk, is_regular, is_symlink, symlink_metadata, create_file, write_all, passes,
}
use afk_cli.Registry.Files.{owner_only_mode}

abbrev pub max_trace_bytes : ℕ
max_trace_bytes = 1024 * 1024

-- The decimal digits of a number below `10 ^ rounds`.
unfoldable pub decimal_digits : (rounds : ℕ) → ℕ → List ℕ
decimal_digits zero n = []
decimal_digits (suc rounds) n =
    let front = decimal_digits rounds (n / 10) in
    if ltb n 10 then (48 + n) ∷ [] else front ++ (48 + n % 10) ∷ []

-- A number of 64 bits has at most 20 digits.
abbrev pub decimal : ℕ → List ℕ
decimal = decimal_digits 20

-- The open file is known by its path.
pub record Trace : Type 0 where
  pub file : FilePath
  pub component : String
  pub written : ℕ

-- What the system answers to a line: `now_seconds` and `getpid`.
pub record Moment : Type 0 where
  pub now : IoResult ℕ
  pub pid : ℕ

unfoldable pub error_kind_text : ErrorKind → String
error_kind_text not_found = "not_found"
error_kind_text permission_denied = "permission_denied"
error_kind_text connection_refused = "connection_refused"
error_kind_text connection_reset = "connection_reset"
error_kind_text connection_aborted = "connection_aborted"
error_kind_text not_connected = "not_connected"
error_kind_text broken_pipe = "broken_pipe"
error_kind_text already_exists = "already_exists"
error_kind_text would_block = "would_block"
error_kind_text invalid_input = "invalid_input"
error_kind_text invalid_data = "invalid_data"
error_kind_text timed_out = "timed_out"
error_kind_text write_zero = "write_zero"
error_kind_text interrupted = "interrupted"
error_kind_text unexpected_eof = "unexpected_eof"
error_kind_text out_of_memory = "out_of_memory"
error_kind_text _ = "other"

-- `now_seconds().unwrap_or(0)`
abbrev pub timestamp : IoResult ℕ → ℕ
timestamp (ok seconds) = seconds
timestamp (err _) = 0

abbrev pub line_text : Moment → Trace → String → (detail : List ℕ) → List ℕ
line_text m t event detail =
    codes "timestamp="
    ++ (decimal (timestamp m.now)
        ++ (codes " pid="
            ++ (decimal m.pid
                ++ (codes " component="
                    ++ (codes t.component
                        ++ (codes " event=" ++ (codes event ++ (detail ++ codes "\n"))))))))

-- A line that fits; a line that is not written is not counted.
unfoldable pub append_line : Trace → List ℕ → Exec Disk Trace
unfolding attempt pure
append_line t line =
    attempt (write_all t.file line) (λ _. pure (record t { written = t.written + length line }))
      (λ _. pure t)

-- `Trace::write`, which never fails.
unfoldable pub write : Moment → Trace → String → (detail : List ℕ) → Exec Disk Trace
unfolding pure
write m t event detail =
    let line = line_text m t event detail in
    if leb max_trace_bytes t.written
    then pure t
    else if ltb max_trace_bytes (saturating_add t.written (length line))
    then pure t
    else append_line t line

-- The calls of `event`, `io_error` and `metric`.
pub data Report : Type 0 where
  event : String → Report
  io_failure : String → IoError → Report
  metric : (event : String) → (name : String) → (value : ℕ) → Report

abbrev pub os_error_text : Option ℕ → List ℕ
os_error_text none = []
os_error_text (some code) = codes " os_error=" ++ decimal code

unfoldable pub report : Moment → Trace → Report → Exec Disk Trace
report m t (event e) = write m t e []
report m t (io_failure e error) =
    write m t e
      (codes " error_kind=" ++ (codes (error_kind_text error.kind) ++ os_error_text error.os_code))
report m t (metric e name value) =
    write m t e (codes " " ++ (codes name ++ (codes "=" ++ decimal value)))

unfoldable pub create_trace : ℕ → Moment → FilePath → String → Exec Disk Trace
unfolding ◌>>=◌
create_trace uid m path component = do
  create_file uid path owner_only_mode
  report m (record { file = path; component = component; written = 0 }) (event "trace_started")

-- Behind the tests of `open`.
unfoldable pub open_checked : Moment → FilePath → String → ℕ → Exec Disk Trace
unfolding ◌>>=◌
open_checked m path component size = do
  passes
  report m (record { file = path; component = component; written = size }) (event "trace_opened")

-- `metadata` is what `symlink_metadata` says of the file.
abbrev pub is_unsafe : ℕ → Entry → Bool
is_unsafe uid metadata =
    not (is_regular metadata.kind)
    || is_symlink metadata.kind
    || not (metadata.owner == uid)
    || not (metadata.mode % 512 == owner_only_mode)
    || ltb max_trace_bytes (length metadata.bytes)

unfoldable pub open_trace : ℕ → Moment → FilePath → String → Exec Disk Trace
unfolding ◌>>=◌ fail
open_trace uid m path component = do
  metadata ← symlink_metadata path
  if is_unsafe uid metadata
      then fail (io_error permission_denied)
      else open_checked m path component (length metadata.bytes)
