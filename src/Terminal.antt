-- ===== src/Terminal.antt =====
-- src/platform/unix.rs: the window size of a terminal. The system calls `tcsetwinsize` and
-- `tcgetwinsize` are arguments.
use afk_cli.Prelude.{
  ℕ, ◌&&◌, if◌then◌else◌, ok, err, ◌>>=◌, ◌>>◌, IoResult, io_error, invalid_input,
}
use afk_cli.Ipc.{is_dimension}

unfoldable pub validate_dimensions : ℕ → ℕ → IoResult (Unit {0})
validate_dimensions rows columns =
    if is_dimension rows && is_dimension columns then ok tt else err (io_error invalid_input)

unfoldable pub set_window_size : (ℕ → ℕ → IoResult (Unit {0})) → ℕ → ℕ → IoResult (Unit {0})
unfolding validate_dimensions
set_window_size tcsetwinsize rows columns = do
  validate_dimensions rows columns
  tcsetwinsize rows columns

unfoldable pub window_size : IoResult (ℕ × ℕ) → IoResult (ℕ × ℕ)
unfolding validate_dimensions
window_size tcgetwinsize = do
  (rows, columns) ← tcgetwinsize
  validate_dimensions rows columns
  ok (rows, columns)
