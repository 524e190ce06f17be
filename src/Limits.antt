-- ===== src/Limits.antt =====
-- src/limits.rs: the bounds that the components share.
use afk_cli.Prelude.{ℕ, ◌+◌, ◌*◌}

abbrev pub ipc_header_bytes : ℕ
ipc_header_bytes = 5

abbrev pub max_ipc_payload_bytes : ℕ
max_ipc_payload_bytes = 64 * 1024

abbrev pub max_ipc_record_bytes : ℕ
max_ipc_record_bytes = ipc_header_bytes + max_ipc_payload_bytes

abbrev pub max_attachment_queue_bytes : ℕ
max_attachment_queue_bytes = 1024 * 1024

abbrev pub output_tail_bytes : ℕ
output_tail_bytes = 256 * 1024

abbrev pub max_metadata_bytes : ℕ
max_metadata_bytes = 64 * 1024

abbrev pub max_terminal_dimension : ℕ
max_terminal_dimension = 4096

abbrev pub max_session_list_entries : ℕ
max_session_list_entries = 1024

abbrev pub max_command_arguments : ℕ
max_command_arguments = 256

abbrev pub max_command_bytes : ℕ
max_command_bytes = 64 * 1024

abbrev pub max_pty_bytes_per_tick : ℕ
max_pty_bytes_per_tick = 256 * 1024

abbrev pub completed_retention_seconds : ℕ
completed_retention_seconds = 24 * 60 * 60

abbrev pub stop_grace_seconds : ℕ
stop_grace_seconds = 5

abbrev pub unix_socket_path_bytes : ℕ
unix_socket_path_bytes = 103
