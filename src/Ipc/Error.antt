-- ===== src/Ipc/Error.antt =====
-- crates/notch-ipc/src/error.rs and limits.rs. The
-- message of a rejection is kept as what it is about.
use llm_notch.Prelude.{ℕ, ◌*◌, String}
pub use llm_notch.Prelude.Result.{Result, ok, err, ◌>>=◌, bind-ok}

pub data Rejection : Type 0 where
  -- a field that is empty, too long, or that has other characters than it may
  bad_field : String → Rejection
  unsupported_version : ℕ → Rejection
  pid_without_start bad_start bad_window : Rejection
  too_large no_prefix : Rejection
  size_mismatch : ℕ → ℕ → Rejection
  invalid_body : Rejection

pub data IpcError : Type 0 where
  not_initialized auth_failed rate_limited queue_full too_many_clients : IpcError
  read_timeout descriptor_unavailable spool_limit_exceeded connection_closed : IpcError
  frame_rejected : Rejection → IpcError
  peer_rejected invalid_config io : String → IpcError
  -- the printer of JSON failed
  other : IpcError

abbrev pub IpcResult : Type 0 → Type 0
IpcResult A = Result IpcError A

abbrev pub ipc_wire_version : ℕ
ipc_wire_version = 1

abbrev pub max_frame_bytes : ℕ
max_frame_bytes = 65536

abbrev pub max_request_id_len : ℕ
max_request_id_len = 64

abbrev pub max_error_code_len : ℕ
max_error_code_len = 64

abbrev pub max_error_message_len : ℕ
max_error_message_len = 256

abbrev pub max_spool_files : ℕ
max_spool_files = 1000

abbrev pub max_spool_bytes : ℕ
max_spool_bytes = 10 * 1024 * 1024

abbrev pub max_decision_context_bytes : ℕ
max_decision_context_bytes = 8192
