-- ===== src/Metrics/Model.antt =====
-- crates/notch-metrics/src/model.rs and constants.rs.
use llm_notch.Prelude.{ℕ, String, Bool, Option}
use llm_notch.Prelude.Int.{ℤ}
use llm_notch.Protocol.{F64, ProcessIdentity, AttributionQuality}

abbrev pub max_history_samples_per_session : ℕ
max_history_samples_per_session = 900

abbrev pub max_parent_walk_depth : ℕ
max_parent_walk_depth = 256

pub record ProcessNode : Type 0 where
  pub pid : ℕ
  pub parent_pid : Option ℕ
  pub started_at_ms : ℤ
  pub cpu_usage_percent : F64
  pub rss_bytes : ℕ
  pub read_bytes_total : ℕ
  pub write_bytes_total : ℕ
  pub read_bytes_delta : ℕ
  pub write_bytes_delta : ℕ
  pub io_available : Bool

pub record RegisteredSession : Type 0 where
  pub session_id : String
  pub root : ProcessIdentity
  pub attribution : AttributionQuality
  pub registered_at_ms : ℤ

pub data RootStatus : Type 0 where
  valid missing pid_reused : RootStatus

pub data CounterReadiness : Type 0 where
  warming_up ready : CounterReadiness
