-- ===== src/Protocol/Limits.antt =====
-- crates/notch-protocol/src/constants.rs and crates/notch-core/src/constants.rs: the limits in use.
use llm_notch.Prelude.{ℕ, ◌*◌, String}
use llm_notch.Protocol.Float.{F64}

abbrev pub max_session_id_len : ℕ
max_session_id_len = 64

abbrev pub max_external_session_id_len : ℕ
max_external_session_id_len = 256

abbrev pub max_session_label_len : ℕ
max_session_label_len = 256

abbrev pub max_workspace_label_len : ℕ
max_workspace_label_len = 256

abbrev pub max_event_summary_len : ℕ
max_event_summary_len = 512

abbrev pub max_tool_name_len : ℕ
max_tool_name_len = 128

abbrev pub max_metric_reason_len : ℕ
max_metric_reason_len = 512

abbrev pub max_decision_summary_len : ℕ
max_decision_summary_len = 512

abbrev pub max_sessions : ℕ
max_sessions = 128

abbrev pub max_events_per_session : ℕ
max_events_per_session = 10000

abbrev pub bootstrap_max_events : ℕ
bootstrap_max_events = 256

abbrev pub bootstrap_events_per_active_session : ℕ
bootstrap_events_per_active_session = 1

abbrev pub stale_session_ms : ℕ
stale_session_ms = 30 * 60 * 1000

abbrev pub stream_replay_capacity : ℕ
stream_replay_capacity = 1024

-- 70.0 and 90.0, as bit patterns.
abbrev pub cpu_warn_threshold : F64
cpu_warn_threshold = record { bits = 0x4051800000000000 }

abbrev pub cpu_critical_threshold : F64
cpu_critical_threshold = record { bits = 0x4056800000000000 }

abbrev pub cpu_warn_duration_ms : ℕ
cpu_warn_duration_ms = 60 * 1000

abbrev pub cpu_critical_duration_ms : ℕ
cpu_critical_duration_ms = 30 * 1000

abbrev pub rss_alert_bytes : ℕ
rss_alert_bytes = 4 * 1024 * 1024 * 1024

abbrev pub rss_alert_duration_ms : ℕ
rss_alert_duration_ms = 60 * 1000

abbrev pub decision_fail_open_timeout_ms : ℕ
decision_fail_open_timeout_ms = 120000

abbrev pub neutral_output : String
neutral_output = "{}"
