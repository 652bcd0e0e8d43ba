-- ===== src/Examples/Data.antt =====
-- Concrete values.
use llm_notch.Prelude.{ℕ, ◌*◌, String, none}
use llm_notch.Prelude.Int.{pos}
use llm_notch.Protocol.{
  F64, AgentSource, SessionStatus, AttentionKind, AgentSession, SessionEvent, SessionEventKind,
  EventLevel, StreamPayload, StreamFrame, MetricQuality, MetricSample, HostMetricSample,
  AttributionQuality, MetricAvailability, IoQuality,
}

abbrev pub a_session : String → AgentSession
a_session id = record {
  id = id;
  source = AgentSource.cursor;
  external_session_id = "a";
  label = "work";
  workspace_label = none;
  status = SessionStatus.running;
  attention = AttentionKind.absent;
  started_at_ms = pos 1;
  last_event_at_ms = pos 2;
  ended_at_ms = none;
  process_root = none;
  verified_terminal = none;
  latest_metric = none;
}

abbrev pub an_event : ℕ → SessionEvent
an_event n = record {
  id = n;
  session_id = "s-a";
  sequence = n;
  occurred_at_ms = pos n;
  kind = SessionEventKind.tool;
  level = EventLevel.info;
  summary = "edit";
  tool_name = none;
}

abbrev pub id_for : AgentSource → String → String
id_for source external = "s-a"

abbrev pub a_frame : ℕ → StreamFrame
a_frame n = record { sequence = n; emitted_at_ms = pos n; payload = StreamPayload.heartbeat }

abbrev pub zero_f64 : F64
zero_f64 = record { bits = 0 }

abbrev pub a_quality : MetricQuality
a_quality = record {
  attribution = AttributionQuality.exact;
  cpu = MetricAvailability.available;
  io = IoQuality.disk;
  reason = none;
}

abbrev pub a_sample : ℕ → MetricSample
a_sample at = record {
  at_ms = pos at;
  cpu_core_percent = zero_f64;
  cpu_host_percent = zero_f64;
  rss_bytes = 5 * 1024 * 1024 * 1024;
  runtime_ms = 1;
  process_count = 1;
  read_bytes_per_sec = 0;
  write_bytes_per_sec = 0;
  quality = a_quality;
}

abbrev pub a_host : ℕ → HostMetricSample
a_host at = record {
  at_ms = pos at;
  cpu_host_percent = zero_f64;
  used_memory_bytes = 1;
  total_memory_bytes = 64 * 1024 * 1024 * 1024;
  visible_process_count = 1;
  disk_read_bytes_per_sec = 0;
  disk_write_bytes_per_sec = 0;
}
