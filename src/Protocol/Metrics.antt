-- ===== src/Protocol/Metrics.antt =====
-- The metric types of crates/notch-protocol/src/types.rs.
use llm_notch.Prelude.{ℕ, String, Option}
use llm_notch.Prelude.Int.{ℤ}
use llm_notch.HashMap.{HashMap}
use llm_notch.Protocol.Float.{F64}
use llm_notch.Protocol.Enums.{AttributionQuality, MetricAvailability, IoQuality}

pub record MetricQuality : Type 0 where
  pub attribution : AttributionQuality
  pub cpu : MetricAvailability
  pub io : IoQuality
  pub reason : Option String

pub record MetricSample : Type 0 where
  pub at_ms : ℤ
  pub cpu_core_percent : F64
  pub cpu_host_percent : F64
  pub rss_bytes : ℕ
  pub runtime_ms : ℕ
  pub process_count : ℕ
  pub read_bytes_per_sec : ℕ
  pub write_bytes_per_sec : ℕ
  pub quality : MetricQuality

pub record HostMetricSample : Type 0 where
  pub at_ms : ℤ
  pub cpu_host_percent : F64
  pub used_memory_bytes : ℕ
  pub total_memory_bytes : ℕ
  pub visible_process_count : ℕ
  pub disk_read_bytes_per_sec : ℕ
  pub disk_write_bytes_per_sec : ℕ

pub record AgentAggregate : Type 0 where
  pub at_ms : ℤ
  pub cpu_core_percent : F64
  pub cpu_host_percent : F64
  pub rss_bytes : ℕ
  pub runtime_ms : ℕ
  pub process_count : ℕ
  pub read_bytes_per_sec : ℕ
  pub write_bytes_per_sec : ℕ
  pub quality : MetricQuality
  pub active_sessions : ℕ
  pub attention_sessions : ℕ

-- `agents` is an ordered map in the source; its order is left out.
pub record MetricsFrame : Type 0 where
  pub host : HostMetricSample
  pub aggregate : AgentAggregate
  pub agents : HashMap String MetricSample
