-- ===== src/Metrics/Total.antt =====
-- crates/notch-metrics/src/aggregate.rs: `compute_aggregate`.
pub mod Once
use Prim.Native.String.{◌++◌ as str_append}
use llm_notch.Prelude.{
  ℕ, max, String, Bool, true, false, List, [], ◌∷◌, ◌++◌, Option, none, some, if◌then◌else◌, ◌==◌,
  number_key,
}
use llm_notch.Prelude.Int.{ℤ}
use llm_notch.HashMap
use llm_notch.Protocol.{F64, AgentAggregate, AttributionQuality, MetricAvailability, IoQuality}
use llm_notch.Metrics.Arithmetic.{f64_zero, add}
use llm_notch.Metrics.Quality.{truncate_reason, worsen_attribution, worsen_cpu, worsen_io}
use llm_notch.Metrics.Aggregate.{TreeMetrics, add_u64, add_u32, cpu_unavailable, cpu_host_percent}

-- The variables of the loop.
pub record Totals : Type 0 where
  pub cpu_core_percent : F64
  pub rss_bytes : ℕ
  pub runtime_ms : ℕ
  pub process_count : ℕ
  pub read_bytes_per_sec : ℕ
  pub write_bytes_per_sec : ℕ
  pub attribution : AttributionQuality
  pub cpu : MetricAvailability
  pub io : IoQuality
  pub reasons : List String
  pub contributed : ℕ

abbrev pub no_totals : IoQuality → Totals
no_totals io_quality = record {
  cpu_core_percent = f64_zero;
  rss_bytes = 0;
  runtime_ms = 0;
  process_count = 0;
  read_bytes_per_sec = 0;
  write_bytes_per_sec = 0;
  attribution = AttributionQuality.exact;
  cpu = MetricAvailability.available;
  io = io_quality;
  reasons = [];
  contributed = 0;
}

abbrev to_list : Option String → List String
to_list none = []
to_list (some reason) = reason ∷ []

unfoldable pub add_tree : Totals → TreeMetrics → Totals
unfolding add worsen_attribution worsen_cpu worsen_io
add_tree t tree = if cpu_unavailable tree.quality then t else record {
  cpu_core_percent = add t.cpu_core_percent tree.cpu_core_percent;
  rss_bytes = add_u64 t.rss_bytes tree.rss_bytes;
  runtime_ms = max t.runtime_ms tree.runtime_ms;
  process_count = add_u32 t.process_count tree.process_count;
  read_bytes_per_sec = add_u64 t.read_bytes_per_sec tree.read_bytes_per_sec;
  write_bytes_per_sec = add_u64 t.write_bytes_per_sec tree.write_bytes_per_sec;
  attribution = worsen_attribution t.attribution tree.quality.attribution;
  cpu = worsen_cpu t.cpu tree.quality.cpu;
  io = worsen_io t.io tree.quality.io;
  reasons = t.reasons ++ to_list tree.quality.reason;
  contributed = add_u32 t.contributed 1;
}

unfoldable pub add_trees : Totals → List (String × TreeMetrics) → Totals
unfolding add_tree
add_trees t [] = t
add_trees t ((k, tree) ∷ trees) = add_trees (add_tree t tree) trees

-- `join("; ")`
unfoldable pub join_reasons : String → List String → String
join_reasons first [] = first
join_reasons first (next ∷ rest) = str_append first (str_append "; " (join_reasons next rest))

abbrev reason_of : List String → Option String
unfolding join_reasons truncate_reason
reason_of [] = none
reason_of (first ∷ rest) = some (truncate_reason (join_reasons first rest))

-- A map with no tree contributes none either.
unfoldable pub compute_aggregate :
    List (String × TreeMetrics) → ℤ → ℕ → ℕ → ℕ → IoQuality → AgentAggregate
unfolding add_trees cpu_host_percent join_reasons truncate_reason
compute_aggregate session_metrics at_ms logical_cores active_sessions attention_sessions
      io_quality =
    let t = add_trees (no_totals io_quality) session_metrics in
    let idle = t.contributed == 0 in
    record {
      at_ms = at_ms;
      cpu_core_percent = t.cpu_core_percent;
      cpu_host_percent = cpu_host_percent t.cpu_core_percent logical_cores;
      rss_bytes = t.rss_bytes;
      runtime_ms = t.runtime_ms;
      process_count = t.process_count;
      read_bytes_per_sec = t.read_bytes_per_sec;
      write_bytes_per_sec = t.write_bytes_per_sec;
      quality = record {
        attribution = if idle then AttributionQuality.unknown else t.attribution;
        cpu = if idle then MetricAvailability.unavailable else t.cpu;
        io = if idle then IoQuality.unavailable else t.io;
        reason = reason_of t.reasons;
      };
      active_sessions = active_sessions;
      attention_sessions = attention_sessions;
    }
