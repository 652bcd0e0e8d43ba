-- ===== src/Examples/Processes.antt =====
-- A session's root with a child and a grandchild.
use llm_notch.Prelude.{◌≤◌, ℕ, ◌≡◌, ◌↔◌, true, List, [], ◌∷◌, Option, none, some, number_key}
use llm_notch.Prelude.Int.{pos}
use llm_notch.HashMap
use llm_notch.BTreeMap.{BTreeMap}
use llm_notch.Protocol.{AttributionQuality, MetricSample, IoQuality}
use llm_notch.Metrics.Model.{
  ProcessNode, RegisteredSession, CounterReadiness, max_parent_walk_depth,
}
use llm_notch.Metrics.Graph.{children_index, collect_descendants, assign_process_owners}
use llm_notch.Metrics.Graph.Descendants.{Descends, collect_descendants_iff}
use llm_notch.Metrics.Aggregate.{Refresh, compute_session_metrics}
use llm_notch.Metrics.Total.{compute_aggregate}
use llm_notch.Metrics.Total.Once.{compute_aggregate-once}
use llm_notch.Metrics.Graph.Owners.{IsNearest, assign_process_owners_iff}
use llm_notch.Examples.Data.{a_sample, zero_f64}

abbrev a_node : ℕ → Option ℕ → ProcessNode
a_node pid parent_pid = record {
  pid = pid;
  parent_pid = parent_pid;
  started_at_ms = pos pid;
  cpu_usage_percent = zero_f64;
  rss_bytes = 0;
  read_bytes_total = 0;
  write_bytes_total = 0;
  read_bytes_delta = 0;
  write_bytes_delta = 0;
  io_available = true;
}

abbrev processes : BTreeMap ProcessNode
processes =
    (100, a_node 100 none) ∷ (110, a_node 110 (some 100)) ∷ (120, a_node 120 (some 110)) ∷ []

abbrev sessions : List RegisteredSession
sessions =
    record {
      session_id = "s-a";
      root = record { pid = 110; started_at_ms = pos 110 };
      attribution = AttributionQuality.exact;
      registered_at_ms = pos 0;
    }
    ∷ []

collect_descendants_iff_example :
    (HashMap.contains_key (collect_descendants 100 processes (children_index processes)) 120 ≡ true)
    ↔ Descends processes (children_index processes) 100 120
collect_descendants_iff_example =
    collect_descendants_iff processes (children_index processes) 100 120

assign_process_owners_iff_example :
    (HashMap.get (assign_process_owners sessions processes) 120 ≡ some 0) ↔ (
      (HashMap.contains_key processes 120 ≡ true)
      × IsNearest sessions processes max_parent_walk_depth 120 0)
assign_process_owners_iff_example = assign_process_owners_iff sessions processes 120 0

abbrev samples : List MetricSample
samples = a_sample 1 ∷ a_sample 2 ∷ []

abbrev refresh : Refresh
refresh = record {
  processes = processes;
  elapsed_ms = 1000;
  at_ms = pos 500;
  cpu_ready = CounterReadiness.ready;
  io_ready = CounterReadiness.ready;
  io_quality = IoQuality.disk;
}

compute_aggregate-once_example :
    (compute_aggregate
      (compute_session_metrics sessions refresh).0
      (pos 500)
      4
      1
      0
      IoQuality.disk).process_count
    ≤ 3
compute_aggregate-once_example =
    compute_aggregate-once sessions refresh (pos 500) 4 1 0 IoQuality.disk
