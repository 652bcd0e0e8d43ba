-- ===== src/Metrics/Aggregate.antt =====
-- crates/notch-metrics/src/aggregate.rs: the figures of each session's tree and of all together.
pub mod Exclusive
use Prim.Native.String.{compare as compare_text, ◌++◌ as str_append}
use llm_notch.Prelude.{
  ℕ, suc, ◌+◌, ◌*◌, ◌%◌, ◌^◌, max, String, Ordering, Bool, true, false, List, [], ◌∷◌, ◌++◌, Option,
  none, some, if◌then◌else◌, ltb, ◌==◌, number_key, ◌&&◌, not, length, retain,
}
use llm_notch.Prelude.Int.{ℤ, pos_part, ◌-ℤ◌}
use llm_notch.HashMap
use llm_notch.BTreeMap.{BTreeMap, BTreeSet}
use llm_notch.Protocol.{
  F64, MetricQuality, MetricSample, AgentAggregate, AttributionQuality, MetricAvailability,
  IoQuality,
}
use llm_notch.Metrics.Model.{
  ProcessNode, RegisteredSession, RootStatus, valid, missing, pid_reused, CounterReadiness,
}
use llm_notch.Metrics.Arithmetic.{f64_zero, add, div_whole, clamp_percent}
use llm_notch.Metrics.Graph.{
  verify_root, children_index, assign_process_owners, tree_has_overlap, tree_has_parent_gaps,
}
use llm_notch.Metrics.Quality.{
  bytes_per_sec, build_quality, truncate_reason, worsen_attribution, worsen_cpu, worsen_io,
  is_valid,
}

pub record TreeMetrics : Type 0 where
  pub cpu_core_percent : F64
  pub rss_bytes : ℕ
  pub runtime_ms : ℕ
  pub process_count : ℕ
  pub read_bytes_per_sec : ℕ
  pub write_bytes_per_sec : ℕ
  pub quality : MetricQuality

unfoldable pub cpu_host_percent : F64 → ℕ → F64
unfolding div_whole clamp_percent
cpu_host_percent cpu_core_percent logical_cores =
    clamp_percent (div_whole cpu_core_percent (max logical_cores 1))

-- `+=` on a `u64` and on a `u32`.
abbrev pub add_u64 : ℕ → ℕ → ℕ
add_u64 a b = (a + b) % 2 ^ 64

abbrev pub add_u32 : ℕ → ℕ → ℕ
add_u32 a b = (a + b) % 2 ^ 32

-- The sums over the processes of a session.
pub record TreeSums : Type 0 where
  pub cpu : F64
  pub rss : ℕ
  pub read_delta : ℕ
  pub write_delta : ℕ
  pub io_seen : ℕ
  pub io_available_count : ℕ

abbrev no_sums : TreeSums
no_sums = record {
  cpu = f64_zero;
  rss = 0;
  read_delta = 0;
  write_delta = 0;
  io_seen = 0;
  io_available_count = 0;
}

abbrev add_node : TreeSums → Option ProcessNode → TreeSums
unfolding add
add_node s none = s
add_node s (some node) = record {
  cpu = add s.cpu node.cpu_usage_percent;
  rss = add_u64 s.rss node.rss_bytes;
  read_delta = add_u64 s.read_delta node.read_bytes_delta;
  write_delta = add_u64 s.write_delta node.write_bytes_delta;
  io_seen = add_u32 s.io_seen 1;
  io_available_count =
      if node.io_available then add_u32 s.io_available_count 1 else s.io_available_count;
}

unfoldable pub sum_nodes : BTreeMap ProcessNode → TreeSums → BTreeSet → TreeSums
unfolding add HashMap.get
sum_nodes processes s [] = s
sum_nodes processes s ((pid, _) ∷ owned) =
    sum_nodes processes (add_node s (HashMap.get processes pid)) owned

-- The processes of one owner.
unfoldable pub owned_by : BTreeMap ℕ → ℕ → BTreeSet
owned_by [] session_idx = []
owned_by ((pid, owner) ∷ owners) session_idx =
    let rest = owned_by owners session_idx in
    if owner == session_idx then (pid, tt) ∷ rest else rest

unfoldable pub running_for : ℤ → Option ProcessNode → ℕ
unfolding ◌-ℤ◌
running_for at_ms none = 0
running_for at_ms (some node) = pos_part (at_ms -ℤ node.started_at_ms) % 2 ^ 64

abbrev pub cpu_unavailable : MetricQuality → Bool
cpu_unavailable q = elim q.cpu [ MetricAvailability.unavailable ↦ true | _ ↦ false ]

abbrev io_unavailable : MetricQuality → Bool
io_unavailable q = elim q.io [ IoQuality.unavailable ↦ true | _ ↦ false ]

-- What one refresh is computed from, beside the sessions.
pub record Refresh : Type 0 where
  pub processes : BTreeMap ProcessNode
  pub elapsed_ms : ℕ
  pub at_ms : ℤ
  pub cpu_ready : CounterReadiness
  pub io_ready : CounterReadiness
  pub io_quality : IoQuality

-- One turn of the loop over the sessions.
unfoldable pub session_metrics : Refresh → BTreeMap ℕ → ℕ → RegisteredSession → TreeMetrics
unfolding running_for verify_root owned_by tree_has_overlap tree_has_parent_gaps sum_nodes
    build_quality bytes_per_sec children_index HashMap.get
session_metrics w owners session_idx session =
    let status = verify_root session.root w.processes in
    let owned = owned_by owners session_idx in
    let overlap =
      is_valid status
      && tree_has_overlap session_idx session.root.pid owners w.processes
          (children_index w.processes) in
    let gaps = is_valid status && tree_has_parent_gaps session.root.pid owned w.processes in
    let sums = if is_valid status then sum_nodes w.processes no_sums owned else no_sums in
    let partial_io = ltb 0 sums.io_seen && ltb sums.io_available_count sums.io_seen in
    let quality =
      build_quality session status overlap gaps w.cpu_ready w.io_ready w.io_quality partial_io in
    record {
      cpu_core_percent = if cpu_unavailable quality then f64_zero else sums.cpu;
      rss_bytes = if cpu_unavailable quality then 0 else sums.rss;
      runtime_ms = running_for w.at_ms (HashMap.get w.processes session.root.pid);
      process_count = length owned % 2 ^ 32;
      read_bytes_per_sec =
          if io_unavailable quality then 0 else bytes_per_sec sums.read_delta w.elapsed_ms;
      write_bytes_per_sec =
          if io_unavailable quality then 0 else bytes_per_sec sums.write_delta w.elapsed_ms;
      quality = quality;
    }

-- `BTreeMap::insert` with a text for a key.
unfoldable pub insert_text :
    List (String × TreeMetrics) → String → TreeMetrics → List (String × TreeMetrics)
insert_text [] k v = (k, v) ∷ []
insert_text ((j, w) ∷ m) k v =
    let later = insert_text m k v in
    elim (compare_text k j) [
      | Ordering.lt ↦ (k, v) ∷ (j, w) ∷ m
      | Ordering.eq ↦ (k, v) ∷ m
      | Ordering.gt ↦ (j, w) ∷ later
    ]

unfoldable pub metrics_from :
    Refresh
    → BTreeMap ℕ
    → ℕ
    → List RegisteredSession
    → List (String × TreeMetrics)
    → List (String × TreeMetrics)
unfolding session_metrics insert_text
metrics_from w owners session_idx [] metrics = metrics
metrics_from w owners session_idx (session ∷ sessions) metrics =
    metrics_from w owners (suc session_idx) sessions
      (insert_text metrics session.session_id (session_metrics w owners session_idx session))

unfoldable pub compute_session_metrics :
    List RegisteredSession → Refresh → List (String × TreeMetrics) × BTreeMap ℕ
unfolding metrics_from assign_process_owners
compute_session_metrics sessions w =
    let owners = assign_process_owners sessions w.processes in
    (metrics_from w owners 0 sessions [], owners)

unfoldable pub tree_to_sample : ℤ → TreeMetrics → ℕ → MetricSample
unfolding cpu_host_percent
tree_to_sample at_ms tree logical_cores = record {
  at_ms = at_ms;
  cpu_core_percent = tree.cpu_core_percent;
  cpu_host_percent = cpu_host_percent tree.cpu_core_percent logical_cores;
  rss_bytes = tree.rss_bytes;
  runtime_ms = tree.runtime_ms;
  process_count = tree.process_count;
  read_bytes_per_sec = tree.read_bytes_per_sec;
  write_bytes_per_sec = tree.write_bytes_per_sec;
  quality = tree.quality;
}
