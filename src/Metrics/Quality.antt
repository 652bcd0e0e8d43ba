-- ===== src/Metrics/Quality.antt =====
-- crates/notch-metrics/src/aggregate.rs: rates, and the quality of a tree's figures and of their sum.
pub mod Order
use llm_notch.Prelude.{
  ℕ, suc, ◌*◌, ◌/◌, ◌%◌, ◌^◌, ◌≤◌, ◌≡◌, refl, String, Bool, true, false, List, [], ◌∷◌, ◌++◌,
  Option, none, some, if◌then◌else◌, ltb, leb, ◌==◌, number_key, len, ◌||◌, ◌&&◌, not, arith,
}
use llm_notch.Prelude.Text.{take_chars}
use llm_notch.Protocol.{
  max_metric_reason_len, MetricQuality, AttributionQuality, MetricAvailability, IoQuality,
}
use llm_notch.Metrics.Model.{
  RegisteredSession, RootStatus, valid, missing, pid_reused, CounterReadiness, warming_up, ready,
}

-- The product is taken in 128 bits and the quotient cut to 64.
unfoldable pub bytes_per_sec : ℕ → ℕ → ℕ
bytes_per_sec delta elapsed_ms = if elapsed_ms == 0 then 0 else (delta * 1000 / elapsed_ms) % 2 ^ 64

unfoldable pub worsen_attribution : AttributionQuality → AttributionQuality → AttributionQuality
worsen_attribution AttributionQuality.unknown _ = AttributionQuality.unknown
worsen_attribution _ AttributionQuality.unknown = AttributionQuality.unknown
worsen_attribution AttributionQuality.heuristic _ = AttributionQuality.heuristic
worsen_attribution _ AttributionQuality.heuristic = AttributionQuality.heuristic
worsen_attribution AttributionQuality.shared _ = AttributionQuality.shared
worsen_attribution _ AttributionQuality.shared = AttributionQuality.shared
worsen_attribution _ _ = AttributionQuality.exact

unfoldable pub worsen_cpu : MetricAvailability → MetricAvailability → MetricAvailability
worsen_cpu MetricAvailability.unavailable _ = MetricAvailability.unavailable
worsen_cpu _ MetricAvailability.unavailable = MetricAvailability.unavailable
worsen_cpu MetricAvailability.warming_up _ = MetricAvailability.warming_up
worsen_cpu _ MetricAvailability.warming_up = MetricAvailability.warming_up
worsen_cpu _ _ = MetricAvailability.available

unfoldable pub worsen_io : IoQuality → IoQuality → IoQuality
worsen_io IoQuality.unavailable _ = IoQuality.unavailable
worsen_io _ IoQuality.unavailable = IoQuality.unavailable
worsen_io IoQuality.partial _ = IoQuality.partial
worsen_io _ IoQuality.partial = IoQuality.partial
worsen_io IoQuality.disk IoQuality.all_io = IoQuality.partial
worsen_io IoQuality.all_io IoQuality.disk = IoQuality.partial
worsen_io current _ = current

unfoldable pub truncate_reason : String → String
unfolding take_chars
truncate_reason reason =
    if leb (len reason) max_metric_reason_len
    then reason
    else take_chars max_metric_reason_len reason

abbrev is_shared : AttributionQuality → Bool
is_shared AttributionQuality.shared = true
is_shared _ = false

abbrev is_heuristic : AttributionQuality → Bool
is_heuristic AttributionQuality.heuristic = true
is_heuristic _ = false

-- The attribution of a tree and the reason for it.
unfoldable pub attribution_of :
    RegisteredSession → RootStatus → Bool → Bool → AttributionQuality × Option String
unfolding truncate_reason
attribution_of session valid overlap parent_gaps =
    if overlap || is_shared session.attribution
    then (
      AttributionQuality.shared,
      if overlap
          then some (truncate_reason "process tree overlaps a nearer registered ancestor")
          else none,
    )
    else if parent_gaps || is_heuristic session.attribution
    then (
      AttributionQuality.heuristic,
      if parent_gaps
          then some (truncate_reason "parent chain has protected or missed processes")
          else none,
    )
    else (session.attribution, none)
attribution_of session missing overlap parent_gaps =
    (AttributionQuality.unknown, some (truncate_reason "registered root process is not visible"))
attribution_of session pid_reused overlap parent_gaps = (
  AttributionQuality.unknown,
  some (truncate_reason "pid was reused; start time no longer matches registration"),
)

abbrev pub is_valid : RootStatus → Bool
is_valid valid = true
is_valid _ = false

abbrev is_warming_up : CounterReadiness → Bool
is_warming_up warming_up = true
is_warming_up ready = false

unfoldable pub build_quality :
    RegisteredSession
    → RootStatus
    → Bool
    → Bool
    → CounterReadiness
    → CounterReadiness
    → IoQuality
    → Bool
    → MetricQuality
unfolding attribution_of
build_quality session root_status overlap parent_gaps cpu_ready io_ready io_quality partial_io =
    let (attribution, reason) = attribution_of session root_status overlap parent_gaps in
    record {
      attribution = attribution;
      cpu =
          if not (is_valid root_status)
          then MetricAvailability.unavailable
          else if is_warming_up cpu_ready
          then MetricAvailability.warming_up
          else MetricAvailability.available;
      io =
          if not (is_valid root_status)
          then IoQuality.unavailable
          else if is_warming_up io_ready
          then io_quality
          else if partial_io
          then IoQuality.partial
          else io_quality;
      reason = reason;
    }
