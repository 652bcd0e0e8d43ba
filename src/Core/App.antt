-- ===== src/Core/App.antt =====
-- crates/notch-core/src/app_core.rs: the state under the core's lock, and what its handlers share.
-- The handlers of commands are not here.
pub mod Frames
pub mod Durable
pub mod Handler
pub mod Commands
pub mod Events
pub mod Start
pub mod Ingest
pub mod Records
pub mod Served
pub mod Complete
pub mod Partial
pub mod Steps
pub mod Staleness
use llm_notch.Prelude.{
  ℕ, ◌*◌, String, Bool, true, false, List, [], ◌∷◌, ◌++◌, Option, none, some, if◌then◌else◌, ◌==◌,
  nat_beq, not, ltb,
}
use llm_notch.Prelude.Int.{ℤ}
use llm_notch.HashMap
use llm_notch.Protocol.{
  AgentSource, AdapterCapabilities, AgentSession, AttentionCapability, AttentionKind,
  AttributionQuality, IoQuality, MetricAvailability, MetricSample, MetricsFrame, PublicSettings,
  SessionEvent, SessionEventKind, EventLevel, StreamFrame, StreamPayload,
}
use llm_notch.Core.Error.{
  CoreResult, ok, err, ok_or, session_not_found, unsupported_capability, no_attention,
  no_integration,
}
use llm_notch.Core.Registry.{
  SessionRegistry, next_u64, external_key, resolve_external, next_event_sequence,
}
use llm_notch.Core.Registry
use llm_notch.Core.Repository.{SessionRepository}
use llm_notch.Core.Stream.{StreamCoalescer, push, drain, is_empty}
use llm_notch.Core.Alerts.{AlertEvaluator}

pub record AppCoreInner : Type 0 where
  pub registry : SessionRegistry
  pub settings : PublicSettings
  pub integrations : List AdapterCapabilities
  pub stream_sequence : ℕ
  pub coalescer : StreamCoalescer
  pub alerts : AlertEvaluator
  pub latest_metrics : Option MetricsFrame

unfoldable pub queue_payload : AppCoreInner → StreamPayload → AppCoreInner
unfolding push
queue_payload inner payload = record inner { coalescer = push inner.coalescer payload }

-- The frames of some payloads, and the sequence of the last of them.
unfoldable pub frames_from : ℕ → ℤ → List StreamPayload → List StreamFrame × ℕ
frames_from sequence now [] = ([], sequence)
frames_from sequence now (payload ∷ payloads) =
    let rest = frames_from (next_u64 sequence) now payloads in
    (
      record { sequence = next_u64 sequence; emitted_at_ms = now; payload = payload } ∷ rest.0,
      rest.1,
    )

-- The frames that go to the sink, beside the state that is left.
unfoldable pub flush_pending : AppCoreInner → ℤ → List StreamFrame × AppCoreInner
unfolding frames_from drain is_empty
flush_pending inner now =
    let drained = drain inner.coalescer in
    let sent = frames_from inner.stream_sequence now drained.0 in
    if is_empty inner.coalescer
    then ([], inner)
    else (sent.0, record inner { stream_sequence = sent.1; coalescer = drained.1 })

unfoldable pub heartbeat : AppCoreInner → ℤ → List StreamFrame × AppCoreInner
unfolding flush_pending queue_payload
heartbeat inner now = flush_pending (queue_payload inner StreamPayload.heartbeat) now

abbrev id_of : Option AgentSession → Option String
id_of none = none
id_of (some session) = some session.id

unfoldable pub resolve_session_id : AppCoreInner → AgentSource → String → CoreResult String
unfolding resolve_external external_key
resolve_session_id inner source external_session_id =
    ok_or (id_of (resolve_external inner.registry source external_session_id))
      (session_not_found (external_key source external_session_id))

abbrev source_rank : AgentSource → ℕ
source_rank AgentSource.cursor = 0
source_rank AgentSource.claude_code = 1
source_rank AgentSource.codex = 2
source_rank AgentSource.gemini = 3
source_rank AgentSource.antigravity_cli = 4
source_rank AgentSource.copilot_cli = 5
source_rank AgentSource.qwen = 6
source_rank AgentSource.generic = 7
source_rank AgentSource.unknown = 8

abbrev find_source : List AdapterCapabilities → AgentSource → Option AdapterCapabilities
find_source [] source = none
find_source (c ∷ integrations) source =
    let later = find_source integrations source in
    if nat_beq (source_rank c.source) (source_rank source) then some c else later

unfoldable pub capabilities_for : AppCoreInner → AgentSource → CoreResult AdapterCapabilities
capabilities_for inner source =
    ok_or (find_source inner.integrations source) (unsupported_capability (no_integration source))

unfoldable pub ensure_attention_capability :
    AdapterCapabilities → AttentionKind → CoreResult (Unit {0})
ensure_attention_capability capabilities attention = allowed capabilities.attention attention
  where
    allowed : AttentionCapability → AttentionKind → CoreResult (Unit {0})
    allowed AttentionCapability.full _ = ok tt
    allowed AttentionCapability.partial AttentionKind.absent =
        err (unsupported_capability no_attention)
    allowed AttentionCapability.partial _ = ok tt
    allowed AttentionCapability.absent AttentionKind.absent = ok tt
    allowed AttentionCapability.absent _ = err (unsupported_capability no_attention)

-- What an event is made of, beside its session and its sequence. The id is a new UUID.
pub record EventParts : Type 0 where
  pub id : ℕ
  pub kind : SessionEventKind
  pub level : EventLevel
  pub summary : String
  pub tool_name : Option String
  pub occurred_at_ms : ℤ

unfoldable pub event_of : AppCoreInner → String → EventParts → SessionEvent
unfolding next_event_sequence
event_of inner session_id parts = record {
  id = parts.id;
  session_id = session_id;
  sequence = next_event_sequence inner.registry session_id;
  occurred_at_ms = parts.occurred_at_ms;
  kind = parts.kind;
  level = parts.level;
  summary = parts.summary;
  tool_name = parts.tool_name;
}

module _ {R : Type 0} (repository : SessionRepository R) where
  -- From the answer of the repository on.
  unfoldable pub saved_event :
      AppCoreInner
      → SessionEvent
      → CoreResult (Unit {0}) × R
      → CoreResult SessionEvent × AppCoreInner × R
  unfolding queue_payload
  saved_event inner event (err e, store) = (err e, inner, store)
  saved_event inner event (ok _, store) =
      (ok event, queue_payload inner (StreamPayload.session_event event), store)

  -- From the answer of the registry on.
  unfoldable pub appended_event :
      AppCoreInner
      → R
      → SessionEvent
      → CoreResult (Unit {0})
      → CoreResult SessionEvent × AppCoreInner × R
  unfolding saved_event
  appended_event inner store event (err e) = (err e, inner, store)
  appended_event inner store event (ok _) =
      saved_event inner event (repository.append_event store event)

  -- `append_event`: into the registry, then into the repository, then onto the stream.
  unfoldable pub record_event :
      AppCoreInner → R → String → EventParts → CoreResult SessionEvent × AppCoreInner × R
  unfolding event_of appended_event Registry.append_event
  record_event inner store session_id parts =
      let event = event_of inner session_id parts in
      let (appended, registry) = Registry.append_event inner.registry event in
      appended_event (record inner { registry = registry }) store event appended

unfoldable pub aggregate_sample : MetricsFrame → MetricSample
aggregate_sample frame = record {
  at_ms = frame.aggregate.at_ms;
  cpu_core_percent = frame.aggregate.cpu_core_percent;
  cpu_host_percent = frame.aggregate.cpu_host_percent;
  rss_bytes = frame.aggregate.rss_bytes;
  runtime_ms = frame.aggregate.runtime_ms;
  process_count = frame.aggregate.process_count;
  read_bytes_per_sec = frame.aggregate.read_bytes_per_sec;
  write_bytes_per_sec = frame.aggregate.write_bytes_per_sec;
  quality = frame.aggregate.quality;
}

unfoldable pub host_sample : MetricsFrame → MetricSample
host_sample frame = record {
  at_ms = frame.host.at_ms;
  cpu_core_percent = frame.host.cpu_host_percent;
  cpu_host_percent = frame.host.cpu_host_percent;
  rss_bytes = frame.host.used_memory_bytes;
  runtime_ms = 0;
  process_count = frame.host.visible_process_count;
  read_bytes_per_sec = frame.host.disk_read_bytes_per_sec;
  write_bytes_per_sec = frame.host.disk_write_bytes_per_sec;
  quality = record {
    attribution = AttributionQuality.unknown;
    cpu = MetricAvailability.available;
    io = IoQuality.disk;
    reason = none;
  };
}
