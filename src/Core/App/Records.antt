-- ===== src/Core/App/Records.antt =====
-- crates/notch-core/src/app_core.rs: metrics, retention and the views of the renderer. The clock is
-- a parameter: a call takes the moments at which it reads it.
pub mod Snapshot
use llm_notch.Prelude.{
  ℕ, ◌+◌, ◌-◌, ◌*◌, ◌%◌, suc, String, Bool, true, false, not, ◌||◌, List, [], ◌∷◌, Option, none,
  some, map, take, if◌then◌else◌, ◌==◌, number_key, text_key, ltb,
}
use llm_notch.Prelude.Int.{ℤ, pos, negsuc, leb_ℤ}
use llm_notch.Prelude.Sorting.{sort_by}
use llm_notch.HashMap
use llm_notch.Protocol.{
  AgentSession, SessionEvent, MetricSample, MetricsFrame, AppSnapshot, StreamPayload, StreamFrame,
  max_sessions,
}
use llm_notch.Core.Error.{
  CoreResult, ok, err, session_not_found, validation, zero_before_sequence, page_limit,
}
use llm_notch.Core.Validation.{validate_session_id}
use llm_notch.Core.Transitions.{is_terminal}
use llm_notch.Core.Registry
use llm_notch.Core.Registry.{SessionRegistry, events_for}
use llm_notch.Core.Registry.Bootstrap.{bootstrap_events}
use llm_notch.Core.Alerts.{evaluate_host_metrics, resource_alerts_from_active}
use llm_notch.Core.Repository.{SessionRepository, PurgeReport}
use llm_notch.Core.App.{AppCoreInner, host_sample, aggregate_sample}
use llm_notch.Core.App.Handler.{
  Handler, Outcome, ◌>>=◌, ◌>>◌, pure, lift, gets, calls, guard, find_session, write_session, queue,
}
use llm_notch.Core.App.Ingest.{flush}

abbrev pub metric_bucket_secs : ℕ
metric_bucket_secs = 5

-- The start of the bucket of a moment, `at - at.rem_euclid(5000)`.
unfoldable pub bucket_start : ℤ → ℤ
bucket_start (pos n) = pos (n - n % (metric_bucket_secs * 1000))
bucket_start (negsuc n) =
    let bucket = metric_bucket_secs * 1000 in negsuc (n + (bucket - suc n % bucket) % bucket)

-- A session that has ended has no metric.
unfoldable pub with_metric : MetricsFrame → String → AgentSession → AgentSession
unfolding is_terminal
with_metric frame id session = record session {
  latest_metric = if is_terminal session.status then none else HashMap.get frame.agents id;
}

module _ {R : Type 0} (repository : SessionRepository R) where
  -- The buckets of the agents, in the order of the frame.
  unfoldable pub record_agents : ℤ → List (String × MetricSample) → Handler R (Unit {0})
  record_agents bucket [] = pure tt
  record_agents bucket ((id, sample) ∷ agents) =
      calls (λ r. repository.record_metric_bucket r "agent" (some id) bucket sample)
      >> record_agents bucket agents

  -- One session of the loop; an id that is no longer there is passed over.
  unfoldable pub set_metric : MetricsFrame → String → Handler R (Unit {0})
  unfolding write_session with_metric
  set_metric frame id inner store = elim (HashMap.get inner.registry.sessions id) [
    | none ↦ some (ok tt, inner, store)
    | some session ↦
        (write_session id (with_metric frame id)
            >> calls (λ r. repository.upsert_session r (with_metric frame id session)))
          inner store
  ]

  unfoldable pub set_metrics : MetricsFrame → List String → Handler R (Unit {0})
  unfolding set_metric
  set_metrics frame [] = pure tt
  set_metrics frame (id ∷ ids) = set_metric frame id >> set_metrics frame ids

  -- The state under the lock, once the sessions are written.
  unfoldable pub keep_frame : MetricsFrame → ℤ → Handler R (Unit {0})
  unfolding evaluate_host_metrics
  keep_frame frame now inner store = some (
    ok tt,
    record inner {
      latest_metrics = some frame;
      alerts = (evaluate_host_metrics inner.alerts frame.host (aggregate_sample frame) now).1;
    },
    store,
  )

  abbrev session_ids : AppCoreInner → List String
  session_ids inner = map (λ s. s.id) (HashMap.values inner.registry.sessions)

  unfoldable pub record_metrics : MetricsFrame → ℤ → ℤ → Handler R (List StreamFrame)
  unfolding bucket_start host_sample aggregate_sample record_agents set_metrics keep_frame queue
      flush
  record_metrics frame now flushed_at = do
    let bucket = bucket_start now
    calls (λ r. repository.record_metric_bucket r "host" none bucket (host_sample frame))
    calls (λ r. repository.record_metric_bucket r "aggregate" none bucket (aggregate_sample frame))
    record_agents bucket frame.agents
    ids ← gets session_ids
    set_metrics frame ids
    keep_frame frame now
    queue (StreamPayload.metrics frame)
    flush flushed_at

  -- What a purge of the metric history drops under the lock.
  unfoldable pub drop_metrics : Handler R (Unit {0})
  unfolding Registry.clear_latest_metrics
  drop_metrics inner store = some (
    ok tt,
    record inner { registry = Registry.clear_latest_metrics inner.registry; latest_metrics = none },
    store,
  )

  unfoldable pub purge_metric_history : Handler R ℕ
  unfolding drop_metrics
  purge_metric_history = do
    removed ← calls (λ r. repository.purge_metric_history r)
    drop_metrics
    pure removed

  unfoldable pub purge_session_events : Handler R ℕ
  unfolding Registry.clear_events
  purge_session_events = do
    removed ← calls (λ r. repository.purge_session_events r)
    λ inner store.
        some (ok tt, record inner { registry = Registry.clear_events inner.registry }, store)
    pure removed

  -- `i64::from(hours).saturating_mul(…)`: a `u32` of hours cannot reach the limit.
  unfoldable pub purge_history : ℤ → Handler R PurgeReport
  unfolding drop_metrics
  purge_history now = do
    hours ← gets (λ i. i.settings.history_retention_hours)
    report ← calls (λ r. repository.prune r now (pos (hours * (60 * 60 * 1000))))
    elim (ltb 0 report.metric_buckets_deleted) [ true ↦ drop_metrics | false ↦ pure tt ]
    pure report

  -- The rows of history and the events that were removed.
  unfoldable pub purge_scoped : Bool → Bool → Handler R (ℕ × ℕ)
  unfolding purge_metric_history purge_session_events
  purge_scoped history session_events = do
    history_rows ← elim history [ true ↦ purge_metric_history | false ↦ pure 0 ]
    events ← elim session_events [ true ↦ purge_session_events | false ↦ pure 0 ]
    pure (history_rows, events)

module _ {R : Type 0} where
  unfoldable pub session_events : String → Handler R (List SessionEvent)
  unfolding find_session events_for
  session_events session_id = do
    lift (validate_session_id session_id)
    _ ← find_session session_id (session_not_found session_id)
    gets (λ i. events_for i.registry session_id)

-- The session that was heard of last stands first.
abbrev pub heard_later : AgentSession → AgentSession → Bool
heard_later a b = leb_ℤ b.last_event_at_ms a.last_event_at_ms

pub record SnapshotWithSequence : Type 0 where
  pub snapshot : AppSnapshot
  pub sequence : ℕ
  pub events : List SessionEvent

unfoldable pub snapshot_with_sequence : AppCoreInner → ℤ → SnapshotWithSequence
unfolding bootstrap_events resource_alerts_from_active
snapshot_with_sequence inner now = record {
  snapshot = record {
    protocol_version = 1;
    captured_at_ms = now;
    host = elim inner.latest_metrics [ none ↦ none | some m ↦ some m.host ];
    aggregate = elim inner.latest_metrics [ none ↦ none | some m ↦ some m.aggregate ];
    sessions = take max_sessions (sort_by heard_later (HashMap.values inner.registry.sessions));
    settings = inner.settings;
    adapters = inner.integrations;
    resource_alerts = resource_alerts_from_active inner.alerts.active;
  };
  sequence = inner.stream_sequence;
  events = bootstrap_events inner.registry;
}
