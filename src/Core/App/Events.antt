-- ===== src/Core/App/Events.antt =====
-- crates/notch-core/src/app_core.rs: the handlers of commands about a known session. Each takes
-- the UUID that `append_event` draws.
use llm_notch.Prelude.{ℕ, String, Bool, true, false, not, Option, none, some, text_key}
use llm_notch.Prelude.Int.{ℤ}
use llm_notch.HashMap
use llm_notch.Protocol.{
  AgentSource, AgentSession, SessionStatus, AttentionKind, AttributionQuality, SessionEvent,
  SessionEventKind, EventLevel, StreamPayload,
}
use llm_notch.Core.Error.{
  ok, session_not_found, unsupported_capability, no_events, no_process_attribution, validation,
  end_status,
}
use llm_notch.Core.Validation.{
  validate_external_session_id, validate_session_label, validate_workspace_label,
  validate_event_summary, validate_tool_name, validate_session_id,
}
use llm_notch.Core.Transitions.{validate_transition}
use llm_notch.Core.Alerts.{evaluate_attention, clear_local_acknowledgement}
use llm_notch.Core.Repository.{SessionRepository}
use llm_notch.Core.App.{resolve_session_id, capabilities_for, ensure_attention_capability}
use llm_notch.Core.App.Commands.{
  SessionUpdateCommand, SessionEndCommand, LifecycleEventCommand, ToolEventCommand,
  AttentionCommand, ProcessRootCommand, AcknowledgeAttentionCommand, IngestResult,
}
use llm_notch.Core.App.Handler.{
  Handler, ◌>>=◌, ◌>>◌, pure, lift, asks, guard, given, calls, expect_session, find_session,
  write_session, save_session, queue, append,
}

abbrev pub event_result : String → SessionEvent → IngestResult
event_result session_id event = record {
  session_id = some session_id;
  event_id = some event.id;
  idempotent_replay = false;
}

-- The last time that a session was heard of.
abbrev pub heard : ℤ → AgentSession → AgentSession
heard now session = record session { last_event_at_ms = now }

unfoldable pub is_end : SessionStatus → Bool
is_end SessionStatus.completed = true
is_end SessionStatus.failed = true
is_end _ = false

abbrev pub end_session : SessionStatus → ℤ → AgentSession → AgentSession
end_session status now session = record session {
  status = status;
  ended_at_ms = some now;
  last_event_at_ms = now;
  attention = AttentionKind.absent;
  latest_metric = none;
}

abbrev pub end_summary : Option String → String
end_summary none = "Session ended"
end_summary (some summary) = summary

abbrev is_unknown : AttributionQuality → Bool
is_unknown AttributionQuality.unknown = true
is_unknown _ = false

module _ {R : Type 0} where
  -- The capabilities of a source that may send events.
  unfoldable pub require_events : AgentSource → Handler R (Unit {0})
  unfolding capabilities_for
  require_events source = do
    capabilities ← asks (λ i. capabilities_for i source)
    guard capabilities.events (unsupported_capability no_events)

  unfoldable pub require_attention : AgentSource → AttentionKind → Handler R (Unit {0})
  unfolding capabilities_for ensure_attention_capability
  require_attention source attention = do
    capabilities ← asks (λ i. capabilities_for i source)
    lift (ensure_attention_capability capabilities attention)

  unfoldable pub require_attribution : AgentSource → Handler R (Unit {0})
  unfolding capabilities_for
  require_attribution source = do
    capabilities ← asks (λ i. capabilities_for i source)
    guard (not (is_unknown capabilities.process_attribution))
        (unsupported_capability no_process_attribution)

  unfoldable pub resolve : AgentSource → String → Handler R String
  unfolding resolve_session_id
  resolve source external = asks (λ i. resolve_session_id i source external)

  unfoldable pub update_label : String → String → Handler R (Unit {0})
  unfolding write_session
  update_label session_id label = do
    lift (validate_session_label label)
    write_session session_id (λ s. record s { label = label })

  unfoldable pub update_workspace : String → String → Handler R (Unit {0})
  unfolding write_session
  update_workspace session_id workspace = do
    lift (validate_workspace_label workspace)
    write_session session_id (λ s. record s { workspace_label = some workspace })

  unfoldable pub update_status : String → SessionStatus → Handler R (Unit {0})
  unfolding write_session expect_session
  update_status session_id status = do
    session ← expect_session session_id
    lift (validate_transition session.status status)
    write_session session_id (λ s. record s { status = status })

  unfoldable pub evaluate : String → AttentionKind → ℤ → Handler R (Unit {0})
  unfolding evaluate_attention
  evaluate session_id attention now inner store = some (
    ok tt,
    record inner { alerts = (evaluate_attention inner.alerts session_id attention now).1 },
    store,
  )

  unfoldable pub clear_alerts : String → Handler R (Unit {0})
  unfolding clear_local_acknowledgement
  clear_alerts session_id inner store =
      some (
        ok tt,
        record inner { alerts = clear_local_acknowledgement inner.alerts session_id },
        store,
      )

module _ {R : Type 0} (repository : SessionRepository R) where
  -- `if let Some(session) = get_mut(…)`, for a session that was just resolved.
  unfoldable pub touch : String → ℤ → Handler R (Unit {0})
  unfolding write_session
  touch session_id now inner store = elim (HashMap.get inner.registry.sessions session_id) [
    | none ↦ some (ok tt, inner, store)
    | some session ↦
        (do
          write_session session_id (heard now)
          calls (λ r. repository.upsert_session r (heard now session)))
          inner store
  ]

module _ {R : Type 0} (repository : SessionRepository R) (event_id : ℕ) where
  -- The event of a handler, then the session as it was saved before it.
  unfoldable pub report :
      String → AgentSession → SessionEventKind → EventLevel → String → ℤ → Handler R IngestResult
  unfolding append queue
  report session_id updated kind level summary now = do
    event ← append repository session_id (record {
      id = event_id;
      kind = kind;
      level = level;
      summary = summary;
      tool_name = none;
      occurred_at_ms = now;
    })
    queue (StreamPayload.session_upsert updated)
    pure (event_result session_id event)

  unfoldable pub session_update : SessionUpdateCommand → Handler R IngestResult
  unfolding require_events resolve expect_session update_label update_workspace update_status
      write_session save_session report
  session_update cmd = do
    lift (validate_external_session_id cmd.external_session_id)
    require_events cmd.source
    session_id ← resolve cmd.source cmd.external_session_id
    _ ← expect_session session_id
    given cmd.label (update_label session_id)
    given cmd.workspace_label (update_workspace session_id)
    given cmd.status (update_status session_id)
    write_session session_id (heard cmd.occurred_at_ms)
    updated ← save_session repository session_id
    report session_id updated SessionEventKind.status EventLevel.info "Session updated"
        cmd.occurred_at_ms

  unfoldable pub session_end : SessionEndCommand → Handler R IngestResult
  unfolding require_events resolve expect_session write_session save_session report is_end
  session_end cmd = do
    lift (validate_external_session_id cmd.external_session_id)
    require_events cmd.source
    session_id ← resolve cmd.source cmd.external_session_id
    session ← expect_session session_id
    guard (is_end cmd.status) (validation end_status)
    lift (validate_transition session.status cmd.status)
    write_session session_id (end_session cmd.status cmd.occurred_at_ms)
    updated ← save_session repository session_id
    lift (validate_event_summary (end_summary cmd.summary))
    report session_id updated SessionEventKind.lifecycle EventLevel.info (end_summary cmd.summary)
        cmd.occurred_at_ms

  unfoldable pub lifecycle_event : LifecycleEventCommand → Handler R IngestResult
  unfolding require_events resolve touch append
  lifecycle_event cmd = do
    lift (validate_external_session_id cmd.external_session_id)
    lift (validate_event_summary cmd.summary)
    require_events cmd.source
    session_id ← resolve cmd.source cmd.external_session_id
    touch repository session_id cmd.occurred_at_ms
    event ← append repository session_id (record {
      id = event_id;
      kind = SessionEventKind.lifecycle;
      level = cmd.level;
      summary = cmd.summary;
      tool_name = none;
      occurred_at_ms = cmd.occurred_at_ms;
    })
    pure (event_result session_id event)

  unfoldable pub tool_event : ToolEventCommand → Handler R IngestResult
  unfolding require_events resolve touch append
  tool_event cmd = do
    lift (validate_external_session_id cmd.external_session_id)
    lift (validate_event_summary cmd.summary)
    given cmd.tool_name (λ tool. lift (validate_tool_name tool))
    require_events cmd.source
    session_id ← resolve cmd.source cmd.external_session_id
    touch repository session_id cmd.occurred_at_ms
    event ← append repository session_id (record {
      id = event_id;
      kind = SessionEventKind.tool;
      level = cmd.level;
      summary = cmd.summary;
      tool_name = cmd.tool_name;
      occurred_at_ms = cmd.occurred_at_ms;
    })
    pure (event_result session_id event)

  unfoldable pub attention : AttentionCommand → Handler R IngestResult
  unfolding require_attention resolve expect_session write_session save_session evaluate report
  attention cmd = do
    lift (validate_external_session_id cmd.external_session_id)
    lift (validate_event_summary cmd.summary)
    require_attention cmd.source cmd.attention
    session_id ← resolve cmd.source cmd.external_session_id
    _ ← expect_session session_id
    write_session session_id
        (λ s. record s { attention = cmd.attention; last_event_at_ms = cmd.occurred_at_ms })
    updated ← save_session repository session_id
    evaluate session_id cmd.attention cmd.occurred_at_ms
    report session_id updated SessionEventKind.attention cmd.level cmd.summary cmd.occurred_at_ms

  unfoldable pub register_process_root : ProcessRootCommand → Handler R IngestResult
  unfolding require_attribution resolve expect_session write_session save_session report
  register_process_root cmd = do
    lift (validate_external_session_id cmd.external_session_id)
    require_attribution cmd.source
    session_id ← resolve cmd.source cmd.external_session_id
    _ ← expect_session session_id
    write_session session_id (λ s. record s {
      process_root = some cmd.process_root;
      last_event_at_ms = cmd.occurred_at_ms;
    })
    updated ← save_session repository session_id
    report session_id updated SessionEventKind.lifecycle EventLevel.info "Process root registered"
        cmd.occurred_at_ms

module _ {R : Type 0} (repository : SessionRepository R) where
  unfoldable pub acknowledge_attention : AcknowledgeAttentionCommand → Handler R IngestResult
  unfolding find_session write_session save_session clear_alerts queue
  acknowledge_attention cmd = do
    lift (validate_session_id cmd.session_id)
    _ ← find_session cmd.session_id (session_not_found cmd.session_id)
    write_session cmd.session_id
        (λ s. record s { attention = AttentionKind.absent; last_event_at_ms = cmd.occurred_at_ms })
    updated ← save_session repository cmd.session_id
    clear_alerts cmd.session_id
    queue (StreamPayload.session_upsert updated)
    pure (record { session_id = some cmd.session_id; event_id = none; idempotent_replay = false })
