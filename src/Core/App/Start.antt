-- ===== src/Core/App/Start.antt =====
-- crates/notch-core/src/app_core.rs: `session_start`. `session_id_for` is the hash that
-- `internal_session_id` makes of the external key, a parameter.
use llm_notch.Prelude.{ℕ, String, Bool, true, false, Option, none, some, text_key}
use llm_notch.Protocol.{
  AgentSource, AgentSession, SessionStatus, AttentionKind, SessionEventKind, EventLevel,
  StreamPayload,
}
use llm_notch.Core.Error.{CoreResult, ok}
use llm_notch.Core.Validation.{
  validate_external_session_id, validate_session_label, validate_workspace_label,
}
use llm_notch.Core.Transitions.{validate_transition}
use llm_notch.Core.Registry
use llm_notch.Core.Registry.{
  SessionRegistry, check_idempotency, record_idempotency, resolve_external,
  capacity_eviction_candidate, insert_new_session,
}
use llm_notch.Core.Repository.{SessionRepository}
use llm_notch.Core.App.Commands.{SessionStartCommand, IngestResult}
use llm_notch.Core.App.Events.{require_events, event_result}
use llm_notch.Core.App.Handler.{
  Handler, ◌>>=◌, ◌>>◌, pure, lift, gets, asks, calls, on_registry, given, queue, append,
}

abbrev pub replay_of : AgentSession → IngestResult
replay_of session = record {
  session_id = some session.id;
  event_id = none;
  idempotent_replay = true;
}

-- The session of a command under the id that it gets.
abbrev pub started : SessionStartCommand → String → AgentSession
started cmd id = record {
  id = id;
  source = cmd.source;
  external_session_id = cmd.external_session_id;
  label = cmd.label;
  workspace_label = cmd.workspace_label;
  status = cmd.status;
  attention = AttentionKind.absent;
  started_at_ms = cmd.occurred_at_ms;
  last_event_at_ms = cmd.occurred_at_ms;
  ended_at_ms = none;
  process_root = none;
  verified_terminal = none;
  latest_metric = none;
}

-- A session may start in any status that `Starting` leads to.
unfoldable pub check_status : SessionStatus → CoreResult (Unit {0})
unfolding validate_transition
check_status SessionStatus.starting = ok tt
check_status status = validate_transition SessionStatus.starting status

module _ {R : Type 0} where
  -- The session that is known under the external key of a command.
  unfoldable pub known : SessionStartCommand → Handler R (Option AgentSession)
  unfolding resolve_external
  known cmd = gets (λ i. resolve_external i.registry cmd.source cmd.external_session_id)

  unfoldable pub remember : String → Handler R (Unit {0})
  unfolding record_idempotency
  remember key = on_registry (λ r. (ok tt, record_idempotency r key))

  unfoldable pub insert_session :
      (AgentSource → String → String) → SessionStartCommand → Handler R (AgentSession × Bool)
  unfolding insert_new_session
  insert_session session_id_for cmd inner store =
      elim (insert_new_session session_id_for inner.registry cmd.source cmd.external_session_id
        (started cmd)) [ none ↦ none | some x ↦ some (x.0, record inner { registry = x.1 }, store) ]

module _ {R : Type 0} (repository : SessionRepository R) where
  -- Whether the key was used before, told by the registry or else by the repository.
  unfoldable pub is_used : String → SessionStartCommand → Handler R Bool
  unfolding check_idempotency
  is_used key cmd = do
    seen ← gets (λ i. check_idempotency i.registry key)
    elim seen [
      | true ↦ pure true
      | false ↦ calls (λ r. repository.store_idempotency_key r key cmd.occurred_at_ms)
    ]

  -- The session to replay, for a command with a key.
  unfoldable pub replay_by_key : SessionStartCommand → String → Handler R (Option AgentSession)
  unfolding is_used known remember
  replay_by_key cmd key = do
    used ← is_used key cmd
    found ← elim used [ true ↦ known cmd | false ↦ pure none ]
    elim found [ some session ↦ pure (some session) | none ↦ remember key >> pure none ]

  unfoldable pub evict : String → Handler R (Unit {0})
  unfolding Registry.remove_session queue
  evict id = do
    calls (λ r. repository.remove_session r id)
    on_registry (λ r. Registry.remove_session r id)
    queue (StreamPayload.session_remove id)

  unfoldable pub make_room : Handler R (Unit {0})
  unfolding capacity_eviction_candidate evict
  make_room = do
    candidate ← asks (λ i. capacity_eviction_candidate i.registry)
    given candidate evict

module _ {R : Type 0} (repository : SessionRepository R)
    (session_id_for : AgentSource → String → String) (event_id : ℕ) where
  -- The first event of a session that was just inserted.
  unfoldable pub announce : SessionStartCommand → AgentSession → Handler R IngestResult
  unfolding append Registry.upsert_session queue
  announce cmd session = do
    calls (λ r. repository.upsert_session r session)
    event ← append repository session.id (record {
      id = event_id;
      kind = SessionEventKind.lifecycle;
      level = EventLevel.info;
      summary = "Session started";
      tool_name = none;
      occurred_at_ms = cmd.occurred_at_ms;
    })
    let session' = record session { last_event_at_ms = cmd.occurred_at_ms }
    on_registry (λ r. Registry.upsert_session r session')
    calls (λ r. repository.upsert_session r session')
    queue (StreamPayload.session_upsert session')
    pure (event_result event.session_id event)

  -- From the insertion on.
  unfoldable pub start_new : SessionStartCommand → Handler R IngestResult
  unfolding make_room insert_session announce
  start_new cmd = do
    make_room repository
    inserted ← insert_session session_id_for cmd
    elim inserted.1 [ true ↦ pure (replay_of inserted.0) | false ↦ announce cmd inserted.0 ]

  -- From the check of the idempotency key on.
  unfoldable pub start_unless_known : SessionStartCommand → Handler R IngestResult
  unfolding require_events check_status known start_new
  start_unless_known cmd = do
    require_events cmd.source
    lift (check_status cmd.status)
    existing ← known cmd
    elim existing [ some session ↦ pure (replay_of session) | none ↦ start_new cmd ]

  unfoldable pub session_start : SessionStartCommand → Handler R IngestResult
  unfolding replay_by_key start_unless_known
  session_start cmd = do
    lift (validate_external_session_id cmd.external_session_id)
    lift (validate_session_label cmd.label)
    given cmd.workspace_label (λ label. lift (validate_workspace_label label))
    replayed ← elim cmd.idempotency_key [
      | none ↦ pure none
      | some key ↦ replay_by_key repository cmd key
    ]
    elim replayed [ some session ↦ pure (replay_of session) | none ↦ start_unless_known cmd ]
