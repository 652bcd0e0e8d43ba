-- ===== src/Core/App/Commands.antt =====
-- crates/notch-core/src/domain/ingest.rs: the commands that the core accepts.
use llm_notch.Prelude.{ℕ, String, Option, none, Bool, false}
use llm_notch.Prelude.Int.{ℤ}
use llm_notch.Protocol.{
  AgentSource, SessionStatus, AttentionKind, EventLevel, ProcessIdentity, AdapterCapabilities,
}

pub record SessionStartCommand : Type 0 where
  pub idempotency_key : Option String
  pub source : AgentSource
  pub external_session_id : String
  pub label : String
  pub workspace_label : Option String
  pub status : SessionStatus
  pub occurred_at_ms : ℤ

pub record SessionUpdateCommand : Type 0 where
  pub source : AgentSource
  pub external_session_id : String
  pub status : Option SessionStatus
  pub label : Option String
  pub workspace_label : Option String
  pub occurred_at_ms : ℤ

pub record SessionEndCommand : Type 0 where
  pub source : AgentSource
  pub external_session_id : String
  pub status : SessionStatus
  pub occurred_at_ms : ℤ
  pub summary : Option String

pub record LifecycleEventCommand : Type 0 where
  pub source : AgentSource
  pub external_session_id : String
  pub level : EventLevel
  pub summary : String
  pub occurred_at_ms : ℤ

pub record ToolEventCommand : Type 0 where
  pub source : AgentSource
  pub external_session_id : String
  pub level : EventLevel
  pub summary : String
  pub tool_name : Option String
  pub occurred_at_ms : ℤ

pub record AttentionCommand : Type 0 where
  pub source : AgentSource
  pub external_session_id : String
  pub attention : AttentionKind
  pub level : EventLevel
  pub summary : String
  pub occurred_at_ms : ℤ

pub record ProcessRootCommand : Type 0 where
  pub source : AgentSource
  pub external_session_id : String
  pub process_root : ProcessIdentity
  pub occurred_at_ms : ℤ

pub record IntegrationHealthCommand : Type 0 where
  pub capabilities : AdapterCapabilities
  pub healthy : Bool
  pub message : Option String
  pub occurred_at_ms : ℤ

pub record AcknowledgeAttentionCommand : Type 0 where
  pub session_id : String
  pub occurred_at_ms : ℤ

pub data IngestCommand : Type 0 where
  session_start : SessionStartCommand → IngestCommand
  session_update : SessionUpdateCommand → IngestCommand
  session_end : SessionEndCommand → IngestCommand
  lifecycle_event : LifecycleEventCommand → IngestCommand
  tool_event : ToolEventCommand → IngestCommand
  attention : AttentionCommand → IngestCommand
  register_process_root : ProcessRootCommand → IngestCommand
  integration_health : IntegrationHealthCommand → IngestCommand
  acknowledge_attention : AcknowledgeAttentionCommand → IngestCommand

pub record IngestResult : Type 0 where
  pub session_id : Option String
  pub event_id : Option ℕ
  pub idempotent_replay : Bool

abbrev pub empty : IngestResult
empty = record { session_id = none; event_id = none; idempotent_replay = false }
