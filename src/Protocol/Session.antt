-- ===== src/Protocol/Session.antt =====
-- Sessions, events, capabilities and settings of crates/notch-protocol/src/types.rs.
use llm_notch.Prelude.{ℕ, String, Option, Bool, List}
use llm_notch.Prelude.Int.{ℤ}
use llm_notch.HashMap.{HashMap}
use llm_notch.Protocol.Enums.{
  AgentSource, SessionStatus, AttentionKind, AttributionQuality, SessionEventKind, EventLevel,
  AttentionCapability, ContextOpenTier, ResourceAlertKind, SoundEvent,
}
use llm_notch.Protocol.Metrics.{MetricSample, HostMetricSample, AgentAggregate}

pub record ProcessIdentity : Type 0 where
  pub pid : ℕ
  pub started_at_ms : ℤ

pub record VerifiedTerminalContext : Type 0 where
  pub terminal_session_id : Option String
  pub tab_id : Option String
  pub pane_id : Option String
  pub window_handle : Option ℕ

pub record AgentSession : Type 0 where
  pub id : String
  pub source : AgentSource
  pub external_session_id : String
  pub label : String
  pub workspace_label : Option String
  pub status : SessionStatus
  pub attention : AttentionKind
  pub started_at_ms : ℤ
  pub last_event_at_ms : ℤ
  pub ended_at_ms : Option ℤ
  pub process_root : Option ProcessIdentity
  pub verified_terminal : Option VerifiedTerminalContext
  pub latest_metric : Option MetricSample

-- `id` is a UUID, as a number.
pub record SessionEvent : Type 0 where
  pub id : ℕ
  pub session_id : String
  pub sequence : ℕ
  pub occurred_at_ms : ℤ
  pub kind : SessionEventKind
  pub level : EventLevel
  pub summary : String
  pub tool_name : Option String

pub record AdapterCapabilities : Type 0 where
  pub source : AgentSource
  pub events : Bool
  pub attention : AttentionCapability
  pub decision_response : Bool
  pub context_open : Bool
  pub process_attribution : AttributionQuality
  pub context_open_tier : ContextOpenTier
  pub observe_lifecycle : Bool
  pub observe_tools : Bool
  pub respond_decisions : Bool
  pub respond_questions : Bool
  pub fail_open_hooks : Bool
  pub requires_external_trust : Bool

pub record ResourceAlert : Type 0 where
  pub kind : ResourceAlertKind
  pub message : String
  pub session_id : Option String
  pub raised_at_ms : ℤ

pub record QuietHours : Type 0 where
  pub start_minute : ℕ
  pub end_minute : ℕ

-- Volumes are `f32`, as bit patterns.
pub record SoundRouting : Type 0 where
  pub enabled : Bool
  pub volume : ℕ
  pub quiet_hours : Option QuietHours
  pub event_volume : HashMap SoundEvent ℕ
  pub agent_volume : HashMap String ℕ

pub record PublicSettings : Type 0 where
  pub overlay_enabled : Bool
  pub autostart_enabled : Bool
  pub reduced_motion : Bool
  pub sampling_interval_ms : ℕ
  pub selected_display : Option String
  pub show_over_fullscreen : Bool
  pub history_retention_hours : ℕ
  pub alert_sound_enabled : Bool
  pub selected_sound_theme_id : Option String
  pub sound_routing : SoundRouting

pub record AppSnapshot : Type 0 where
  pub protocol_version : ℕ
  pub captured_at_ms : ℤ
  pub host : Option HostMetricSample
  pub aggregate : Option AgentAggregate
  pub sessions : List AgentSession
  pub settings : PublicSettings
  pub adapters : List AdapterCapabilities
  pub resource_alerts : List ResourceAlert
