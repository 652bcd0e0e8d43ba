-- ===== src/Protocol/Enums.antt =====
-- The enumerations of crates/notch-protocol/src/types.rs.
pub data AgentSource : Type 0 where
  cursor claude_code codex gemini antigravity_cli copilot_cli qwen generic unknown : AgentSource

pub data SessionStatus : Type 0 where
  starting running waiting paused completed failed stale : SessionStatus

-- `absent` is the source's `None`.
pub data AttentionKind : Type 0 where
  absent approval question permission error : AttentionKind

pub data AttributionQuality : Type 0 where
  exact shared heuristic unknown : AttributionQuality

pub data MetricAvailability : Type 0 where
  available warming_up unavailable : MetricAvailability

pub data IoQuality : Type 0 where
  disk all_io partial unavailable : IoQuality

pub data SessionEventKind : Type 0 where
  lifecycle tool attention status : SessionEventKind

pub data EventLevel : Type 0 where
  debug info warning error : EventLevel

pub data AttentionCapability : Type 0 where
  full partial absent : AttentionCapability

pub data ContextOpenTier : Type 0 where
  absent app_activate window_focus exact_pane : ContextOpenTier

pub data ResourceAlertKind : Type 0 where
  cpu_warn cpu_critical memory_high : ResourceAlertKind

pub data SoundEvent : Type 0 where
  approval question completed failed notification : SoundEvent
