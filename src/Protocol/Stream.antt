-- ===== src/Protocol/Stream.antt =====
-- The stream frames of crates/notch-protocol/src/types.rs.
use llm_notch.Prelude.{ℕ, String}
use llm_notch.Prelude.Int.{ℤ}
use llm_notch.Protocol.Metrics.{MetricsFrame}
use llm_notch.Protocol.Session.{
  AgentSession, SessionEvent, AdapterCapabilities, PublicSettings, AppSnapshot,
}

pub data StreamPayload : Type 0 where
  snapshot : AppSnapshot → StreamPayload
  session_upsert : AgentSession → StreamPayload
  session_remove : String → StreamPayload
  session_event : SessionEvent → StreamPayload
  metrics : MetricsFrame → StreamPayload
  settings_changed : PublicSettings → StreamPayload
  integration_changed : AdapterCapabilities → StreamPayload
  heartbeat : StreamPayload
  resync_required : String → StreamPayload

pub record StreamFrame : Type 0 where
  pub sequence : ℕ
  pub emitted_at_ms : ℤ
  pub payload : StreamPayload
