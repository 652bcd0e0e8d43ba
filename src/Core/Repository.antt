-- ===== src/Core/Repository.antt =====
-- `SessionRepository` of crates/notch-core/src/traits.rs: what the core calls while it handles
-- commands. A call answers, and leaves the repository as it decides, also where it refuses.
use llm_notch.Prelude.{ℕ, String, Option, Bool}
use llm_notch.Prelude.Int.{ℤ}
use llm_notch.Protocol.{
  AgentSession, SessionEvent, AdapterCapabilities, PublicSettings, MetricSample,
}
use llm_notch.Core.Error.{CoreResult}

pub record PurgeReport : Type 0 where
  pub events_deleted : ℕ
  pub metric_buckets_deleted : ℕ
  pub bytes_after : ℕ

pub record SessionRepository (R : Type 0) : Type 0 where
  pub upsert_session : R → AgentSession → CoreResult (Unit {0}) × R
  pub remove_session : R → String → CoreResult (Unit {0}) × R
  pub append_event : R → SessionEvent → CoreResult (Unit {0}) × R
  pub save_settings : R → PublicSettings → CoreResult (Unit {0}) × R
  pub upsert_integration :
      R → AdapterCapabilities → Bool → Option String → ℤ → CoreResult (Unit {0}) × R
  -- the scope, the session and the start of the bucket
  pub record_metric_bucket :
      R → String → Option String → ℤ → MetricSample → CoreResult (Unit {0}) × R
  pub purge_metric_history : R → CoreResult ℕ × R
  pub purge_session_events : R → CoreResult ℕ × R
  -- whether the key was there already
  pub store_idempotency_key : R → String → ℤ → CoreResult Bool × R
  pub prune : R → ℤ → ℤ → CoreResult PurgeReport × R
