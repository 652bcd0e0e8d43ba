-- ===== src/Core/App/Ingest.antt =====
-- crates/notch-core/src/app_core.rs: `handle_ingest` and `ingest`, and the operations beside the
-- commands that write to a session.
use llm_notch.Prelude.{ℕ, String, true, false, List, [], ◌∷◌, none, some, nat_beq}
use llm_notch.Prelude.Int.{ℤ}
use llm_notch.Protocol.{
  AgentSource, AdapterCapabilities, PublicSettings, StreamPayload, StreamFrame,
  VerifiedTerminalContext,
}
use llm_notch.Core.Error.{ok, session_not_found}
use llm_notch.Core.Validation.{validate_session_id}
use llm_notch.Core.Registry
use llm_notch.Core.Repository.{SessionRepository}
use llm_notch.Core.App.{flush_pending, source_rank}
use llm_notch.Core.App.Commands.{IngestCommand, IntegrationHealthCommand, IngestResult, empty}
use llm_notch.Core.App.Handler.{
  Handler, ◌>>=◌, ◌>>◌, pure, lift, calls, on_registry, find_session, write_session, save_session,
  queue,
}
use llm_notch.Core.App.Events.{
  session_update, session_end, lifecycle_event, tool_event, attention, register_process_root,
  acknowledge_attention,
}
use llm_notch.Core.App.Start.{session_start}

-- The capabilities of a source take the place of the first that are there, or are added.
unfoldable pub put_integration :
    List AdapterCapabilities → AdapterCapabilities → List AdapterCapabilities
put_integration [] c = c ∷ []
put_integration (existing ∷ integrations) c =
    elim (nat_beq (source_rank existing.source) (source_rank c.source)) [
      | true ↦ c ∷ integrations
      | false ↦ existing ∷ put_integration integrations c
    ]

module _ {R : Type 0} where
  unfoldable pub integrate : AdapterCapabilities → Handler R (Unit {0})
  unfolding put_integration
  integrate c inner store =
      some (ok tt, record inner { integrations = put_integration inner.integrations c }, store)

  -- The frames of everything that is pending.
  unfoldable pub flush : ℤ → Handler R (List StreamFrame)
  unfolding flush_pending
  flush now inner store = some (ok (flush_pending inner now).0, (flush_pending inner now).1, store)

module _ {R : Type 0} (repository : SessionRepository R) where
  unfoldable pub integration_health : IntegrationHealthCommand → Handler R IngestResult
  unfolding integrate queue
  integration_health cmd = do
    calls (λ r.
        repository.upsert_integration r cmd.capabilities cmd.healthy cmd.message cmd.occurred_at_ms)
    integrate cmd.capabilities
    queue (StreamPayload.integration_changed cmd.capabilities)
    pure empty

  unfoldable pub update_settings : PublicSettings → ℤ → Handler R (List StreamFrame)
  unfolding queue flush
  update_settings settings now = do
    calls (λ r. repository.save_settings r settings)
    λ inner store. some (ok tt, record inner { settings = settings }, store)
    queue (StreamPayload.settings_changed settings)
    flush now

  unfoldable pub remove_session : String → ℤ → Handler R (List StreamFrame)
  unfolding find_session Registry.remove_session queue flush
  remove_session session_id now = do
    lift (validate_session_id session_id)
    _ ← find_session session_id (session_not_found session_id)
    calls (λ r. repository.remove_session r session_id)
    on_registry (λ r. Registry.remove_session r session_id)
    queue (StreamPayload.session_remove session_id)
    flush now

  -- A session after a write, to the repository and to the stream.
  unfoldable pub publish : String → ℤ → Handler R (List StreamFrame)
  unfolding save_session queue flush
  publish session_id now = do
    updated ← save_session repository session_id
    queue (StreamPayload.session_upsert updated)
    flush now

  unfoldable pub clear_process_root : String → ℤ → Handler R (List StreamFrame)
  unfolding find_session write_session publish
  clear_process_root session_id now = do
    lift (validate_session_id session_id)
    session ← find_session session_id (session_not_found session_id)
    elim session.process_root [
      | none ↦ pure []
      | some _ ↦
          write_session session_id (λ s. record s { process_root = none; latest_metric = none })
          >> publish session_id now
    ]

  unfoldable pub set_verified_terminal :
      String → VerifiedTerminalContext → ℤ → Handler R (List StreamFrame)
  unfolding find_session write_session publish
  set_verified_terminal session_id terminal now = do
    lift (validate_session_id session_id)
    _ ← find_session session_id (session_not_found session_id)
    write_session session_id (λ s. record s { verified_terminal = some terminal })
    publish session_id now

module _ {R : Type 0} (repository : SessionRepository R)
    (session_id_for : AgentSource → String → String) (event_id : ℕ) where
  unfoldable pub handle_ingest : IngestCommand → Handler R IngestResult
  unfolding session_start session_update session_end lifecycle_event tool_event attention
      register_process_root integration_health acknowledge_attention
  handle_ingest (IngestCommand.session_start cmd) =
      session_start repository session_id_for event_id cmd
  handle_ingest (IngestCommand.session_update cmd) = session_update repository event_id cmd
  handle_ingest (IngestCommand.session_end cmd) = session_end repository event_id cmd
  handle_ingest (IngestCommand.lifecycle_event cmd) = lifecycle_event repository event_id cmd
  handle_ingest (IngestCommand.tool_event cmd) = tool_event repository event_id cmd
  handle_ingest (IngestCommand.attention cmd) = attention repository event_id cmd
  handle_ingest (IngestCommand.register_process_root cmd) =
      register_process_root repository event_id cmd
  handle_ingest (IngestCommand.integration_health cmd) = integration_health repository cmd
  handle_ingest (IngestCommand.acknowledge_attention cmd) = acknowledge_attention repository cmd

  -- `ingest`: what is pending is sent after a success only. The clock is read for the frames.
  unfoldable pub ingest : IngestCommand → ℤ → Handler R (IngestResult × List StreamFrame)
  unfolding handle_ingest flush
  ingest command now = do result ← handle_ingest command; frames ← flush now; pure (result, frames)
