-- ===== src/Core/App/Steps/Serving.antt =====
-- Whatever the core is asked and whatever the repository answers: no panic, and the registry moves by
-- its own steps.
use llm_notch.Prelude.{ℕ, String, ◌≡◌, refl, sym, subst, inl, inr, Bool-cases, [], some, text_key}
use llm_notch.Prelude.Int.{ℤ}
use llm_notch.Protocol.{
  AgentSource, AdapterCapabilities, PublicSettings, VerifiedTerminalContext, StreamPayload,
}
use llm_notch.Core.Error.{ok}
use llm_notch.Core.Registry
use llm_notch.Core.Registry.{SessionRegistry}
use llm_notch.Core.Registry.Invariant.{IsWellFormed}
use llm_notch.Core.Registry.Invariant.Reachable.{Step, Reach}
use llm_notch.Core.Repository.{SessionRepository}
use llm_notch.Core.Stream.{is_empty}
use llm_notch.Core.App.{AppCoreInner, flush_pending}
use llm_notch.Core.App.Commands.{IngestCommand, IntegrationHealthCommand}
use llm_notch.Core.App.Handler.{on_registry}
use llm_notch.Core.App.Handler.Outcome.{after, either_way}
use llm_notch.Core.App.Handler.Outcome.Ends.{succeeds}
use llm_notch.Core.App.Ingest.{
  integrate, flush, integration_health, update_settings, remove_session, publish,
  clear_process_root, set_verified_terminal, handle_ingest, ingest,
}
use llm_notch.Core.App.Steps.{
  Takes, Has, Anything, lift_lem, calls_lem, option_lem, returns_lem, forget_lem, queue_lem,
  find_session_lem, write_session_lem, save_session_lem,
}
use llm_notch.Core.App.Steps.KnownSession.{
  session_update_lem, session_end_lem, lifecycle_event_lem, tool_event_lem, attention_lem,
  register_process_root_lem, acknowledge_attention_lem,
}
use llm_notch.Core.App.Steps.NewSession.{OwnsId, session_start_lem}

pub flush_pending-registry :
    (inner : AppCoreInner) (now : ℤ) → (flush_pending inner now).1.registry ≡ inner.registry
unfolding flush_pending
flush_pending-registry inner now = elim (Bool-cases (is_empty inner.coalescer)) [
  | inl idle ↦ rw (idle, flush_pending) refl
  | inr busy ↦ rw (busy, flush_pending) refl
]

-- A new session does not get the id of another.
abbrev pub Admits : (AgentSource → String → String) → IngestCommand → SessionRegistry → Type 0
Admits session_id_for (IngestCommand.session_start cmd) r = OwnsId session_id_for cmd r
Admits session_id_for _ r = Unit {0}

module _ {R : Type 0} {session_id_for : AgentSource → String → String}
    {start : SessionRegistry} where
  integrate_lem :
      {K : SessionRegistry → Type 0} (c : AdapterCapabilities)
      → Takes session_id_for start {R = R} K (integrate c) (λ _. K)
  unfolding integrate
  integrate_lem c = record { run = λ i s p. succeeds (record { goes = p.goes; holds = p.holds }) }

  pub flush_lem :
      {K : SessionRegistry → Type 0} (now : ℤ)
      → Takes session_id_for start {R = R} K (flush now) (λ _. Anything)
  unfolding flush
  flush_lem now = record {
    run = λ i s p. succeeds (record {
      goes = subst (Reach session_id_for start) (sym (flush_pending-registry i now)) p.goes;
      holds = tt;
    });
  }

module _ {R : Type 0} (repository : SessionRepository R)
    {session_id_for : AgentSource → String → String} {start : SessionRegistry} where
  integration_health_lem :
      {K : SessionRegistry → Type 0} (cmd : IntegrationHealthCommand)
      → Takes session_id_for start K (integration_health repository cmd) (λ _. Anything)
  unfolding integration_health
  integration_health_lem cmd = after (calls_lem _) λ _.
      after (integrate_lem cmd.capabilities) λ _.
        after (queue_lem (StreamPayload.integration_changed cmd.capabilities)) λ _. forget_lem _

module _ {R : Type 0} (repository : SessionRepository R) (event_id : ℕ)
    {session_id_for : AgentSource → String → String} {start : SessionRegistry}
    (h : IsWellFormed start) where
  handle_ingest_lem :
      (command : IngestCommand)
      → Takes session_id_for start
          (Admits session_id_for command)
          (handle_ingest repository session_id_for event_id command)
          (λ _. Anything)
  unfolding handle_ingest
  handle_ingest_lem (IngestCommand.session_start cmd) = session_start_lem repository cmd event_id h
  handle_ingest_lem (IngestCommand.session_update cmd) =
      session_update_lem repository event_id h cmd
  handle_ingest_lem (IngestCommand.session_end cmd) = session_end_lem repository event_id h cmd
  handle_ingest_lem (IngestCommand.lifecycle_event cmd) =
      lifecycle_event_lem repository event_id h cmd
  handle_ingest_lem (IngestCommand.tool_event cmd) = tool_event_lem repository event_id h cmd
  handle_ingest_lem (IngestCommand.attention cmd) = attention_lem repository event_id h cmd
  handle_ingest_lem (IngestCommand.register_process_root cmd) =
      register_process_root_lem repository event_id h cmd
  handle_ingest_lem (IngestCommand.integration_health cmd) = integration_health_lem repository cmd
  handle_ingest_lem (IngestCommand.acknowledge_attention cmd) =
      acknowledge_attention_lem repository cmd

  pub ingest_lem :
      (command : IngestCommand) (now : ℤ)
      → Takes session_id_for start
          (Admits session_id_for command)
          (ingest repository session_id_for event_id command now)
          (λ _. Anything)
  unfolding ingest
  ingest_lem command now =
      after (handle_ingest_lem command) λ result. after (flush_lem now) λ frames. returns_lem _

module _ {R : Type 0} (repository : SessionRepository R) (now : ℤ)
    {session_id_for : AgentSource → String → String} {start : SessionRegistry} where
  settings_lem :
      {K : SessionRegistry → Type 0} (settings : PublicSettings)
      → Takes session_id_for start {R = R} K
          (λ inner store. some (ok tt, record inner { settings = settings }, store))
          (λ _. K)
  settings_lem settings = record {
    run = λ i s p. succeeds (record { goes = p.goes; holds = p.holds });
  }

  pub update_settings_lem :
      (settings : PublicSettings)
      → Takes session_id_for start Anything
          (update_settings repository settings now)
          (λ _. Anything)
  unfolding update_settings
  update_settings_lem settings = after (calls_lem _) λ _.
      after (settings_lem settings)
        λ _. after (queue_lem (StreamPayload.settings_changed settings)) λ _. flush_lem now

  registry_remove_lem :
      {K : SessionRegistry → Type 0} (id : String)
      → Takes session_id_for start {R = R} K
          (on_registry (λ r. Registry.remove_session r id))
          (λ _. Anything)
  unfolding on_registry
  registry_remove_lem id = record {
    run = λ i s p.
        let goes = Reach.next p.goes (Step.removes i.registry id) in
        either_way (Registry.remove_session i.registry id).0 goes
          (λ _. record { goes = goes; holds = tt });
  }

  pub remove_session_lem :
      (id : String)
      → Takes session_id_for start Anything (remove_session repository id now) (λ _. Anything)
  unfolding remove_session
  remove_session_lem id = after (lift_lem _) λ _. after (find_session_lem id _) λ _.
      after (calls_lem _) λ _.
        after (registry_remove_lem id)
          λ _. after (queue_lem (StreamPayload.session_remove id)) λ _. flush_lem now

  publish_lem :
      (id : String)
      → Takes session_id_for start (Has id) (publish repository id now) (λ _. Anything)
  unfolding publish
  publish_lem id =
      after (save_session_lem repository id)
        λ updated. after (queue_lem (StreamPayload.session_upsert updated)) λ _. flush_lem now

  pub clear_process_root_lem :
      (id : String)
      → Takes session_id_for start Anything (clear_process_root repository id now) (λ _. Anything)
  unfolding clear_process_root
  clear_process_root_lem id = after (lift_lem _) λ _. after (find_session_lem id _) λ session.
      option_lem session.process_root (forget_lem []) λ root.
        after (write_session_lem id _ (λ t. record { id = refl; key = refl })) λ _. publish_lem id

  pub set_verified_terminal_lem :
      (id : String) (terminal : VerifiedTerminalContext)
      → Takes session_id_for start Anything
          (set_verified_terminal repository id terminal now)
          (λ _. Anything)
  unfolding set_verified_terminal
  set_verified_terminal_lem id terminal = after (lift_lem _) λ _. after (find_session_lem id _) λ _.
      after (write_session_lem id _ (λ t. record { id = refl; key = refl })) λ _. publish_lem id
