-- ===== src/Core/App/Steps/KnownSession.antt =====
-- The handlers of commands about a known session, by the registry's steps: none of them panics.
use llm_notch.Prelude.{ℕ, String, refl, inl, inr, Option-cases, text_key}
use llm_notch.Prelude.Int.{ℤ}
use llm_notch.HashMap
use llm_notch.Protocol.{
  AgentSource, AgentSession, SessionStatus, AttentionKind, SessionEventKind, EventLevel,
  StreamPayload,
}
use llm_notch.Core.Registry.{SessionRegistry}
use llm_notch.Core.Registry.Invariant.{IsWellFormed}
use llm_notch.Core.Repository.{SessionRepository}
use llm_notch.Core.App.Commands.{
  SessionUpdateCommand, SessionEndCommand, LifecycleEventCommand, ToolEventCommand,
  AttentionCommand, ProcessRootCommand, AcknowledgeAttentionCommand,
}
use llm_notch.Core.App.Handler.Outcome.{after}
use llm_notch.Core.App.Handler.Outcome.Ends.{succeeds}
use llm_notch.Core.App.Events.{
  require_events, require_attention, require_attribution, update_label, update_workspace,
  update_status, evaluate, clear_alerts, report, touch, session_update, session_end,
  lifecycle_event, tool_event, attention, register_process_root, acknowledge_attention,
}
use llm_notch.Core.App.Steps.{
  Takes, Has, Anything, lift_lem, asks_lem, calls_lem, guard_lem, given_lem, returns_lem,
  forget_lem, queue_lem, find_session_lem, write_session_lem, expect_session_lem, save_session_lem,
  append_lem, resolve_lem,
}

module _ {R : Type 0} {session_id_for : AgentSource → String → String}
    {start : SessionRegistry} where
  pub require_events_lem :
      {K : SessionRegistry → Type 0} (source : AgentSource)
      → Takes session_id_for start {R = R} K (require_events source) (λ _. K)
  unfolding require_events
  require_events_lem source = after (asks_lem _) λ c. guard_lem _ _

  require_attention_lem :
      {K : SessionRegistry → Type 0} (source : AgentSource) (a : AttentionKind)
      → Takes session_id_for start {R = R} K (require_attention source a) (λ _. K)
  unfolding require_attention
  require_attention_lem source a = after (asks_lem _) λ c. lift_lem _

  require_attribution_lem :
      {K : SessionRegistry → Type 0} (source : AgentSource)
      → Takes session_id_for start {R = R} K (require_attribution source) (λ _. K)
  unfolding require_attribution
  require_attribution_lem source = after (asks_lem _) λ c. guard_lem _ _

  update_label_lem :
      (id label : String)
      → Takes session_id_for start {R = R} (Has id) (update_label id label) (λ _. Has id)
  unfolding update_label
  update_label_lem id label =
      after (lift_lem _) λ _. write_session_lem id _ (λ t. record { id = refl; key = refl })

  update_workspace_lem :
      (id workspace : String)
      → Takes session_id_for start {R = R} (Has id) (update_workspace id workspace) (λ _. Has id)
  unfolding update_workspace
  update_workspace_lem id workspace =
      after (lift_lem _) λ _. write_session_lem id _ (λ t. record { id = refl; key = refl })

  update_status_lem :
      (id : String) (status : SessionStatus)
      → Takes session_id_for start {R = R} (Has id) (update_status id status) (λ _. Has id)
  unfolding update_status
  update_status_lem id status =
      after (expect_session_lem id)
        λ t. after (lift_lem _) λ _. write_session_lem id _ (λ t. record { id = refl; key = refl })

  evaluate_lem :
      {K : SessionRegistry → Type 0} (id : String) (a : AttentionKind) (now : ℤ)
      → Takes session_id_for start {R = R} K (evaluate id a now) (λ _. K)
  unfolding evaluate
  evaluate_lem id a now = record {
    run = λ i s p. succeeds (record { goes = p.goes; holds = p.holds });
  }

  clear_alerts_lem :
      {K : SessionRegistry → Type 0} (id : String)
      → Takes session_id_for start {R = R} K (clear_alerts id) (λ _. K)
  unfolding clear_alerts
  clear_alerts_lem id = record {
    run = λ i s p. succeeds (record { goes = p.goes; holds = p.holds });
  }

module _ {R : Type 0} (repository : SessionRepository R)
    {session_id_for : AgentSource → String → String} {start : SessionRegistry} where
  touch_lem :
      (id : String) (now : ℤ)
      → Takes session_id_for start (Has id) (touch repository id now) (λ _. Has id)
  unfolding touch
  touch_lem id now = record {
    run = λ i s p. elim (Option-cases (HashMap.get i.registry.sessions id)) [
      | inl absent ↦ rw (absent, touch) (succeeds p)
      | inr (t, there) ↦
          rw (there, touch)
            ((after (write_session_lem id _ (λ t. record { id = refl; key = refl }))
                λ _. calls_lem _).run
              i s p)
    ];
  }

module _ {R : Type 0} (repository : SessionRepository R) (event_id : ℕ)
    {session_id_for : AgentSource → String → String} {start : SessionRegistry} where
  report_lem :
      {K : SessionRegistry → Type 0} (id : String) (updated : AgentSession)
      (kind : SessionEventKind) (level : EventLevel) (summary : String) (now : ℤ)
      → Takes session_id_for start K
          (report repository event_id id updated kind level summary now)
          (λ _. Anything)
  unfolding report
  report_lem id updated kind level summary now =
      after (append_lem repository id _)
        λ event. after (queue_lem (StreamPayload.session_upsert updated)) λ _. returns_lem _

  module _ (h : IsWellFormed start) where
    pub session_update_lem :
        (cmd : SessionUpdateCommand)
        → Takes session_id_for start Anything
            (session_update repository event_id cmd)
            (λ _. Anything)
    unfolding session_update
    session_update_lem cmd = after (lift_lem _) λ _. after (require_events_lem cmd.source) λ _.
        after (resolve_lem h cmd.source cmd.external_session_id) λ id.
          after (expect_session_lem id) λ _.
            after (given_lem cmd.label _ (update_label_lem id)) λ _.
              after (given_lem cmd.workspace_label _ (update_workspace_lem id)) λ _.
                after (given_lem cmd.status _ (update_status_lem id)) λ _.
                  after (write_session_lem id _ (λ t. record { id = refl; key = refl }))
                    λ _. after (save_session_lem repository id) λ updated. report_lem id _ _ _ _ _

    pub session_end_lem :
        (cmd : SessionEndCommand)
        → Takes session_id_for start Anything (session_end repository event_id cmd) (λ _. Anything)
    unfolding session_end
    session_end_lem cmd = after (lift_lem _) λ _. after (require_events_lem cmd.source) λ _.
        after (resolve_lem h cmd.source cmd.external_session_id) λ id.
          after (expect_session_lem id) λ _. after (guard_lem _ _) λ _. after (lift_lem _) λ _.
            after (write_session_lem id _ (λ t. record { id = refl; key = refl })) λ _.
              after (save_session_lem repository id)
                λ updated. after (lift_lem _) λ _. report_lem id _ _ _ _ _

    pub lifecycle_event_lem :
        (cmd : LifecycleEventCommand)
        → Takes session_id_for start Anything
            (lifecycle_event repository event_id cmd)
            (λ _. Anything)
    unfolding lifecycle_event
    lifecycle_event_lem cmd = after (lift_lem _) λ _. after (lift_lem _) λ _.
        after (require_events_lem cmd.source) λ _.
          after (resolve_lem h cmd.source cmd.external_session_id) λ id.
            after (touch_lem repository id _)
              λ _. after (append_lem repository id _) λ event. returns_lem _

    pub tool_event_lem :
        (cmd : ToolEventCommand)
        → Takes session_id_for start Anything (tool_event repository event_id cmd) (λ _. Anything)
    unfolding tool_event
    tool_event_lem cmd = after (lift_lem _) λ _. after (lift_lem _) λ _.
        after (given_lem cmd.tool_name _ (λ tool. lift_lem _)) λ _.
          after (require_events_lem cmd.source) λ _.
            after (resolve_lem h cmd.source cmd.external_session_id) λ id.
              after (touch_lem repository id _)
                λ _. after (append_lem repository id _) λ event. returns_lem _

    pub attention_lem :
        (cmd : AttentionCommand)
        → Takes session_id_for start Anything (attention repository event_id cmd) (λ _. Anything)
    unfolding attention
    attention_lem cmd = after (lift_lem _) λ _. after (lift_lem _) λ _.
        after (require_attention_lem cmd.source cmd.attention) λ _.
          after (resolve_lem h cmd.source cmd.external_session_id) λ id.
            after (expect_session_lem id) λ _.
              after (write_session_lem id _ (λ t. record { id = refl; key = refl })) λ _.
                after (save_session_lem repository id)
                  λ updated. after (evaluate_lem id _ _) λ _. report_lem id _ _ _ _ _

    pub register_process_root_lem :
        (cmd : ProcessRootCommand)
        → Takes session_id_for start Anything
            (register_process_root repository event_id cmd)
            (λ _. Anything)
    unfolding register_process_root
    register_process_root_lem cmd = after (lift_lem _) λ _.
        after (require_attribution_lem cmd.source) λ _.
          after (resolve_lem h cmd.source cmd.external_session_id) λ id.
            after (expect_session_lem id) λ _.
              after (write_session_lem id _ (λ t. record { id = refl; key = refl }))
                λ _. after (save_session_lem repository id) λ updated. report_lem id _ _ _ _ _

module _ {R : Type 0} (repository : SessionRepository R)
    {session_id_for : AgentSource → String → String} {start : SessionRegistry} where
  pub acknowledge_attention_lem :
      (cmd : AcknowledgeAttentionCommand)
      → Takes session_id_for start Anything (acknowledge_attention repository cmd) (λ _. Anything)
  unfolding acknowledge_attention
  acknowledge_attention_lem cmd = after (lift_lem _) λ _.
      after (find_session_lem cmd.session_id _) λ _.
        after (write_session_lem cmd.session_id _ (λ t. record { id = refl; key = refl })) λ _.
          after (save_session_lem repository cmd.session_id) λ updated.
            after (clear_alerts_lem cmd.session_id)
              λ _. after (queue_lem (StreamPayload.session_upsert updated)) λ _. forget_lem _
