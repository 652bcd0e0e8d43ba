-- ===== src/Core/App/Complete.antt =====
-- crates/notch-core/src/app_core.rs: commands that do all of their work.
use llm_notch.Prelude.{
  ℕ, String, ◌≡◌, refl, ap, ◌∙◌, true, none, some, List, [], ◌∷◌, ◌++◌, last_n, text_key,
}
use llm_notch.Prelude.Int.{ℤ}
use llm_notch.HashMap
use llm_notch.HashMap.Laws.{contains_key_of_get}
use llm_notch.Protocol.{
  AgentSession, SessionEvent, SessionEventKind, EventLevel, StreamPayload, max_events_per_session,
}
use llm_notch.Core.Error.{CoreResult, ok, ◌>>◌}
use llm_notch.Core.Validation.{validate_event_summary}
use llm_notch.Core.Transitions.{validate_transition}
use llm_notch.Core.Registry.{events_for, append_event, update_session}
use llm_notch.Core.Stream.{push}
use llm_notch.Core.Repository.{SessionRepository}
use llm_notch.Core.App.{AppCoreInner, EventParts, event_of, record_event, queue_payload}
use llm_notch.Core.App.Durable.{record_event-refines_log, streamed}
use llm_notch.Core.App.Commands.{SessionEndCommand}
use llm_notch.Core.App.Handler.{append, queue, pure}
use llm_notch.Core.App.Handler.Runs.{
  go, lifts, asks_run, guard_run, expect_run, write_run, save_run,
}
use llm_notch.Core.App.Events.{event_result, report, is_end, end_session, end_summary, session_end}
use llm_notch.Core.App.Partial.{Concerns, require_events_ok, updated, written}
use llm_notch.Core.App.Steps.{appended_event-registry}
use llm_notch.Core.App.Steps.NewSession.{append_event-sessions}

-- An event of a session, and then the session, on their way to the renderer.
pub record Tells (inner : AppCoreInner) (id : String) (log : List SessionEvent)
    (event : SessionEvent) (session : AgentSession) (after : AppCoreInner) : Type 0 where
  pub event_logged :
      events_for after.registry id ≡ last_n max_events_per_session (log ++ event ∷ [])
  pub both_queued :
      after.coalescer
      ≡ push
          (push inner.coalescer (StreamPayload.session_event event))
          (StreamPayload.session_upsert session)

abbrev parts_of : ℕ → SessionEventKind → EventLevel → String → ℤ → EventParts
parts_of event_id kind level summary now = record {
  id = event_id;
  kind = kind;
  level = level;
  summary = summary;
  tool_name = none;
  occurred_at_ms = now;
}

module _ {R : Type 0} (repository : SessionRepository R) (event_id : ℕ) where
  module _ (i : AppCoreInner) (s s' : R) (id : String) (t u : AgentSession)
      (log : List SessionEvent) (kind : SessionEventKind) (level : EventLevel) (summary : String)
      (now : ℤ) (stored : HashMap.get i.registry.sessions id ≡ some t)
      (window : events_for i.registry id ≡ last_n max_events_per_session log)
      (taken : repository.append_event s (event_of i id (parts_of event_id kind level summary now))
        ≡ (ok tt, s')) where
    abbrev event : SessionEvent
    event = event_of i id (parts_of event_id kind level summary now)

    abbrev recorded : CoreResult SessionEvent × AppCoreInner × R
    recorded = record_event repository i s id (parts_of event_id kind level summary now)

    recorded-sessions : recorded.1.registry.sessions ≡ i.registry.sessions
    unfolding record_event
    recorded-sessions =
        ap (λ r. r.sessions)
          (appended_event-registry repository
            (record i { registry = (append_event i.registry event).1 }) s event
            (append_event i.registry event).0)
        ∙ append_event-sessions i.registry event

    appended :
        append repository id (parts_of event_id kind level summary now) i s
        ≡ some (ok event, recorded.1, s')
    unfolding append
    appended =
        let (_, answered, _, left) =
          record_event-refines_log repository i s id (parts_of event_id kind level summary now) log
            (contains_key_of_get i.registry.sessions id t stored) window in
        ap (λ a. some (a, recorded.1, recorded.2)) (answered ∙ ap (λ x. x.0 >> ok event) taken)
        ∙ ap (λ b. some (ok event, recorded.1, b)) (left ∙ ap (λ x. x.1) taken)

    report_run :
        report repository event_id id u kind level summary now i s
        ≡ some (
          ok (event_result id event),
          queue_payload recorded.1 (StreamPayload.session_upsert u),
          s',
        )
    unfolding report
    report_run =
        go (append repository id (parts_of event_id kind level summary now)) _ appended
        ∙ go (queue (StreamPayload.session_upsert u)) _ (unfold queue in refl)
        ∙ unfold pure in refl

    report-Tells :
        Tells i id log event u (queue_payload recorded.1 (StreamPayload.session_upsert u))
    unfolding queue_payload
    report-Tells =
        let (logged, _, queued, _) =
          record_event-refines_log repository i s id (parts_of event_id kind level summary now) log
            (contains_key_of_get i.registry.sessions id t stored) window in
        record {
          event_logged = logged;
          both_queued =
              ap (λ c. push c (StreamPayload.session_upsert u))
                (queued ∙ ap (λ x. streamed i.coalescer event x.0) taken);
        }

module _ {R : Type 0} (repository : SessionRepository R) (event_id : ℕ) (inner : AppCoreInner)
    (store store' store'' : R) (id : String) (session : AgentSession) (log : List SessionEvent)
    (cmd : SessionEndCommand) where
  abbrev closed : AgentSession
  closed = end_session cmd.status cmd.occurred_at_ms session

  abbrev end_state : AppCoreInner
  end_state = written inner id (end_session cmd.status cmd.occurred_at_ms)

  abbrev end_event : SessionEvent
  end_event = event_of end_state id (
      parts_of event_id SessionEventKind.lifecycle EventLevel.info (end_summary cmd.summary)
        cmd.occurred_at_ms)

  -- The end of a known session, allowed and valid, that the repository takes: the session has ended,
  -- its event joins the session's log under the id that the call returns, and the event and then the
  -- session are queued for the stream.
  pub session_end_completes :
      Concerns inner cmd.source cmd.external_session_id id session
      → is_end cmd.status ≡ true
      → validate_transition session.status cmd.status ≡ ok tt
      → validate_event_summary (end_summary cmd.summary) ≡ ok tt
      → repository.upsert_session store closed ≡ (ok tt, store')
      → repository.append_event store' end_event ≡ (ok tt, store'')
      → events_for inner.registry id ≡ last_n max_events_per_session log
      → (after : AppCoreInner) × (session_end repository event_id cmd inner store
          ≡ some (ok (event_result id end_event), after, store''))
        × (HashMap.get after.registry.sessions id ≡ some closed)
        × Tells inner id log end_event closed after
  unfolding session_end
  session_end_completes c ends moves valid saved taken window =
      let there =
        updated inner.registry id (end_session cmd.status cmd.occurred_at_ms) session c.stored in
      let same_window : events_for end_state.registry id ≡ last_n max_events_per_session log =
        unfold events_for update_session in window in
      let told =
        report-Tells repository event_id end_state store' store'' id closed closed log
          SessionEventKind.lifecycle EventLevel.info (end_summary cmd.summary) cmd.occurred_at_ms
          there same_window taken in
      (
        _,
        go _ _ (lifts inner store c.valid)
            ∙ go _ _
                (require_events_ok inner store cmd.source c.capabilities c.registered c.has_events)
            ∙ go _ _ (asks_run inner store _ c.resolved)
            ∙ go _ _ (expect_run inner store id c.stored)
            ∙ go _ _ (guard_run inner store _ ends)
            ∙ go _ _ (lifts inner store moves)
            ∙ go _ _ (write_run inner store id _)
            ∙ go _ _ (save_run end_state store repository id there saved)
            ∙ go _ _ (lifts end_state store' valid)
            ∙ report_run repository event_id end_state store' store'' id closed closed log
                SessionEventKind.lifecycle EventLevel.info (end_summary cmd.summary)
                cmd.occurred_at_ms there same_window taken,
        ap (λ m. HashMap.get m id)
              (recorded-sessions repository event_id end_state store' store'' id closed closed log
                SessionEventKind.lifecycle EventLevel.info (end_summary cmd.summary)
                cmd.occurred_at_ms there same_window taken)
            ∙ there,
        record { event_logged = told.event_logged; both_queued = told.both_queued },
      )
