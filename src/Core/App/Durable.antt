-- ===== src/Core/App/Durable.antt =====
-- crates/notch-core/src/app_core.rs: an event in memory, in the repository and on the stream.
use llm_notch.Prelude.{String, ◌≡◌, refl, ap, ◌∙◌, true, List, [], ◌∷◌, ◌++◌, last_n, text_key}
use llm_notch.HashMap
use llm_notch.Protocol.{SessionEvent, StreamPayload, max_events_per_session}
use llm_notch.Core.Error.{CoreResult, ok, err, ◌>>◌}
use llm_notch.Core.Registry.{events_for, append_event}
use llm_notch.Core.Registry.Log.{append_event_iff, append_event-refines_log}
use llm_notch.Core.Repository.{SessionRepository}
use llm_notch.Core.Stream.{StreamCoalescer, push}
use llm_notch.Core.App.{
  AppCoreInner, EventParts, event_of, record_event, appended_event, saved_event, queue_payload,
}

-- What waits for the stream once the repository has answered.
abbrev pub streamed : StreamCoalescer → SessionEvent → CoreResult (Unit {0}) → StreamCoalescer
unfolding push
streamed c event (err _) = c
streamed c event (ok _) = push c (StreamPayload.session_event event)

module _ {R : Type 0} (repository : SessionRepository R) where
  saved_event_lem :
      (inner : AppCoreInner) (event : SessionEvent) (answer : CoreResult (Unit {0}) × R)
      → ((saved_event repository inner event answer).0 ≡ (answer.0 >> ok event))
        × ((saved_event repository inner event answer).1.registry ≡ inner.registry)
        × ((saved_event repository inner event answer).1.coalescer
            ≡ streamed inner.coalescer event answer.0)
        × ((saved_event repository inner event answer).2 ≡ answer.1)
  unfolding saved_event queue_payload
  saved_event_lem inner event (ok _, store) = (refl, refl, refl, refl)
  saved_event_lem inner event (err e, store) = (refl, refl, refl, refl)

  -- For a known session whose window shows the last 10000 events of a log, the next event joins the
  -- log and the window whether the repository saves it or refuses it. The call answers as the
  -- repository does, and the event is queued for the stream only if it was saved.
  pub record_event-refines_log :
      (inner : AppCoreInner) (store : R) (session_id : String) (parts : EventParts)
      (log : List SessionEvent)
      → HashMap.contains_key inner.registry.sessions session_id ≡ true
      → events_for inner.registry session_id ≡ last_n max_events_per_session log
      → (events_for (record_event repository inner store session_id parts).1.registry session_id
          ≡ last_n max_events_per_session (log ++ event_of inner session_id parts ∷ []))
        × ((record_event repository inner store session_id parts).0 ≡ (
            (repository.append_event store (event_of inner session_id parts)).0
            >> ok (event_of inner session_id parts)))
        × ((record_event repository inner store session_id parts).1.coalescer
            ≡ streamed inner.coalescer
                (event_of inner session_id parts)
                (repository.append_event store (event_of inner session_id parts)).0)
        × ((record_event repository inner store session_id parts).2
            ≡ (repository.append_event store (event_of inner session_id parts)).1)
  unfolding record_event event_of appended_event
  record_event-refines_log inner store session_id parts log known window =
      let event = event_of inner session_id parts in
      let taken : (append_event inner.registry event).0 ≡ ok tt =
        (append_event_iff inner.registry event).1 (known, refl) in
      let next = record inner { registry = (append_event inner.registry event).1 } in
      let same : record_event repository inner store session_id parts
          ≡ saved_event repository next event (repository.append_event store event) =
        ap (appended_event repository next store event) taken in
      let moved = append_event-refines_log inner.registry event log window taken in
      let answered = saved_event_lem next event (repository.append_event store event) in
      (
        ap (λ x. events_for x.1.registry session_id) same
            ∙ ap (λ r. events_for r session_id) answered.1
            ∙ moved.0,
        ap (λ x. x.0) same ∙ answered.0,
        ap (λ x. x.1.coalescer) same ∙ answered.2,
        ap (λ x. x.2) same ∙ answered.3,
      )
