-- ===== src/Examples/Sessions.antt =====
-- A registry with one session and one event.
use llm_notch.Prelude.{
  ◌≤◌, ◌≡◌, refl, true, false, [], ◌∷◌, some, ◌⊎◌, length, text_key, last_n, ◌++◌,
}
use llm_notch.HashMap
use llm_notch.Protocol.{AgentSource, SessionStatus}
use llm_notch.Core.Error.{ok}
use llm_notch.Core.Validation.{validate_external_session_id, validate_bounded}
use llm_notch.Core.Registry.{
  SessionRegistry, new, external_key, insert_new_session, append_event, upsert_session, put_session,
  push_event, trim_events, events_for, capacity_eviction_candidate, next_event_sequence,
}
use llm_notch.Core.Registry.Invariant.Reachable.{Step, Reach, Reach-IsWellFormed}
use llm_notch.Core.Registry.Log.{append_event-refines_log}
use llm_notch.Core.Registry.Restore.{restore_priority}
use llm_notch.Core.Registry.Bootstrap.{bootstrap_events, earlier}
use llm_notch.Core.Registry.Bootstrap.Bounded.{bootstrap_events_lem, DifferentIds, has_id}
use llm_notch.Core.Registry.Bootstrap.Reserved.{bootstrap_events_reserve}
use llm_notch.Core.Registry.Eviction.{capacity_eviction_candidate_lem, Justifies}
use llm_notch.Core.Transitions.{is_terminal, validate_transition}
use llm_notch.Core.Transitions.Paths.{History, History-after_end}
use llm_notch.Prelude.{Pairwise}
use llm_notch.Prelude.Sorting.{IsSorted}
use llm_notch.Protocol.{bootstrap_max_events, max_events_per_session}
use llm_notch.Examples.Data.{a_session, an_event, id_for}

abbrev pub with_session : SessionRegistry
with_session = put_session new (a_session "s-a")

inserted_first :
    insert_new_session id_for new AgentSource.cursor "a" a_session
    ≡ some (ok (a_session "s-a", false), with_session)
unfolding insert_new_session upsert_session put_session validate_external_session_id
    validate_bounded HashMap.get HashMap.insert external_key
inserted_first = refl

abbrev with_event : SessionRegistry
unfolding append_event push_event trim_events HashMap.get HashMap.insert HashMap.contains_key
with_event = (append_event with_session (an_event 1)).1

pub steps_to_session : Reach id_for new with_session
unfolding HashMap.get
steps_to_session = Reach.next Reach.here (
    Step.inserts new AgentSource.cursor "a" a_session (ok (a_session "s-a", false)) with_session
      (λ id. (refl, refl)) (λ e. refl) inserted_first)

steps_to_event : Reach id_for new with_event
unfolding with_event
steps_to_event = Reach.next steps_to_session (Step.appends with_session (an_event 1))

append_event-refines_log_example :
    (events_for with_event "s-a" ≡ last_n max_events_per_session ([] ++ an_event 1 ∷ []))
    × (next_event_sequence with_event "s-a" ≡ 2)
unfolding put_session with_event events_for HashMap.get last_n append_event push_event
    HashMap.contains_key next_event_sequence
append_event-refines_log_example = append_event-refines_log with_session (an_event 1) [] refl refl

bootstrap_events_lem_example :
    (length (bootstrap_events with_event) ≤ bootstrap_max_events)
    × IsSorted earlier (bootstrap_events with_event)
    × Pairwise DifferentIds (bootstrap_events with_event)
bootstrap_events_lem_example = bootstrap_events_lem with_event

bootstrap_events_reserve_example : has_id 1 (bootstrap_events with_event) ≡ true
unfolding put_session with_event HashMap.get events_for restore_priority append_event push_event
    HashMap.contains_key
bootstrap_events_reserve_example =
    bootstrap_events_reserve with_event "s-a" (a_session "s-a") (an_event 1)
      (Reach-IsWellFormed steps_to_event) refl refl refl

capacity_eviction_candidate_lem_example :
    Justifies with_event
      (Reach-IsWellFormed steps_to_event)
      (capacity_eviction_candidate with_event)
capacity_eviction_candidate_lem_example =
    capacity_eviction_candidate_lem with_event (Reach-IsWellFormed steps_to_event)

History-after_end_example :
    (SessionStatus.stale ≡ SessionStatus.completed) ⊎ (SessionStatus.stale ≡ SessionStatus.stale)
unfolding is_terminal validate_transition
History-after_end_example =
    History-after_end {s = SessionStatus.completed} {t = SessionStatus.stale} refl
      (History.next History.here refl)
