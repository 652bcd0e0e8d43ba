-- ===== src/Examples/Application.antt =====
-- The application core: its frames, and an event that the repository refuses.
use llm_notch.Prelude.{
  ◌*◌, Option, ◌≡◌, refl, true, false, List, [], ◌∷◌, ◌++◌, none, length, last_n, text_key, arith,
}
use llm_notch.Prelude.Int.{ℤ, pos, leb_ℤ}
use llm_notch.HashMap
use llm_notch.Protocol.{
  SessionEvent, SessionEventKind, EventLevel, StreamFrame, StreamPayload, max_events_per_session,
}
use llm_notch.Core.Error.{CoreError, CoreResult, err, ok, ◌>>◌}
use llm_notch.Core.Registry.{events_for, put_session}
use llm_notch.Core.Stream
use llm_notch.Core.Stream.{since, new_buffer}
use llm_notch.Core.Stream.Replay.{CountsFrom}
use llm_notch.Core.Alerts
use llm_notch.Core.Repository.{SessionRepository}
use llm_notch.Core.App.{queue_payload}
use llm_notch.Core.Registry.{update_session}
use llm_notch.Core.Registry.Invariant.{IsWellFormed}
use llm_notch.Core.Registry.Invariant.Reachable.{Reach-IsWellFormed}
use llm_notch.Protocol.{AgentSession}
use llm_notch.Core.App.Staleness.{stale_at}
use llm_notch.Core.Repository.{SessionRepository}
use llm_notch.Core.App.{AppCoreInner, EventParts, event_of, record_event, heartbeat}
use llm_notch.Core.App.Frames.{Sends, payloads_of, Sends-CountsFrom}
use llm_notch.Core.App.Durable.{record_event-refines_log, streamed}
use llm_notch.Examples.Sessions.{with_session, steps_to_session}
use llm_notch.Examples.Data.{a_session}

abbrev pub inner : AppCoreInner
inner = record {
  registry = with_session;
  settings = record {
    overlay_enabled = true;
    autostart_enabled = false;
    reduced_motion = false;
    sampling_interval_ms = 1000;
    selected_display = none;
    show_over_fullscreen = false;
    history_retention_hours = 24;
    alert_sound_enabled = true;
    selected_sound_theme_id = none;
    sound_routing = record {
      enabled = true;
      volume = 80;
      quiet_hours = none;
      event_volume = [];
      agent_volume = [];
    };
  };
  integrations = [];
  stream_sequence = 0;
  coalescer = Stream.new;
  alerts = Alerts.new;
  latest_metrics = none;
}

abbrev beat : StreamFrame
beat = record { sequence = 1; emitted_at_ms = pos 5; payload = StreamPayload.heartbeat }

abbrev after_beat : AppCoreInner
after_beat = (heartbeat inner (pos 5)).1

one_beat : Sends after_beat (StreamPayload.heartbeat ∷ []) (beat ∷ [])
unfolding heartbeat
one_beat = Sends.flushes (pos 5) (Sends.queues StreamPayload.heartbeat (Sends.opened inner refl))

Sends-CountsFrom_example :
    (payloads_of (beat ∷ []) ≡ StreamPayload.heartbeat ∷ [])
    × CountsFrom 1 (beat ∷ [])
    × (after_beat.stream_sequence ≡ 1)
Sends-CountsFrom_example = Sends-CountsFrom one_beat (omega arith)

-- A repository that takes everything and keeps nothing.
abbrev pub willing : {R : Type 0} → SessionRepository R
willing = record {
  upsert_session = λ r s. (ok tt, r);
  remove_session = λ r id. (ok tt, r);
  append_event = λ r e. (ok tt, r);
  save_settings = λ r s. (ok tt, r);
  upsert_integration = λ r c healthy message at. (ok tt, r);
  record_metric_bucket = λ r scope id start sample. (ok tt, r);
  purge_metric_history = λ r. (ok 0, r);
  purge_session_events = λ r. (ok 0, r);
  store_idempotency_key = λ r key at. (ok false, r);
  prune = λ r now retention.
      (ok (record { events_deleted = 0; metric_buckets_deleted = 0; bytes_after = 0 }), r);
}

-- A repository that takes one event.
abbrev one_event : SessionRepository (List SessionEvent)
one_event = record willing { append_event = save }
  where
    save : List SessionEvent → SessionEvent → CoreResult (Unit {0}) × List SessionEvent
    save [] event = (ok tt, event ∷ [])
    save (e ∷ saved) event = (err CoreError.repository_unavailable, e ∷ saved)

abbrev parts : EventParts
parts = record {
  id = 7;
  kind = SessionEventKind.tool;
  level = EventLevel.info;
  summary = "edit";
  tool_name = none;
  occurred_at_ms = pos 3;
}

record_event-refines_log_example :
    (events_for (record_event one_event inner [] "s-a" parts).1.registry "s-a"
      ≡ last_n max_events_per_session ([] ++ event_of inner "s-a" parts ∷ []))
    × ((record_event one_event inner [] "s-a" parts).0 ≡ (ok tt >> ok (event_of inner "s-a" parts)))
    × ((record_event one_event inner [] "s-a" parts).1.coalescer
        ≡ streamed inner.coalescer (event_of inner "s-a" parts) (ok tt))
    × ((record_event one_event inner [] "s-a" parts).2 ≡ event_of inner "s-a" parts ∷ [])
unfolding put_session HashMap.get HashMap.insert HashMap.contains_key events_for last_n
record_event-refines_log_example =
    record_event-refines_log one_event inner [] "s-a" parts [] refl refl

-- A repository that takes every session.
abbrev sessions_store : SessionRepository (List AgentSession)
sessions_store = record willing { upsert_session = λ saved s. (ok tt, s ∷ saved) }

abbrev later : ℤ
later = pos (60 * 60 * 1000)

pub inner-IsWellFormed : IsWellFormed inner.registry
inner-IsWellFormed = Reach-IsWellFormed steps_to_session

abbrev after_mark : AppCoreInner
unfolding put_session HashMap.modify HashMap.insert update_session stale_at queue_payload
after_mark =
    queue_payload (record inner { registry = update_session with_session "s-a" (stale_at later) })
      (StreamPayload.session_upsert (stale_at later (a_session "s-a")))
