-- ===== src/Examples/Streams.antt =====
-- Frames, payloads and alerts.
use llm_notch.Prelude.{
  ◌≤◌, String, ◌≡◌, refl, true, List, [], ◌∷◌, none, arith, length, text_key, drop, max, ◌-◌, ◌++◌,
  retain, any_of,
}
use llm_notch.Prelude.Int.{pos, saturating_sub, ◌-ℤ◌}
use llm_notch.HashMap
use llm_notch.Protocol.{quarter_as_u64, ge, StreamPayload, StreamFrame, stream_replay_capacity}
use llm_notch.Core.Stream.{StreamCoalescer, push, drain, new_buffer, since, is_empty}
use llm_notch.Core.Stream
use llm_notch.Core.Stream.Replay.{since-push_all}
use llm_notch.Core.Stream.Replay
use llm_notch.Core.Stream.Coalesce
use llm_notch.Core.Stream.Coalesce.{drain-push_all, drain_reorders, is_upsert_of}
use llm_notch.Core.Alerts
use llm_notch.Core.Alerts.{
  AlertKind, AlertEvaluator, evaluate_attention, attention_alert, resource_alerts_from_active,
}
use llm_notch.Protocol.{ResourceAlertKind}
use llm_notch.Core.Alerts.Tracker.{Observation, observe-lasted, track, lasted}
use llm_notch.Core.Alerts.{observe, evaluate_host_metrics}
use llm_notch.Core.Alerts.Active.{count_kind}
use llm_notch.Core.Alerts.Lasting.{
  count_resource, resource_alerts_bound, host_alerts_stay, Step, Reach,
}
use llm_notch.Examples.Data.{a_session, a_frame, a_host, a_sample}

abbrev two_frames : List StreamFrame
two_frames = a_frame 1 ∷ a_frame 2 ∷ []

since-push_all_example :
    since (Replay.push_all new_buffer two_frames) 1
    ≡ drop (max 1 (length two_frames - stream_replay_capacity)) two_frames
since-push_all_example = since-push_all two_frames 1 (refl, (refl, tt))

drain_reorders_example :
    (before : List StreamPayload) × (after : List StreamPayload) × ((drain (
        push
          (push Stream.new (StreamPayload.session_upsert (a_session "s-a")))
          (StreamPayload.session_remove "s-a"))).0
      ≡ before ++ StreamPayload.session_remove "s-a" ∷ after)
    × (any_of (is_upsert_of "s-a") after ≡ true)
drain_reorders_example = drain_reorders Stream.new (a_session "s-a")

abbrev payloads : List StreamPayload
payloads =
    StreamPayload.session_upsert (a_session "s-a")
    ∷ StreamPayload.heartbeat
    ∷ StreamPayload.session_upsert (a_session "s-a")
    ∷ []

drain-push_all_example :
    ((drain (Coalesce.push_all Stream.new payloads)).0
      ≡ retain Coalesce.is_other payloads
        ++ (HashMap.values (Coalesce.push_all Stream.new payloads).pending_session_upserts
            ++ Stream.metrics_last (Coalesce.latest_metrics none payloads)))
    × ((k : String)
        → HashMap.get (Coalesce.push_all Stream.new payloads).pending_session_upserts k
          ≡ Coalesce.latest_upsert k none payloads)
    × HashMap.Distinct (Coalesce.push_all Stream.new payloads).pending_session_upserts
    × (is_empty (drain (Coalesce.push_all Stream.new payloads)).1 ≡ true)
drain-push_all_example = drain-push_all payloads

-- The newest observation first.
abbrev history : List Observation
history =
    record { now_ms = pos 31000; above = true } ∷ record { now_ms = pos 1000; above = true } ∷ []

observe-lasted_example :
    (observe (track 30000 history) (pos 31500) true 30000).0
    ≡ lasted 30000 (pos 31500) (record { now_ms = pos 31500; above = true } ∷ history)
observe-lasted_example =
    observe-lasted 30000 (record { now_ms = pos 31500; above = true }) history (omega arith)
      (omega arith, (omega arith, tt))

-- Memory above the threshold for a minute, and well below it a minute later.
abbrev raised : AlertEvaluator
unfolding evaluate_host_metrics
raised =
    (evaluate_host_metrics (evaluate_host_metrics Alerts.new (a_host 0) (a_sample 0) (pos 0)).1
      (a_host 60000) (a_sample 60000) (pos 60000)).1

abbrev cooled : AlertEvaluator
unfolding evaluate_host_metrics raised
cooled =
    (evaluate_host_metrics raised (a_host 120000) (record (a_sample 120000) { rss_bytes = 0 })
      (pos 120000)).1

steps_to_raised : Reach Alerts.new raised
unfolding raised
steps_to_raised =
    Reach.next (Reach.next Reach.here (Step.measures (a_host 0) (a_sample 0) (pos 0)))
      (Step.measures (a_host 60000) (a_sample 60000) (pos 60000))

steps_to_cooled : Reach raised cooled
unfolding cooled raised
steps_to_cooled =
    Reach.next Reach.here
      (Step.measures (a_host 120000) (record (a_sample 120000) { rss_bytes = 0 }) (pos 120000))

resource_alerts_bound_example :
    ((k : ResourceAlertKind) → count_resource k (resource_alerts_from_active raised.active) ≤ 1)
    × (length (resource_alerts_from_active raised.active) ≤ 3)
resource_alerts_bound_example = resource_alerts_bound steps_to_raised

memory_is_raised : count_kind AlertKind.memory_high raised.active ≡ 1
unfolding raised evaluate_host_metrics count_kind quarter_as_u64 ge saturating_sub ◌-ℤ◌
memory_is_raised = refl

host_alerts_stay_example : count_kind AlertKind.memory_high cooled.active ≡ 1
host_alerts_stay_example =
    host_alerts_stay AlertKind.memory_high steps_to_raised steps_to_cooled refl memory_is_raised
