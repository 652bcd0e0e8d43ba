-- ===== src/Examples/Serving.antt =====
-- Commands that the core serves, for a Cursor session.
use Prim.Native.String.{◌++◌ as str_append}
use llm_notch.Prelude.{
  String, ◌≡◌, refl, Bool, true, false, List, [], ◌∷◌, none, some, length, last_n, any_of, text_key,
}
use llm_notch.Prelude.Int.{pos}
use llm_notch.Prelude.Sorting.{IsSorted}
use llm_notch.HashMap
use llm_notch.Protocol.{
  AgentSource, AgentSession, SessionEvent, SessionStatus, AttentionCapability, AttributionQuality,
  ContextOpenTier, AdapterCapabilities, StreamFrame, EventLevel, SessionEventKind,
}
use llm_notch.Core.Error.{CoreResult, ok, err, validation, empty_field, invalid_transition}
use llm_notch.Core.Validation.{
  validate_external_session_id, validate_event_summary, validate_session_label, validate_bounded,
}
use llm_notch.Core.Transitions.{validate_transition, is_valid_transition}
use llm_notch.Core.Registry.{
  external_key, put_session, events_for, update_session, resolve_external,
}
use llm_notch.Core.Registry.Invariant.{IsWellFormed}
use llm_notch.Core.Registry.Invariant.Reachable.{Reach}
use llm_notch.Core.App.{AppCoreInner, event_of, resolve_session_id, capabilities_for}
use llm_notch.Core.App.Commands.{
  IngestCommand, IngestResult, SessionUpdateCommand, SessionEndCommand,
}
use llm_notch.Core.App.Events.{session_end, session_update, event_result, end_session, is_end}
use llm_notch.Core.App.Ingest.{ingest}
use llm_notch.Core.Validation.{validate_workspace_label}
use llm_notch.Core.App.Partial.{
  Concerns, written, labelled, placed, session_end_invalid_summary, session_update_invalid_status,
}
use llm_notch.Core.App.Complete.{Tells, session_end_completes}
use llm_notch.Core.App.Steps.Serving.{Admits}
use llm_notch.Core.App.Served.{Serves, Runs, Runs-IsWellFormed, ingest_total}
use llm_notch.Core.App.Records.{heard_later, snapshot_with_sequence}
use llm_notch.Core.App.Records.Snapshot.{snapshot_complete}
use llm_notch.Examples.Data.{a_session}
use llm_notch.Examples.Application.{inner, inner-IsWellFormed, willing}

abbrev cursor : AdapterCapabilities
cursor = record {
  source = AgentSource.cursor;
  events = true;
  attention = AttentionCapability.partial;
  decision_response = false;
  context_open = false;
  process_attribution = AttributionQuality.shared;
  context_open_tier = ContextOpenTier.app_activate;
  observe_lifecycle = true;
  observe_tools = true;
  respond_decisions = false;
  respond_questions = false;
  fail_open_hooks = true;
  requires_external_trust = false;
}

abbrev core : AppCoreInner
core = record inner { integrations = cursor ∷ [] }

core-IsWellFormed : IsWellFormed core.registry
core-IsWellFormed = inner-IsWellFormed

concerns : Concerns core AgentSource.cursor "a" "s-a" (a_session "s-a")
unfolding validate_external_session_id validate_bounded capabilities_for resolve_session_id
    put_session HashMap.get HashMap.insert external_key resolve_external
concerns = record {
  valid = refl;
  capabilities = cursor;
  registered = refl;
  has_events = refl;
  resolved = refl;
  stored = refl;
}

abbrev the_end : String → SessionEndCommand
the_end summary = record {
  source = AgentSource.cursor;
  external_session_id = "a";
  status = SessionStatus.completed;
  occurred_at_ms = pos 9;
  summary = some summary;
}

session_end_invalid_summary_example :
    session_end willing 7 (the_end "") core tt
    ≡ some (
      err (validation (empty_field "summary")),
      written core "s-a" (end_session SessionStatus.completed (pos 9)),
      tt,
    )
unfolding is_end validate_transition is_valid_transition validate_event_summary
session_end_invalid_summary_example =
    session_end_invalid_summary {R = Unit {0}} willing 7 core tt tt "s-a" (a_session "s-a")
      (validation (empty_field "summary")) (the_end "") concerns refl refl refl refl

abbrev new_label : SessionUpdateCommand
new_label = record {
  source = AgentSource.cursor;
  external_session_id = "a";
  status = some SessionStatus.starting;
  label = some "new";
  workspace_label = some "elsewhere";
  occurred_at_ms = pos 9;
}

session_update_invalid_status_example :
    session_update willing 7 new_label core tt
    ≡ some (
      err (invalid_transition SessionStatus.running SessionStatus.starting),
      placed (labelled core "s-a" (some "new")) "s-a" (some "elsewhere"),
      tt,
    )
unfolding validate_transition is_valid_transition validate_session_label validate_workspace_label
session_update_invalid_status_example =
    session_update_invalid_status {R = Unit {0}} willing 7 core tt "s-a" (a_session "s-a")
      (invalid_transition SessionStatus.running SessionStatus.starting) new_label
      SessionStatus.starting concerns refl refl refl refl

abbrev done : AgentSession
done = end_session SessionStatus.completed (pos 9) (a_session "s-a")

abbrev done_event : SessionEvent
done_event = record {
  id = 7;
  session_id = "s-a";
  sequence = 1;
  occurred_at_ms = pos 9;
  kind = SessionEventKind.lifecycle;
  level = EventLevel.info;
  summary = "all done";
  tool_name = none;
}

session_end_completes_example :
    (after : AppCoreInner) × (session_end willing 7 (the_end "all done") core tt
      ≡ some (ok (event_result "s-a" done_event), after, tt))
    × (HashMap.get after.registry.sessions "s-a" ≡ some done)
    × Tells core "s-a" [] done_event done after
unfolding is_end validate_transition is_valid_transition validate_event_summary events_for last_n
    update_session put_session HashMap.get HashMap.insert HashMap.modify event_of
session_end_completes_example =
    session_end_completes {R = Unit {0}} willing 7 core tt tt tt "s-a" (a_session "s-a") []
      (the_end "all done") concerns refl refl refl refl refl refl

snapshot_complete_example :
    IsSorted heard_later (snapshot_with_sequence core (pos 9)).snapshot.sessions
    × (length (snapshot_with_sequence core (pos 9)).snapshot.sessions ≡ 1)
    × ((p : AgentSession → Bool)
        → any_of p (snapshot_with_sequence core (pos 9)).snapshot.sessions
          ≡ any_of p (a_session "s-a" ∷ []))
unfolding put_session HashMap.insert
snapshot_complete_example = snapshot_complete core (pos 9) core-IsWellFormed

-- An id for each external key.
abbrev named : AgentSource → String → String
named source external = str_append "s-" external

abbrev start_b : IngestCommand
start_b = IngestCommand.session_start (record {
  idempotency_key = some "k";
  source = AgentSource.cursor;
  external_session_id = "b";
  label = "work";
  workspace_label = none;
  status = SessionStatus.running;
  occurred_at_ms = pos 8;
})

b_is_new : Admits named start_b core.registry
unfolding put_session HashMap.get HashMap.insert
b_is_new t there = absurd (cc there)

ingest_total_example :
    (x : CoreResult (IngestResult × List StreamFrame) × AppCoreInner × Unit {0}) × (ingest willing
        named 7 start_b
        (pos 9)
        core
        tt
      ≡ some x)
    × Reach named core.registry x.1.registry
ingest_total_example =
    ingest_total willing named 7 start_b (pos 9) core tt core-IsWellFormed b_is_new

begun :
    (x : CoreResult (IngestResult × List StreamFrame) × AppCoreInner × Unit {0}) × (ingest willing
        named 7 start_b
        (pos 9)
        core
        tt
      ≡ some x)
    × Reach named core.registry x.1.registry
begun = ingest_total willing named 7 start_b (pos 9) core tt core-IsWellFormed b_is_new

begun_run : Runs willing named core tt begun.0.1 begun.0.2
begun_run = Runs.calls Runs.rests (Serves.ingests 7 start_b (pos 9) begun.0.0 b_is_new begun.1)

Runs-IsWellFormed_example : IsWellFormed begun.0.1.registry
Runs-IsWellFormed_example = Runs-IsWellFormed begun_run core-IsWellFormed
