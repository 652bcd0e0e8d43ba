-- ===== src/Core/Registry.antt =====
-- crates/notch-core/src/registry.rs: `SessionRegistry`. A method returns the registry that it
-- leaves; a fallible one returns it beside the result, since an error may leave a change behind.
pub mod Restore
pub mod Bootstrap
pub mod Invariant
pub mod Lookup
pub mod Log
pub mod Eviction
use Prim.Native.String.{◌++◌ as str_append}
use llm_notch.Prelude.{
  ℕ, ◌+◌, ◌-◌, ◌^◌, ◌%◌, String, Bool, true, false, List, [], ◌∷◌, ◌++◌, Option, none, some,
  if◌then◌else◌, ltb, leb, ◌==◌, number_key, text_key, length, drop, get_last?, retain, map,
}
use llm_notch.Prelude.Int.{ℤ, leb_ℤ, ltb_ℤ}
use llm_notch.HashMap
use llm_notch.HashMap.{HashMap, HashSet}
use llm_notch.Protocol.{
  AgentSource, AgentSession, SessionEvent, max_sessions, max_events_per_session,
}
use llm_notch.Core.Error.{
  CoreResult, IngestFault, ok, err, ◌>>=◌, ◌>>◌, session_not_found, session_capacity,
  ingest_rejected, wrong_sequence, wrong_first_sequence,
}
use llm_notch.Core.Validation.{validate_external_session_id}
use llm_notch.Core.Transitions.{is_terminal}

-- `{source:?}`
unfoldable pub debug_name : AgentSource → String
debug_name AgentSource.cursor = "Cursor"
debug_name AgentSource.claude_code = "ClaudeCode"
debug_name AgentSource.codex = "Codex"
debug_name AgentSource.gemini = "Gemini"
debug_name AgentSource.antigravity_cli = "AntigravityCli"
debug_name AgentSource.copilot_cli = "CopilotCli"
debug_name AgentSource.qwen = "Qwen"
debug_name AgentSource.generic = "Generic"
debug_name AgentSource.unknown = "Unknown"

unfoldable pub external_key : AgentSource → String → String
unfolding debug_name
external_key source external_session_id =
    str_append (debug_name source) (str_append ":" external_session_id)

pub record SessionRegistry : Type 0 where
  pub sessions : HashMap String AgentSession
  pub external_index : HashMap String String
  pub events : HashMap String (List SessionEvent)
  pub idempotency : HashSet String

abbrev pub new : SessionRegistry
new = record { sessions = []; external_index = []; events = []; idempotency = [] }

unfoldable pub resolve_external : SessionRegistry → AgentSource → String → Option AgentSession
resolve_external r source external_session_id =
    elim (HashMap.get r.external_index (external_key source external_session_id)) [
      | none ↦ none
      | some id ↦ HashMap.get r.sessions id
    ]

unfoldable pub events_for : SessionRegistry → String → List SessionEvent
events_for r session_id = elim (HashMap.get r.events session_id) [ none ↦ [] | some es ↦ es ]

unfoldable pub check_idempotency : SessionRegistry → String → Bool
check_idempotency r key = HashMap.contains_key r.idempotency key

unfoldable pub record_idempotency : SessionRegistry → String → SessionRegistry
record_idempotency r key = record r { idempotency = HashMap.insert r.idempotency key tt }

-- A session written into the map and the index.
unfoldable pub put_session : SessionRegistry → AgentSession → SessionRegistry
put_session r session = record r {
  external_index =
      HashMap.insert r.external_index (external_key session.source session.external_session_id)
        session.id;
  sessions = HashMap.insert r.sessions session.id session;
}

unfoldable pub upsert_session :
    SessionRegistry → AgentSession → CoreResult (Unit {0}) × SessionRegistry
unfolding put_session
upsert_session r session = elim (validate_external_session_id session.external_session_id) [
  | ok _ ↦ (ok tt, put_session r session)
  | err e ↦ (err e, r)
]

-- `get_mut`, with what the caller writes through the reference.
unfoldable pub update_session :
    SessionRegistry → String → (AgentSession → AgentSession) → SessionRegistry
update_session r session_id f = record r { sessions = HashMap.modify r.sessions session_id f }

-- The moment at which a terminal session ended, for the choice of the one to evict.
abbrev end_key : AgentSession → ℤ
end_key s = elim s.ended_at_ms [ none ↦ s.last_event_at_ms | some t ↦ t ]

abbrev ends_first : AgentSession → AgentSession → AgentSession
ends_first best s = if ltb_ℤ (end_key s) (end_key best) then s else best

-- `min_by_key` returns the first of the least entries.
unfoldable pub min_by_end : AgentSession → List AgentSession → AgentSession
min_by_end best [] = best
min_by_end best (s ∷ ss) = min_by_end (ends_first best s) ss

unfoldable pub oldest_terminal_session_id : SessionRegistry → Option String
unfolding min_by_end
oldest_terminal_session_id r =
    elim (retain (λ s. is_terminal s.status) (HashMap.values r.sessions)) [
      | [] ↦ none
      | s ∷ ss ↦ some (min_by_end s ss).id
    ]

unfoldable pub capacity_eviction_candidate : SessionRegistry → CoreResult (Option String)
capacity_eviction_candidate r =
    if ltb (HashMap.size r.sessions) max_sessions
    then ok none
    else elim (oldest_terminal_session_id r) [
      | some oldest ↦ ok (some oldest)
      | none ↦ err (session_capacity max_sessions)
    ]

-- The session beside the outcome of its insertion.
abbrev inserted :
    AgentSession
    → CoreResult (Unit {0}) × SessionRegistry
    → CoreResult (AgentSession × Bool) × SessionRegistry
inserted session (ok _, r) = (ok (session, false), r)
inserted session (err e, r) = (err e, r)

-- `none` is the panic of `expect("indexed session")`.
unfoldable pub insert_new_session :
    (AgentSource → String → String)
    → SessionRegistry
    → AgentSource
    → String
    → (String → AgentSession)
    → Option (CoreResult (AgentSession × Bool) × SessionRegistry)
insert_new_session session_id_for r source external_session_id build =
    elim (validate_external_session_id external_session_id) [
      | err e ↦ some (err e, r)
      | ok _ ↦ elim (HashMap.get r.external_index (external_key source external_session_id)) [
        | some existing_id ↦ elim (HashMap.get r.sessions existing_id) [
          | none ↦ none
          | some existing ↦ some (ok (existing, true), r)
        ]
        | none ↦
            if leb max_sessions (HashMap.size r.sessions)
            then some (err (session_capacity max_sessions), r)
            else (let session = build (session_id_for source external_session_id) in
                some (inserted session (upsert_session r session)))
      ]
    ]

-- `n + 1` on a `u64`.
abbrev pub next_u64 : ℕ → ℕ
next_u64 n = (n + 1) % 2 ^ 64

-- What `drain(0..overflow)` leaves of a list that has grown past the limit.
unfoldable pub trim_events : List SessionEvent → List SessionEvent
trim_events es =
    if ltb max_events_per_session (length es)
    then drop (length es - max_events_per_session) es
    else es

abbrev write_events : SessionRegistry → String → List SessionEvent → SessionRegistry
write_events r session_id es = record r { events = HashMap.insert r.events session_id es }

abbrev accept :
    SessionRegistry → List SessionEvent → SessionEvent → CoreResult (Unit {0}) × SessionRegistry
accept r es event = (ok tt, write_events r event.session_id (trim_events (es ++ event ∷ [])))

-- The list of the session exists from here on, also where the event is then rejected.
abbrev reject :
    SessionRegistry
    → List SessionEvent
    → SessionEvent
    → IngestFault
    → CoreResult (Unit {0}) × SessionRegistry
reject r es event fault = (err (ingest_rejected fault), write_events r event.session_id es)

unfoldable pub push_event :
    SessionRegistry → List SessionEvent → SessionEvent → CoreResult (Unit {0}) × SessionRegistry
unfolding trim_events
push_event r es event = elim (get_last? es) [
  | some last ↦
      let expected = next_u64 last.sequence in
      if event.sequence == expected
      then accept r es event
      else reject r es event (wrong_sequence expected event.sequence)
  | none ↦
      if event.sequence == 1
      then accept r es event
      else reject r es event (wrong_first_sequence event.sequence)
]

unfoldable pub append_event :
    SessionRegistry → SessionEvent → CoreResult (Unit {0}) × SessionRegistry
unfolding push_event events_for
append_event r event =
    if HashMap.contains_key r.sessions event.session_id
    then push_event r (events_for r event.session_id) event
    else (err (session_not_found event.session_id), r)

unfoldable pub next_event_sequence : SessionRegistry → String → ℕ
unfolding events_for
next_event_sequence r session_id = elim (get_last? (events_for r session_id)) [
  | none ↦ 1
  | some e ↦ next_u64 e.sequence
]

unfoldable pub remove_session : SessionRegistry → String → CoreResult (Unit {0}) × SessionRegistry
remove_session r session_id = elim (HashMap.get r.sessions session_id) [
  | none ↦ (err (session_not_found session_id), r)
  | some session ↦ (
    ok tt,
    record r {
      sessions = HashMap.remove r.sessions session_id;
      external_index =
          HashMap.remove r.external_index (external_key session.source session.external_session_id);
      events = HashMap.remove r.events session_id;
    },
  )
]

unfoldable pub clear_events : SessionRegistry → SessionRegistry
clear_events r = record r { events = [] }

unfoldable pub clear_latest_metrics : SessionRegistry → SessionRegistry
clear_latest_metrics r = record r {
  sessions = HashMap.map_values (λ s. record s { latest_metric = none }) r.sessions;
}
