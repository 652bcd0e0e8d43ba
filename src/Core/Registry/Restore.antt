-- ===== src/Core/Registry/Restore.antt =====
-- crates/notch-core/src/registry.rs: `restore`, from what the repository has kept.
use Prim.Native.String.{compare as compare_text}
use llm_notch.Prelude.{
  ℕ, Bool, true, false, ◌||◌, not, List, [], ◌∷◌, ◌++◌, Ordering, if◌then◌else◌, ltb, leb,
  number_key, text_key, take, retain,
}
use llm_notch.Prelude.Int.{leb_ℤ}
use llm_notch.Prelude.Sorting.{sort_by}
use llm_notch.HashMap
use llm_notch.Protocol.{AgentSession, SessionEvent, AttentionKind, max_sessions}
use llm_notch.Core.Error.{CoreResult, ok, err}
use llm_notch.Core.Transitions.{is_terminal}
use llm_notch.Core.Registry.{SessionRegistry, upsert_session, events_for, trim_events}

abbrev is_none : AttentionKind → Bool
is_none AttentionKind.absent = true
is_none _ = false

-- 0 for a session that is active, or still asks for attention.
unfoldable pub restore_priority : AgentSession → ℕ
unfolding is_terminal
restore_priority session =
    if not (is_terminal session.status) || not (is_none session.attention) then 0 else 1

-- Active sessions first, then the latest.
unfoldable pub restore_before : AgentSession → AgentSession → Bool
unfolding restore_priority
restore_before left right =
    if ltb (restore_priority left) (restore_priority right)
    then true
    else if ltb (restore_priority right) (restore_priority left)
    then false
    else leb_ℤ right.last_event_at_ms left.last_event_at_ms

-- The order of the keys `(session_id, sequence)`.
unfoldable pub event_before : SessionEvent → SessionEvent → Bool
event_before a b = elim (compare_text a.session_id b.session_id) [
  | Ordering.lt ↦ true
  | Ordering.eq ↦ leb a.sequence b.sequence
  | Ordering.gt ↦ false
]

-- The first loop: `?` leaves it at the first session that is refused.
unfoldable pub restore_sessions :
    SessionRegistry → List AgentSession → CoreResult (Unit {0}) × SessionRegistry
restore_sessions r [] = (ok tt, r)
restore_sessions r (s ∷ ss) =
    let (result, r') = upsert_session r s in
    let rest = restore_sessions r' ss in elim result [ ok _ ↦ rest | err e ↦ (err e, r') ]

unfoldable pub restore_event : SessionRegistry → SessionEvent → SessionRegistry
unfolding events_for trim_events
restore_event r event = record r {
  events =
      HashMap.insert r.events event.session_id
        (trim_events (events_for r event.session_id ++ event ∷ []));
}

unfoldable pub restore_events : SessionRegistry → List SessionEvent → SessionRegistry
unfolding restore_event
restore_events r [] = r
restore_events r (e ∷ es) = restore_events (restore_event r e) es

abbrev cleared : SessionRegistry → SessionRegistry
cleared r = record r { sessions = []; external_index = []; events = [] }

unfoldable pub restore :
    SessionRegistry
    → List AgentSession
    → List SessionEvent
    → CoreResult (Unit {0}) × SessionRegistry
restore r sessions events =
    let (result, r') =
      restore_sessions (cleared r) (take max_sessions (sort_by restore_before sessions)) in
    elim result [
      | err e ↦ (err e, r')
      | ok _ ↦ (
        ok tt,
        restore_events r' (
            sort_by event_before
              (retain (λ e. HashMap.contains_key r'.sessions e.session_id) events)),
      )
    ]
