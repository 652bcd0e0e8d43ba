-- ===== src/Core/Registry/Bootstrap.antt =====
-- crates/notch-core/src/registry.rs: `bootstrap_events`, the events of a renderer's first snapshot.
pub mod Bounded
pub mod Reserved
use llm_notch.Prelude.{
  ℕ, Bool, true, false, List, [], ◌∷◌, ◌++◌, if◌then◌else◌, leb, ◌==◌, number_key, text_key, length,
  retain, last_n,
}
use llm_notch.Prelude.Int.{leb_ℤ, ltb_ℤ}
use llm_notch.Prelude.Sorting.{sort_by}
use llm_notch.HashMap
use llm_notch.HashMap.{HashSet}
use llm_notch.Protocol.{
  AgentSession, SessionEvent, bootstrap_max_events, bootstrap_events_per_active_session,
}
use llm_notch.Core.Registry.{SessionRegistry, events_for}
use llm_notch.Core.Registry.Restore.{restore_priority}

pub record Selection : Type 0 where
  pub selected : List SessionEvent
  pub selected_ids : HashSet ℕ

-- `if selected_ids.insert(event.id) { selected.push(event) }`
unfoldable pub select : Selection → SessionEvent → Selection
select s event = if HashMap.contains_key s.selected_ids event.id then s else record {
  selected = s.selected ++ event ∷ [];
  selected_ids = HashMap.insert s.selected_ids event.id tt;
}

-- Both inner loops: they stop when the selection is full.
unfoldable pub select_all : Selection → List SessionEvent → Selection
unfolding select
select_all s [] = s
select_all s (e ∷ es) =
    let rest = select_all (select s e) es in
    if leb bootstrap_max_events (length s.selected) then s else rest

abbrev latest_of : SessionRegistry → AgentSession → List SessionEvent
latest_of r session = last_n bootstrap_events_per_active_session (events_for r session.id)

-- The loop over the active sessions, each with its latest events.
unfoldable pub select_active : SessionRegistry → Selection → List AgentSession → Selection
unfolding select_all events_for
select_active r s [] = s
select_active r s (session ∷ sessions) =
    select_active r (select_all s (latest_of r session)) sessions

-- `Reverse(last_event_at_ms)`
unfoldable pub later_first : AgentSession → AgentSession → Bool
later_first a b = leb_ℤ b.last_event_at_ms a.last_event_at_ms

-- The order of the keys `(occurred_at_ms, sequence)`.
unfoldable pub earlier : SessionEvent → SessionEvent → Bool
earlier a b =
    if ltb_ℤ a.occurred_at_ms b.occurred_at_ms
    then true
    else if ltb_ℤ b.occurred_at_ms a.occurred_at_ms
    then false
    else leb a.sequence b.sequence

abbrev latest_first : SessionEvent → SessionEvent → Bool
latest_first a b = earlier b a

abbrev concat : List (List SessionEvent) → List SessionEvent
concat [] = []
concat (es ∷ ess) = es ++ concat ess

unfoldable pub active_sessions : SessionRegistry → List AgentSession
unfolding restore_priority later_first
active_sessions r =
    sort_by later_first (retain (λ s. restore_priority s == 0) (HashMap.values r.sessions))

unfoldable pub bootstrap_events : SessionRegistry → List SessionEvent
unfolding select_active select_all active_sessions earlier
bootstrap_events r =
    let reserved =
      select_active r (record { selected = []; selected_ids = [] }) (active_sessions r) in
    let global = sort_by latest_first (concat (HashMap.values r.events)) in
    sort_by earlier (select_all reserved global).selected
