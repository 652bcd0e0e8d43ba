-- ===== src/Core/Registry/Bootstrap/Reserved.antt =====
-- Each active session has its latest event among the bootstrap events.
use llm_notch.Prelude.{
  ℕ, suc, ◌+◌, ◌≤◌, String, ◌≡◌, ◌∙◌, true, List, [], ◌∷◌, some, arith, ◌==◌, number_key, text_key,
  length, length-append, All, any_of-append, last_n_one, length-last_n-le, length-retain-le,
  length-map, retain, get_last?, All-of-retain,
}
use llm_notch.Prelude.Sorting.{sort_by, length-sort_by, All-of-sort_by, any_of-sort_by}
use llm_notch.HashMap
use llm_notch.HashMap.Laws.{All-get}
use llm_notch.Protocol.{AgentSession, SessionEvent, bootstrap_max_events}
use llm_notch.Core.Registry.{SessionRegistry, events_for}
use llm_notch.Core.Registry.Restore.{restore_priority}
use llm_notch.Core.Registry.Invariant.{IsWellFormed}
use llm_notch.Core.Registry.Bootstrap.{
  Selection, select, select_all, select_active, active_sessions, bootstrap_events, earlier,
  later_first, concat, latest_first, latest_of,
}
use llm_notch.Core.Registry.Bootstrap.Bounded.{
  has_id, IsSelection, select_all-IsSelection, nothing, nothing-IsSelection,
}

-- Selecting keeps what was selected, and adds one entry at most.
select_keeps :
    (s : Selection) (e : SessionEvent) (i : ℕ)
    → has_id i s.selected ≡ true
    → has_id i (select s e).selected ≡ true
unfolding select
select_keeps s e i h = ground (arith, any_of-append (λ f. f.id == i) s.selected e)

select_all_keeps :
    (s : Selection) (es : List SessionEvent) (i : ℕ)
    → has_id i s.selected ≡ true
    → has_id i (select_all s es).selected ≡ true
unfolding select_all
select_all_keeps s [] i h = h
select_all_keeps s (e ∷ es) i h =
    ground (arith, select_all_keeps (select s e) es i, select_keeps s e i h)

length-select :
    (s : Selection) (e : SessionEvent) → length (select s e).selected ≤ suc (length s.selected)
unfolding select
length-select s e = ground (arith, length-append s.selected (e ∷ []))

length-select_all :
    (s : Selection) (es : List SessionEvent)
    → length (select_all s es).selected ≤ length s.selected + length es
unfolding select_all
length-select_all s [] = omega arith
length-select_all s (e ∷ es) = ground (arith, length-select_all (select s e) es, length-select s e)

select_takes :
    (s : Selection) (e : SessionEvent) → IsSelection s → has_id e.id (select s e).selected ≡ true
unfolding select
select_takes s e h = ground (arith, h.agrees e.id, any_of-append (λ f. f.id == e.id) s.selected e)

takes_latest :
    (r : SessionRegistry) (s : Selection) (session : AgentSession) (e : SessionEvent)
    → IsSelection s
    → suc (length s.selected) ≤ bootstrap_max_events
    → get_last? (events_for r session.id) ≡ some e
    → has_id e.id (select_all s (latest_of r session)).selected ≡ true
unfolding select_all
takes_latest r s session e h room last =
    rw (last_n_one (events_for r session.id) e last) (ground (arith, select_takes s e h))

select_active_keeps :
    (r : SessionRegistry) (s : Selection) (sessions : List AgentSession) (i : ℕ)
    → has_id i s.selected ≡ true
    → has_id i (select_active r s sessions).selected ≡ true
unfolding select_active
select_active_keeps r s [] i h = h
select_active_keeps r s (session ∷ sessions) i h =
    select_active_keeps r (select_all s (latest_of r session)) sessions i
      (select_all_keeps s (latest_of r session) i h)

-- The latest event of the session, if it has one, is in the selection.
abbrev IsReserved : SessionRegistry → List SessionEvent → AgentSession → Type 0
IsReserved r es session =
    (e : SessionEvent) → get_last? (events_for r session.id) ≡ some e → has_id e.id es ≡ true

select_active_reserves :
    (r : SessionRegistry) (s : Selection) (sessions : List AgentSession)
    → IsSelection s
    → length s.selected + length sessions ≤ bootstrap_max_events
    → All (IsReserved r (select_active r s sessions).selected) sessions
unfolding select_active
select_active_reserves r s [] h room = tt
select_active_reserves r s (session ∷ sessions) h room =
    let next : Selection = select_all s (latest_of r session) in
    (
      λ e last.
          select_active_keeps r next sessions e.id
            (takes_latest r s session e h (omega arith) last),
      select_active_reserves r next sessions (select_all-IsSelection s (latest_of r session) h) (
          omega (
            arith,
            length-select_all s (latest_of r session),
            length-last_n-le 1 (events_for r session.id),
          )),
    )

active_sessions_room :
    (r : SessionRegistry) → IsWellFormed r → length (active_sessions r) ≤ bootstrap_max_events
unfolding active_sessions
active_sessions_room r h = omega (
  arith,
  h.bounded,
  length-sort_by later_first (retain (λ s. restore_priority s == 0) (HashMap.values r.sessions)),
  length-retain-le (λ s. restore_priority s == 0) (HashMap.values r.sessions),
  length-map (λ (x : String × AgentSession). x.1) r.sessions,
)

-- What holds of the active sessions holds of each stored session that is active.
of_active_sessions {κ} :
    (P : AgentSession → Type κ) (r : SessionRegistry) (k : String) (s : AgentSession)
    → All P (active_sessions r)
    → HashMap.get r.sessions k ≡ some s
    → (restore_priority s == 0) ≡ true
    → P s
unfolding active_sessions
of_active_sessions P r k s a =
    All-get (λ t. (restore_priority t == 0) ≡ true → P t) r.sessions k s
      (All-of-retain P (λ t. restore_priority t == 0) (HashMap.values r.sessions)
        (All-of-sort_by later_first P _ a))

-- In a registry within its limits, an active or unresolved session always has its latest event among
-- the bootstrap events, however many events the others have.
pub bootstrap_events_reserve :
    (r : SessionRegistry) (k : String) (s : AgentSession) (e : SessionEvent)
    → IsWellFormed r
    → HashMap.get r.sessions k ≡ some s
    → restore_priority s ≡ 0
    → get_last? (events_for r k) ≡ some e
    → has_id e.id (bootstrap_events r) ≡ true
unfolding bootstrap_events
bootstrap_events_reserve r k s e h found active last =
    let reserved : Selection = select_active r nothing (active_sessions r) in
    let global : List SessionEvent = sort_by latest_first (concat (HashMap.values r.events)) in
    let all : All (IsReserved r reserved.selected) (active_sessions r) =
      select_active_reserves r nothing (active_sessions r) nothing-IsSelection
        (omega (arith, active_sessions_room r h)) in
    let taken : has_id e.id reserved.selected ≡ true =
      of_active_sessions (IsReserved r reserved.selected) r k s all found (ground arith) e
        (rw (h.own_id k s found) last) in
    any_of-sort_by earlier (λ f. f.id == e.id) (select_all reserved global).selected
    ∙ select_all_keeps reserved global e.id taken
