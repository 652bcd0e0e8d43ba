-- ===== src/Core/Registry/Log.antt =====
-- The events of a session as a window on an unbounded log.
use llm_notch.Prelude.{
  ◌-◌, String, ◌≡◌, ◌↔◌, sym, ap, ◌∙◌, true, List, [], ◌∷◌, ◌++◌, arith, inl, inr, Bool-cases,
  if◌then◌else◌, ◌==◌, number_key, text_key, eq_iff, length, drop, ltb, last_n, last_n-append,
  last_n-last_n-append, get_last?-append,
}
use llm_notch.HashMap
use llm_notch.HashMap.Laws.{get-insert, beq_refl}
use llm_notch.Protocol.{SessionEvent, max_events_per_session}
use llm_notch.Core.Error.{CoreResult, ok, err}
use llm_notch.Core.Registry.{
  SessionRegistry, next_u64, trim_events, events_for, next_event_sequence, push_event, append_event,
}

trim_events-eq-last_n : (es : List SessionEvent) → trim_events es ≡ last_n max_events_per_session es
unfolding trim_events last_n
trim_events-eq-last_n es = elim (Bool-cases (ltb max_events_per_session (length es))) [
  | inl long ↦ rw long
  | inr short ↦
      let e : length es - max_events_per_session ≡ 0 = ground arith in
      rw short (sym (ap (λ n. drop n es) e))
]

module _ (r : SessionRegistry) (e : SessionEvent) where
  abbrev before : List SessionEvent
  before = events_for r e.session_id

  abbrev after : CoreResult (Unit {0}) × SessionRegistry
  after = append_event r e

  -- An event is taken exactly when its session is known and it has the next sequence.
  pub append_event_iff : (after.0 ≡ ok tt) ↔ (
      (HashMap.contains_key r.sessions e.session_id ≡ true)
      × (e.sequence ≡ next_event_sequence r e.session_id))
  unfolding append_event push_event next_event_sequence
  append_event_iff = ground arith

  -- The list of every session after the call: the window of the event's own session moves on by an
  -- accepted event, and nothing else changes.
  pub events_for-append_event :
      (k : String)
      → events_for after.1 k ≡ (
          if e.session_id == k
          then elim after.0 [
            | ok _ ↦ last_n max_events_per_session (before ++ e ∷ [])
            | err _ ↦ before
          ]
          else events_for r k)
  unfolding append_event push_event
  events_for-append_event k = ground (
    arith,
    get-insert r.events e.session_id (trim_events (before ++ e ∷ [])) k,
    get-insert r.events e.session_id before k,
    trim_events-eq-last_n (before ++ e ∷ []),
    eq_iff e.session_id k,
  )

-- The window refines an unbounded log of the session: if it shows the last 10000 events of a log, it
-- shows the last 10000 of the longer log after an accepted event.
pub append_event-refines_log :
    (r : SessionRegistry) (e : SessionEvent) (log : List SessionEvent)
    → events_for r e.session_id ≡ last_n max_events_per_session log
    → (append_event r e).0 ≡ ok tt
    → (events_for (append_event r e).1 e.session_id ≡ last_n max_events_per_session (log ++ e ∷ []))
      × (next_event_sequence (append_event r e).1 e.session_id ≡ next_u64 e.sequence)
unfolding next_event_sequence
append_event-refines_log r e log w accepted =
    let moved : events_for (append_event r e).1 e.session_id
        ≡ last_n max_events_per_session (log ++ e ∷ []) =
      events_for-append_event r e e.session_id
      ∙ rw (beq_refl e.session_id, accepted, w)
          (last_n-last_n-append max_events_per_session log e) in
    (
      moved,
      rw (moved, next_event_sequence, last_n-append 9999 log e)
          (rw (get_last?-append (last_n 9999 log) e)),
    )
