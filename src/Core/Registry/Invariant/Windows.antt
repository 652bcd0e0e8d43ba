-- ===== src/Core/Registry/Invariant/Windows.antt =====
-- The list of a session's events under `append_event`.
use llm_notch.Prelude.{
  ℕ, zero, suc, ◌-◌, String, ◌≡◌, refl, true, List, [], ◌∷◌, ◌++◌, none, some, arith, inl, inr,
  Option-cases, Bool-cases, ◌==◌, number_key, text_key, length, drop, get_last?, length-drop, ltb,
}
use llm_notch.HashMap
use llm_notch.Protocol.{SessionEvent, max_events_per_session}
use llm_notch.Core.Registry.{
  SessionRegistry, next_u64, trim_events, events_for, push_event, append_event, write_events,
}
use llm_notch.Core.Registry.Invariant.{IsWellFormed, IsWindow, Consecutive}
use llm_notch.Core.Registry.Invariant.Updates.{write_events-IsWellFormed}

Consecutive-append :
    (es : List SessionEvent) (last e : SessionEvent)
    → Consecutive es
    → get_last? es ≡ some last
    → e.sequence ≡ next_u64 last.sequence
    → Consecutive (es ++ e ∷ [])
Consecutive-append [] last e c l s = tt
Consecutive-append (x ∷ []) last e c l s = ground arith
Consecutive-append (x ∷ y ∷ ys) last e c l s = (c.0, Consecutive-append (y ∷ ys) last e c.1 l s)

Consecutive-tail :
    (x : SessionEvent) (xs : List SessionEvent) → Consecutive (x ∷ xs) → Consecutive xs
Consecutive-tail x [] c = tt
Consecutive-tail x (y ∷ ys) c = c.1

Consecutive-drop : (n : ℕ) (es : List SessionEvent) → Consecutive es → Consecutive (drop n es)
Consecutive-drop zero es c = c
Consecutive-drop (suc n) [] c = tt
Consecutive-drop (suc n) (x ∷ xs) c = Consecutive-drop n xs (Consecutive-tail x xs c)

get_last?-none : (es : List SessionEvent) → get_last? es ≡ none → es ≡ []
get_last?-none [] h = refl
get_last?-none (x ∷ []) h = cc
get_last?-none (x ∷ y ∷ ys) h = absurd (ground (arith, get_last?-none (y ∷ ys) h))

trim_events-IsWindow : (es : List SessionEvent) → Consecutive es → IsWindow (trim_events es)
unfolding trim_events
trim_events-IsWindow es c = elim (Bool-cases (ltb max_events_per_session (length es))) [
  | inl long ↦
      rw (long, trim_events)
        (record {
          consecutive = Consecutive-drop (length es - max_events_per_session) es c;
          bounded = omega (arith, length-drop (length es - max_events_per_session) es);
        })
  | inr short ↦ rw (short, trim_events) (record { consecutive = c; bounded = ground arith })
]

module _ (r : SessionRegistry) (es : List SessionEvent) (e : SessionEvent) (h : IsWellFormed r)
    (there : HashMap.contains_key r.sessions e.session_id ≡ true) (w : IsWindow es) where
  kept : IsWellFormed (write_events r e.session_id es)
  kept = write_events-IsWellFormed r e.session_id es h there w

  grown :
      Consecutive (es ++ e ∷ [])
      → IsWellFormed (write_events r e.session_id (trim_events (es ++ e ∷ [])))
  grown c =
      write_events-IsWellFormed r e.session_id _ h there (trim_events-IsWindow (es ++ e ∷ []) c)

  push_event-IsWellFormed : IsWellFormed (push_event r es e).1
  unfolding push_event
  push_event-IsWellFormed = elim (Option-cases (get_last? es)) [
    | inl first ↦ elim (Bool-cases (e.sequence == 1)) [
      | inl good ↦ rw (first, push_event) (rw good (grown (rw (get_last?-none es first) tt)))
      | inr bad ↦ rw (first, push_event) (rw bad kept)
    ]
    | inr (last, later) ↦ elim (Bool-cases (e.sequence == next_u64 last.sequence)) [
      | inl good ↦
          rw (later, push_event)
            (rw good (grown (Consecutive-append es last e w.consecutive later (ground arith))))
      | inr bad ↦ rw (later, push_event) (rw bad kept)
    ]
  ]

events_for-IsWindow :
    (r : SessionRegistry) (k : String) → IsWellFormed r → IsWindow (events_for r k)
unfolding events_for
events_for-IsWindow r k h = elim (Option-cases (HashMap.get r.events k)) [
  | inl e ↦ rw (e, events_for) (record { consecutive = tt; bounded = omega arith })
  | inr (es, e) ↦ rw (e, events_for) (h.windows k es e)
]

-- Whether the event is taken or refused.
pub append_event-IsWellFormed :
    (r : SessionRegistry) (e : SessionEvent) → IsWellFormed r → IsWellFormed (append_event r e).1
unfolding append_event
append_event-IsWellFormed r e h = elim (Bool-cases (HashMap.contains_key r.sessions e.session_id)) [
  | inl there ↦
      rw (there, append_event)
        (push_event-IsWellFormed r _ e h there (events_for-IsWindow r e.session_id h))
  | inr away ↦ rw (away, append_event) h
]
