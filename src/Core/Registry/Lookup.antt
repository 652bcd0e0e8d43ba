-- ===== src/Core/Registry/Lookup.antt =====
-- Which session an external key leads to, after an insertion and after a removal.
use llm_notch.Prelude.{
  String, ◌≡◌, refl, Bool, true, none, some, arith, eq_iff, text_key, inl, inr, Option-cases,
  if◌then◌else◌, ◌==◌, [],
}
use llm_notch.HashMap
use llm_notch.HashMap.Laws.{get-insert, get-remove, beq_refl}
use llm_notch.Protocol.{AgentSource, AgentSession}
use llm_notch.Core.Error.{ok}
use llm_notch.Core.Registry.{
  SessionRegistry, external_key, put_session, upsert_session, insert_new_session, resolve_external,
  remove_session, events_for, next_event_sequence,
}
use llm_notch.Core.Registry.Invariant.{IsWellFormed, key_of}
use llm_notch.Core.Registry.Invariant.Removal.{without}

-- Inserting a session that is already known returns it and changes nothing: the second of two
-- insertions under one external key, whatever it would have built, replays the first.
pub insert_new_session_replay :
    (session_id_for : AgentSource → String → String) (r r' : SessionRegistry) (source : AgentSource)
    (external : String) (build build' : String → AgentSession) (s : AgentSession) (replay : Bool)
    → ((id : String) → key_of (build id) ≡ external_key source external)
    → insert_new_session session_id_for r source external build ≡ some (ok (s, replay), r')
    → insert_new_session session_id_for r' source external build' ≡ some (ok (s, true), r')
unfolding insert_new_session upsert_session put_session
insert_new_session_replay f r r' source external build build' s replay key e = ground (
  arith,
  key (f source external),
  get-insert r.external_index (external_key source external) (build (f source external)).id
      (external_key source external),
  get-insert r.sessions (build (f source external)).id (build (f source external))
      (build (f source external)).id,
  beq_refl (external_key source external),
  beq_refl (build (f source external)).id,
)

module _ (r : SessionRegistry) (k : String) (s : AgentSession) (h : IsWellFormed r)
    (there : HashMap.get r.sessions k ≡ some s) where
  remove_session_there : remove_session r k ≡ (ok tt, without r k s)
  unfolding remove_session
  remove_session_there = rw (there, remove_session)

  resolve_external-without :
      (source : AgentSource) (external : String)
      → resolve_external (without r k s) source external ≡ (
          if key_of s == external_key source external
          then none
          else resolve_external r source external)
  unfolding resolve_external
  resolve_external-without source external =
      let key = external_key source external in
      elim (Option-cases (HashMap.get r.external_index key)) [
        | inl e ↦ ground (arith, get-remove r.external_index (key_of s) key)
        | inr (id, e) ↦ ground (
          arith,
          get-remove r.external_index (key_of s) key,
          get-remove r.sessions k id,
          eq_iff k id,
          eq_iff (key_of s) key,
          h.matching key id s e,
        )
      ]

  events_for-without :
      (j : String) → events_for (without r k s) j ≡ (if k == j then [] else events_for r j)
  unfolding events_for
  events_for-without j = ground (arith, get-remove r.events k j)

  -- Removing a session of a well-formed registry succeeds. It unlinks the session's own external key
  -- and no other, and drops its events and no others; its sequence starts again at 1.
  pub remove_session_lem :
      (source : AgentSource) (external : String) (j : String)
      → ((remove_session r k).0 ≡ ok tt)
        × (resolve_external (remove_session r k).1 source external ≡ (
            if key_of s == external_key source external
            then none
            else resolve_external r source external))
        × (events_for (remove_session r k).1 j ≡ (if k == j then [] else events_for r j))
        × (next_event_sequence (remove_session r k).1 k ≡ 1)
  unfolding next_event_sequence
  remove_session_lem source external j = rw remove_session_there (
    refl,
    resolve_external-without source external,
    events_for-without j,
    ground (arith, events_for-without k, beq_refl k),
  )
