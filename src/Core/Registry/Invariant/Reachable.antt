-- ===== src/Core/Registry/Invariant/Reachable.antt =====
-- The registries that the core reaches from the empty one by the registry's methods.
use llm_notch.Prelude.{String, ◌≡◌, refl, Bool, none, some, arith, text_key, subst, inl, inr}
use llm_notch.HashMap
use llm_notch.Protocol.{AgentSource, AgentSession, SessionEvent}
use llm_notch.Core.Error.{CoreResult, CoreResult-cases}
use llm_notch.Core.Validation.{validate_external_session_id}
use llm_notch.Core.Registry.{
  SessionRegistry, new, external_key, upsert_session, update_session, insert_new_session,
  append_event, remove_session, record_idempotency, clear_events, clear_latest_metrics,
}
use llm_notch.Core.Registry.Invariant.{IsWellFormed, key_of}
use llm_notch.Core.Registry.Invariant.Writes.{over-IsWellFormed}
use llm_notch.Core.Registry.Invariant.Removal.{remove_session-IsWellFormed}
use llm_notch.Core.Registry.Invariant.Updates.{
  SameIdentity, update_session-IsWellFormed, updated_all-IsWellFormed,
}
use llm_notch.Core.Registry.Invariant.Windows.{append_event-IsWellFormed}
use llm_notch.Core.Registry.Invariant.Operations.{insert_new_session-IsWellFormed}

-- One call of the core. A new session comes with an id that no session under another external key
-- has, and a caller that writes to a session leaves its id and its external key alone.
pub data Step (session_id_for : AgentSource → String → String)
    : SessionRegistry → SessionRegistry → Type 0 where
  inserts :
      (r : SessionRegistry) (source : AgentSource) (external : String)
      (build : String → AgentSession) (result : CoreResult (AgentSession × Bool))
      (r' : SessionRegistry)
      → ((id : String) → ((build id).id ≡ id) × (key_of (build id) ≡ external_key source external))
      → (HashMap.get r.external_index (external_key source external) ≡ none
          → HashMap.get r.sessions (session_id_for source external) ≡ none)
      → insert_new_session session_id_for r source external build ≡ some (result, r')
      → Step session_id_for r r'
  upserts :
      (r : SessionRegistry) (s t : AgentSession)
      → HashMap.get r.sessions s.id ≡ some t
      → key_of s ≡ key_of t
      → Step session_id_for r (upsert_session r s).1
  updates :
      (r : SessionRegistry) (k : String) (f : AgentSession → AgentSession)
      → ((s : AgentSession) → SameIdentity (f s) s)
      → Step session_id_for r (update_session r k f)
  appends : (r : SessionRegistry) (e : SessionEvent) → Step session_id_for r (append_event r e).1
  removes : (r : SessionRegistry) (k : String) → Step session_id_for r (remove_session r k).1
  records : (r : SessionRegistry) (key : String) → Step session_id_for r (record_idempotency r key)
  clears_events : (r : SessionRegistry) → Step session_id_for r (clear_events r)
  clears_metrics : (r : SessionRegistry) → Step session_id_for r (clear_latest_metrics r)

pub data Reach (session_id_for : AgentSource → String → String) (r : SessionRegistry)
    : SessionRegistry → Type 0 where
  here : Reach session_id_for r r
  next :
      {s t : SessionRegistry}
      → Reach session_id_for r s
      → Step session_id_for s t
      → Reach session_id_for r t

new-IsWellFormed : IsWellFormed new
unfolding HashMap.get
new-IsWellFormed = record {
  own_id = λ k s e. cc;
  indexed = λ k s e. cc;
  resolved = λ k id e. cc;
  matching = λ k id s e. cc;
  owned = λ k es e. cc;
  windows = λ k es e. cc;
  distinct = tt;
  bounded = omega arith;
}

upsert_session-IsWellFormed :
    (r : SessionRegistry) (s t : AgentSession)
    → IsWellFormed r
    → HashMap.get r.sessions s.id ≡ some t
    → key_of s ≡ key_of t
    → IsWellFormed (upsert_session r s).1
unfolding upsert_session
upsert_session-IsWellFormed r s t h there same =
    elim (CoreResult-cases (validate_external_session_id s.external_session_id)) [
      | inl (_, v) ↦ rw (v, upsert_session) (over-IsWellFormed r s t h there same)
      | inr (e, v) ↦ rw (v, upsert_session) h
    ]

clear_events-IsWellFormed : (r : SessionRegistry) → IsWellFormed r → IsWellFormed (clear_events r)
unfolding clear_events HashMap.get
clear_events-IsWellFormed r h = record {
  own_id = h.own_id;
  indexed = h.indexed;
  resolved = h.resolved;
  matching = h.matching;
  owned = λ k es e. cc;
  windows = λ k es e. cc;
  distinct = h.distinct;
  bounded = h.bounded;
}

record_idempotency-IsWellFormed :
    (r : SessionRegistry) (key : String) → IsWellFormed r → IsWellFormed (record_idempotency r key)
unfolding record_idempotency
record_idempotency-IsWellFormed r key h = record {
  own_id = h.own_id;
  indexed = h.indexed;
  resolved = h.resolved;
  matching = h.matching;
  owned = h.owned;
  windows = h.windows;
  distinct = h.distinct;
  bounded = h.bounded;
}

clear_latest_metrics-IsWellFormed :
    (r : SessionRegistry) → IsWellFormed r → IsWellFormed (clear_latest_metrics r)
unfolding clear_latest_metrics
clear_latest_metrics-IsWellFormed r h =
    updated_all-IsWellFormed r _ h (λ s. record { id = refl; key = refl })

module _ {session_id_for : AgentSource → String → String} where
  -- Every method keeps the maps in agreement and within their limits, also where it fails.
  pub Step-IsWellFormed :
      {r r' : SessionRegistry} → Step session_id_for r r' → IsWellFormed r → IsWellFormed r'
  Step-IsWellFormed (inserts r source external build result r' builds free returns) h =
      let (x, e, g) =
        insert_new_session-IsWellFormed session_id_for r source external build h builds free in
      subst IsWellFormed (ground arith) g
  Step-IsWellFormed (upserts r s t there same) h = upsert_session-IsWellFormed r s t h there same
  Step-IsWellFormed (updates r k f same) h = update_session-IsWellFormed r k f h same
  Step-IsWellFormed (appends r e) h = append_event-IsWellFormed r e h
  Step-IsWellFormed (removes r k) h = remove_session-IsWellFormed r k h
  Step-IsWellFormed (records r key) h = record_idempotency-IsWellFormed r key h
  Step-IsWellFormed (clears_events r) h = clear_events-IsWellFormed r h
  Step-IsWellFormed (clears_metrics r) h = clear_latest_metrics-IsWellFormed r h

  pub Reach-keeps :
      {r r' : SessionRegistry} → IsWellFormed r → Reach session_id_for r r' → IsWellFormed r'
  Reach-keeps h here = h
  Reach-keeps h (next steps step) = Step-IsWellFormed step (Reach-keeps h steps)

  -- Whatever the core has called, from the empty registry on: every session is stored under its own
  -- id and found by its external key, the index leads nowhere else, events belong to a session and
  -- are consecutive, and there are at most 128 sessions and 10000 events of each.
  pub Reach-IsWellFormed : {r : SessionRegistry} → Reach session_id_for new r → IsWellFormed r
  Reach-IsWellFormed steps = Reach-keeps new-IsWellFormed steps
