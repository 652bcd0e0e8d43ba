-- ===== src/Core/Registry/Invariant/Updates.antt =====
-- Writes through `get_mut`, and writes to the list of events, keep the invariant.
use llm_notch.Prelude.{
  String, ◌≡◌, ◌∙◌, true, List, some, arith, eq_iff, text_key, inl, inr, Option-cases, ap,
}
use llm_notch.HashMap
use llm_notch.HashMap.Laws.{
  map_laws, Distinct-modify, size-modify, get-modify, get-map_values, Distinct-map_values,
  size-map_values,
}
use llm_notch.Protocol.{AgentSession, SessionEvent}
use llm_notch.Core.Registry.{SessionRegistry, update_session}
use llm_notch.Core.Registry.Invariant.{IsWellFormed, IsWindow, key_of}

-- The fields by which a session is found.
pub record SameIdentity (s t : AgentSession) : Type 0 where
  pub id : s.id ≡ t.id
  pub key : key_of s ≡ key_of t

module _ (r : SessionRegistry) (k : String) (f : AgentSession → AgentSession) (h : IsWellFormed r)
    (same : (s : AgentSession) → SameIdentity (f s) s) where
  -- What is stored after the update is the image of what was stored, or that itself.
  stored :
      (j : String) (t : AgentSession)
      → HashMap.get (update_session r k f).sessions j ≡ some t
      → (s : AgentSession) × (HashMap.get r.sessions j ≡ some s)
        × (t.id ≡ s.id)
        × (key_of t ≡ key_of s)
  unfolding update_session
  stored j t e = elim (Option-cases (HashMap.get r.sessions j)) [
    | inl no_entry ↦ absurd (ground (arith, get-modify r.sessions k f j))
    | inr (s, entry) ↦ (
      s,
      entry,
      ground (arith, get-modify r.sessions k f j, (same s).id),
      ground (arith, get-modify r.sessions k f j, (same s).key),
    )
  ]

  pub update_session-IsWellFormed : IsWellFormed (update_session r k f)
  unfolding update_session
  update_session-IsWellFormed = record {
    own_id = λ j t e. let (s, p, i, q) = stored j t e in i ∙ h.own_id j s p;
    indexed = λ j t e.
        let (s, p, i, q) = stored j t e in ap (HashMap.get r.external_index) q ∙ h.indexed j s p;
    resolved = λ key id e. simp map_laws (h.resolved key id e);
    matching = λ key id t e e'. let (s, p, i, q) = stored id t e' in q ∙ h.matching key id s e p;
    owned = λ j es e. simp map_laws (h.owned j es e);
    windows = h.windows;
    distinct = Distinct-modify r.sessions k f h.distinct;
    bounded = ground (arith, size-modify r.sessions k f, h.bounded);
  }

module _ (r : SessionRegistry) (f : AgentSession → AgentSession) (h : IsWellFormed r)
    (same : (s : AgentSession) → SameIdentity (f s) s) where
  abbrev updated_all : SessionRegistry
  updated_all = record r { sessions = HashMap.map_values f r.sessions }

  stored_all :
      (j : String) (t : AgentSession)
      → HashMap.get updated_all.sessions j ≡ some t
      → (s : AgentSession) × (HashMap.get r.sessions j ≡ some s)
        × (t.id ≡ s.id)
        × (key_of t ≡ key_of s)
  stored_all j t e = elim (Option-cases (HashMap.get r.sessions j)) [
    | inl no_entry ↦ absurd (ground (arith, get-map_values r.sessions f j))
    | inr (s, entry) ↦ (
      s,
      entry,
      ground (arith, get-map_values r.sessions f j, (same s).id),
      ground (arith, get-map_values r.sessions f j, (same s).key),
    )
  ]

  still_there :
      (j : String)
      → HashMap.contains_key r.sessions j ≡ true
      → HashMap.contains_key updated_all.sessions j ≡ true
  unfolding HashMap.contains_key
  still_there j e = ground (arith, get-map_values r.sessions f j)

  pub updated_all-IsWellFormed : IsWellFormed updated_all
  updated_all-IsWellFormed = record {
    own_id = λ j t e. let (s, p, i, q) = stored_all j t e in i ∙ h.own_id j s p;
    indexed = λ j t e.
        let (s, p, i, q) = stored_all j t e in
        ap (HashMap.get r.external_index) q ∙ h.indexed j s p;
    resolved = λ key id e. still_there id (h.resolved key id e);
    matching =
        λ key id t e e'. let (s, p, i, q) = stored_all id t e' in q ∙ h.matching key id s e p;
    owned = λ j es e. still_there j (h.owned j es e);
    windows = h.windows;
    distinct = Distinct-map_values r.sessions f h.distinct;
    bounded = ground (arith, size-map_values r.sessions f, h.bounded);
  }

module _ (r : SessionRegistry) (k : String) (es : List SessionEvent) (h : IsWellFormed r) where
  pub write_events-IsWellFormed :
      HashMap.contains_key r.sessions k ≡ true
      → IsWindow es
      → IsWellFormed (record r { events = HashMap.insert r.events k es })
  write_events-IsWellFormed there w = record {
    own_id = h.own_id;
    indexed = h.indexed;
    resolved = h.resolved;
    matching = h.matching;
    owned = λ j fs. simp map_laws (λ e. ground (arith, h.owned j fs, eq_iff k j));
    windows = λ j fs. simp map_laws (λ e. ground (arith, h.windows j fs, w));
    distinct = h.distinct;
    bounded = h.bounded;
  }
