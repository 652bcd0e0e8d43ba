-- ===== src/Core/Registry/Invariant/Writes.antt =====
-- One write to a map keeps the invariant.
use llm_notch.Prelude.{suc, ◌≤◌, String, ◌≡◌, true, List, none, some, arith, eq_iff, text_key}
use llm_notch.HashMap
use llm_notch.HashMap.{HashMap}
use llm_notch.HashMap.Laws.{map_laws, Distinct-insert, size-insert, contains_key_of_get}
use llm_notch.Protocol.{AgentSession, SessionEvent, max_sessions}
use llm_notch.Core.Registry.{SessionRegistry, put_session}
use llm_notch.Core.Registry.Invariant.{IsWellFormed, key_of}

-- A new session, under an id and a key that are both free.
module _ (r : SessionRegistry) (s : AgentSession) (h : IsWellFormed r)
    (free_id : HashMap.get r.sessions s.id ≡ none)
    (free_key : HashMap.get r.external_index (key_of s) ≡ none)
    (room : suc (HashMap.size r.sessions) ≤ max_sessions) where
  fresh-own_id :
      (k : String) (t : AgentSession) → HashMap.get (put_session r s).sessions k ≡ some t → t.id ≡ k
  unfolding put_session
  fresh-own_id k t = simp map_laws (λ e. ground (arith, h.own_id k t, eq_iff s.id k))

  fresh-indexed :
      (k : String) (t : AgentSession)
      → HashMap.get (put_session r s).sessions k ≡ some t
      → HashMap.get (put_session r s).external_index (key_of t) ≡ some k
  unfolding put_session
  fresh-indexed k t =
      simp map_laws
        (λ e. ground (arith, h.indexed k t, eq_iff s.id k, eq_iff (key_of s) (key_of t)))

  fresh-resolved :
      (key id : String)
      → HashMap.get (put_session r s).external_index key ≡ some id
      → HashMap.contains_key (put_session r s).sessions id ≡ true
  unfolding put_session
  fresh-resolved key id =
      simp map_laws (λ e. ground (arith, h.resolved key id, eq_iff s.id id, eq_iff (key_of s) key))

  fresh-matching :
      (key id : String) (t : AgentSession)
      → HashMap.get (put_session r s).external_index key ≡ some id
      → HashMap.get (put_session r s).sessions id ≡ some t
      → key_of t ≡ key
  unfolding put_session HashMap.contains_key
  fresh-matching key id t = simp map_laws (λ e e'.
      ground (arith, h.matching key id t, h.resolved key id, eq_iff s.id id, eq_iff (key_of s) key))

  fresh-owned :
      (k : String) (es : List SessionEvent)
      → HashMap.get r.events k ≡ some es
      → HashMap.contains_key (put_session r s).sessions k ≡ true
  unfolding put_session
  fresh-owned k es e = simp map_laws (ground (arith, h.owned k es e))

  pub fresh-IsWellFormed : IsWellFormed (put_session r s)
  unfolding put_session HashMap.contains_key
  fresh-IsWellFormed = record {
    own_id = fresh-own_id;
    indexed = fresh-indexed;
    resolved = fresh-resolved;
    matching = fresh-matching;
    owned = fresh-owned;
    windows = h.windows;
    distinct = Distinct-insert r.sessions s.id s h.distinct;
    bounded = ground (arith, size-insert r.sessions s.id s);
  }

-- A session written over the one with its id and its key.
module _ (r : SessionRegistry) (s t : AgentSession) (h : IsWellFormed r)
    (there : HashMap.get r.sessions s.id ≡ some t) (same_key : key_of s ≡ key_of t) where
  over-indexed :
      (k : String) (u : AgentSession)
      → HashMap.get (put_session r s).sessions k ≡ some u
      → HashMap.get (put_session r s).external_index (key_of u) ≡ some k
  unfolding put_session
  over-indexed k u = simp map_laws (λ e.
      ground
        (arith, h.indexed k u, h.indexed s.id t there, eq_iff s.id k, eq_iff (key_of s) (key_of u)))

  over-matching :
      (key id : String) (u : AgentSession)
      → HashMap.get (put_session r s).external_index key ≡ some id
      → HashMap.get (put_session r s).sessions id ≡ some u
      → key_of u ≡ key
  unfolding put_session
  over-matching key id u = simp map_laws (λ e e'. ground (
    arith,
    h.matching key id u,
    h.matching key id t,
    h.indexed s.id t there,
    eq_iff s.id id,
    eq_iff (key_of s) key,
  ))

  pub over-IsWellFormed : IsWellFormed (put_session r s)
  unfolding put_session
  over-IsWellFormed = record {
    own_id = λ k u. simp map_laws (λ e. ground (arith, h.own_id k u, eq_iff s.id k));
    indexed = over-indexed;
    resolved = λ key id.
        simp map_laws
          (λ e. ground (arith, h.resolved key id, eq_iff s.id id, eq_iff (key_of s) key));
    matching = over-matching;
    owned = λ k es e. simp map_laws (ground (arith, h.owned k es e));
    windows = h.windows;
    distinct = Distinct-insert r.sessions s.id s h.distinct;
    bounded = ground (
      arith,
      size-insert r.sessions s.id s,
      contains_key_of_get r.sessions s.id t there,
      h.bounded,
    );
  }
