-- ===== src/Core/Registry/Invariant/Removal.antt =====
-- `remove_session` keeps the invariant, and leaves nothing of the session behind.
use llm_notch.Prelude.{String, ◌≡◌, true, some, arith, eq_iff, text_key, inl, inr, Option-cases}
use llm_notch.HashMap
use llm_notch.HashMap.Laws.{map_laws, Distinct-remove, size-remove}
use llm_notch.Protocol.{AgentSession}
use llm_notch.Core.Registry.{SessionRegistry, remove_session}
use llm_notch.Core.Registry.Invariant.{IsWellFormed, key_of}

abbrev pub without : SessionRegistry → String → AgentSession → SessionRegistry
without r k s = record r {
  sessions = HashMap.remove r.sessions k;
  external_index = HashMap.remove r.external_index (key_of s);
  events = HashMap.remove r.events k;
}

module _ (r : SessionRegistry) (k : String) (s : AgentSession) (h : IsWellFormed r)
    (there : HashMap.get r.sessions k ≡ some s) where
  without-indexed :
      (j : String) (t : AgentSession)
      → HashMap.get (without r k s).sessions j ≡ some t
      → HashMap.get (without r k s).external_index (key_of t) ≡ some j
  without-indexed j t = simp map_laws (λ e.
      ground (arith, h.indexed k s there, h.indexed j t, eq_iff k j, eq_iff (key_of s) (key_of t)))

  without-resolved :
      (key id : String)
      → HashMap.get (without r k s).external_index key ≡ some id
      → HashMap.contains_key (without r k s).sessions id ≡ true
  without-resolved key id = simp map_laws (λ e.
      ground (arith, h.resolved key id, h.matching key id s, eq_iff k id, eq_iff (key_of s) key))

  pub without-IsWellFormed : IsWellFormed (without r k s)
  without-IsWellFormed = record {
    own_id = λ j t. simp map_laws (λ e. ground (arith, h.own_id j t));
    indexed = without-indexed;
    resolved = without-resolved;
    matching = λ key id t. simp map_laws (λ e e'. ground (arith, h.matching key id t));
    owned = λ j es. simp map_laws (λ e. ground (arith, h.owned j es));
    windows = λ j es. simp map_laws (λ e. ground (arith, h.windows j es));
    distinct = Distinct-remove r.sessions k h.distinct;
    bounded = ground (arith, size-remove r.sessions k h.distinct, h.bounded);
  }

pub remove_session-IsWellFormed :
    (r : SessionRegistry) (k : String) → IsWellFormed r → IsWellFormed (remove_session r k).1
unfolding remove_session
remove_session-IsWellFormed r k h = elim (Option-cases (HashMap.get r.sessions k)) [
  | inl e ↦ rw (e, remove_session) h
  | inr (s, e) ↦ rw (e, remove_session) (without-IsWellFormed r k s h e)
]
