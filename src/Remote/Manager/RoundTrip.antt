-- ===== src/Remote/Manager/RoundTrip.antt =====
-- `register` and `remove` of `RemoteRelayManager` of crates/notch-remote/src/session.rs.
use llm_notch.Prelude.{
  String, ◌≡◌, refl, ap, some, true, false, text_key, List, [], ◌∷◌, ◌++◌, any_of, arith, eq_iff,
  inl, inr, Bool-cases,
}
use llm_notch.Remote.Protocol.{ok}
use llm_notch.Remote.Transport.{RemoteTransport}
use llm_notch.Remote.Session.{RelaySession, stop, map_or}
use llm_notch.Remote.Manager.{
  RemoteRelayManager, has_host, register, find, get, without_first, remove,
}

module _ {C : Type 0} where
  abbrev Lacks : String → List (RelaySession C) → Type 0
  Lacks host_id ss = any_of (has_host host_id) ss ≡ false

  has_host_own : (s : RelaySession C) → has_host s.host.id s ≡ true
  unfolding has_host
  has_host_own s = ground (arith, eq_iff s.host.id s.host.id)

  find-last :
      (s : RelaySession C) (ss : List (RelaySession C))
      → Lacks s.host.id ss
      → find s.host.id (ss ++ (s ∷ [])) ≡ some s
  unfolding find any_of
  find-last s [] lacks = ground (arith, has_host_own s)
  find-last s (x ∷ ss) lacks = elim (Bool-cases (has_host s.host.id x)) [
    | inl h ↦ ground (arith, h, lacks)
    | inr h ↦ rw h (find-last s ss (ground (arith, h, lacks)))
  ]

  without_first-last :
      (s : RelaySession C) (ss : List (RelaySession C))
      → Lacks s.host.id ss
      → without_first s.host.id (ss ++ (s ∷ [])) ≡ ss
  unfolding without_first any_of
  without_first-last s [] lacks = ground (arith, has_host_own s)
  without_first-last s (x ∷ ss) lacks = elim (Bool-cases (has_host s.host.id x)) [
    | inl h ↦ ground (arith, h, lacks)
    | inr h ↦ rw h (ap (λ r. x ∷ r) (without_first-last s ss (ground (arith, h, lacks))))
  ]

  register_new :
      (m : RemoteRelayManager C) (s : RelaySession C)
      → (register m s).0 ≡ ok tt
      → Lacks s.host.id m.sessions × ((register m s).1.sessions ≡ m.sessions ++ (s ∷ []))
  unfolding register
  register_new m s done = ground arith

module _ {C W : Type 0} (t : RemoteTransport C W) where
  -- A session that `register` took is what `get` then finds for its host, and `remove` of that host
  -- stops it, answers what `stop` answers, leaves the world as `stop` does, and gives back the
  -- sessions from before.
  pub remove-register :
      (m : RemoteRelayManager C) (s : RelaySession C) (w : W)
      → (register m s).0 ≡ ok tt
      → let m' = (register m s).1 in
        let removed = remove t m' s.host.id w in
        (get m' s.host.id ≡ some s)
        × (removed.0 ≡ (stop t s w).0)
        × (removed.1.sessions ≡ m.sessions)
        × (removed.2 ≡ (stop t s w).2)
  unfolding get remove map_or
  remove-register m s w done =
      let new = register_new m s done in
      let found = find-last s m.sessions new.0 in
      let left = without_first-last s m.sessions new.0 in
      rw new.1 (rw found (refl, refl, left, refl))
