-- ===== src/Core/App/Records/Snapshot.antt =====
-- What a snapshot shows of the registry.
use llm_notch.Prelude.{
  String, ℕ, zero, suc, ◌≤◌, ◌≡◌, refl, ap, ◌∙◌, sym, subst, Bool, true, false, List, [], ◌∷◌,
  arith, length, length-map, take, any_of,
}
use llm_notch.Prelude.Int.{ℤ}
use llm_notch.Prelude.Sorting.{sort_by, IsSorted, IsSorted-sort_by, any_of-sort_by, length-sort_by}
use llm_notch.HashMap
use llm_notch.Protocol.{AgentSession, max_sessions}
use llm_notch.Core.Registry.Invariant.{IsWellFormed}
use llm_notch.Core.App.{AppCoreInner}
use llm_notch.Core.App.Records.{heard_later, snapshot_with_sequence}

take_all : (n : ℕ) (xs : List AgentSession) → length xs ≤ n → take n xs ≡ xs
take_all zero [] h = refl
take_all zero (x ∷ xs) h = absurd (omega arith)
take_all (suc n) [] h = refl
take_all (suc n) (x ∷ xs) h = ap (λ ys. x ∷ ys) (take_all n xs (omega arith))

heard_later-total : (a b : AgentSession) → heard_later a b ≡ false → heard_later b a ≡ true
heard_later-total a b h = ground arith

module _ (inner : AppCoreInner) (now : ℤ) where
  abbrev shown : List AgentSession
  shown = (snapshot_with_sequence inner now).snapshot.sessions

  shown-eq-sort :
      IsWellFormed inner.registry
      → shown ≡ sort_by heard_later (HashMap.values inner.registry.sessions)
  unfolding snapshot_with_sequence
  shown-eq-sort h =
      take_all max_sessions (sort_by heard_later (HashMap.values inner.registry.sessions)) (
        omega (
          arith,
          length-sort_by heard_later (HashMap.values inner.registry.sessions),
          length-map (λ (e : String × AgentSession). e.1) inner.registry.sessions,
          h.bounded,
        ))

  -- The snapshot of a well-formed registry leaves no session out: it has as many as the registry,
  -- the same by any test, and the session that was heard of last stands first.
  pub snapshot_complete :
      IsWellFormed inner.registry
      → IsSorted heard_later shown
        × (length shown ≡ HashMap.size inner.registry.sessions)
        × ((p : AgentSession → Bool)
            → any_of p shown ≡ any_of p (HashMap.values inner.registry.sessions))
  snapshot_complete h =
      let same = shown-eq-sort h in
      let values = HashMap.values inner.registry.sessions in
      (
        subst (IsSorted heard_later) (sym same)
            (IsSorted-sort_by heard_later heard_later-total values),
        ap length same
            ∙ length-sort_by heard_later values
            ∙ length-map (λ (e : String × AgentSession). e.1) inner.registry.sessions,
        λ p. ap (any_of p) same ∙ any_of-sort_by heard_later p values,
      )
