-- ===== src/Core/Registry/Eviction.antt =====
-- The session that makes room for a new one.
use llm_notch.Prelude.{
  suc, ◌≤◌, String, ◌≡◌, refl, ap, sym, ◌∙◌, subst, true, false, List, [], ◌∷◌, Option, none, some,
  arith, inl, inr, Bool-cases, text_key, ltb, retain, All, All-retain, All-retain_test,
  All-of-retain, if◌then◌else◌,
}
use llm_notch.Prelude.Int.{◌≤ℤ◌, ltb_ℤ}
use llm_notch.HashMap
use llm_notch.HashMap.Laws.{All-values, All-get, size-remove, contains_key_of_get}
use llm_notch.Protocol.{AgentSession, max_sessions}
use llm_notch.Core.Error.{CoreResult, ok, err, session_capacity}
use llm_notch.Core.Transitions.{is_terminal}
use llm_notch.Core.Registry.{
  SessionRegistry, end_key, ends_first, min_by_end, oldest_terminal_session_id,
  capacity_eviction_candidate, remove_session,
}
use llm_notch.Core.Registry.Invariant.{IsWellFormed}

ends_first_le :
    (best s : AgentSession)
    → (end_key (ends_first best s) ≤ℤ end_key best) × (end_key (ends_first best s) ≤ℤ end_key s)
ends_first_le best s = ground arith

min_by_end-All {κ} :
    (P : AgentSession → Type κ) (best : AgentSession) (ss : List AgentSession)
    → P best
    → All P ss
    → P (min_by_end best ss)
unfolding min_by_end
min_by_end-All P best [] p h = p
min_by_end-All P best (s ∷ ss) p h =
    min_by_end-All P (ends_first best s) ss
      (elim (ltb_ℤ (end_key s) (end_key best)) as (λ b. P (if b then s else best)) [
        | true ↦ h.0
        | false ↦ p
      ])
      h.1

min_by_end-le :
    (best : AgentSession) (ss : List AgentSession)
    → (end_key (min_by_end best ss) ≤ℤ end_key best)
      × All (λ s. end_key (min_by_end best ss) ≤ℤ end_key s) ss
unfolding min_by_end
min_by_end-le best [] = (omega arith, tt)
min_by_end-le best (s ∷ ss) =
    let ih = min_by_end-le (ends_first best s) ss in
    let le = ends_first_le best s in (omega (arith, ih.0, le.0), (omega (arith, ih.0, le.1), ih.1))

module _ (r : SessionRegistry) (h : IsWellFormed r) where
  abbrev ended : List AgentSession
  ended = retain (λ s. is_terminal s.status) (HashMap.values r.sessions)

  -- Every stored session is found under its id.
  abbrev IsStored : AgentSession → Type 0
  IsStored s = HashMap.get r.sessions s.id ≡ some s

  values-IsStored : All IsStored (HashMap.values r.sessions)
  values-IsStored =
      All-values IsStored r.sessions h.distinct
        (λ k s found. ap (HashMap.get r.sessions) (h.own_id k s found) ∙ found)

  -- What the eviction promises of the session with the id `k`.
  pub record IsOldestEnded (k : String) : Type 0 where
    pub session : AgentSession
    pub stored : HashMap.get r.sessions k ≡ some session
    pub terminal : is_terminal session.status ≡ true
    pub oldest :
        (j : String) (t : AgentSession)
        → HashMap.get r.sessions j ≡ some t
        → is_terminal t.status ≡ true
        → end_key session ≤ℤ end_key t

  oldest_of :
      (s : AgentSession) (ss : List AgentSession)
      → ended ≡ s ∷ ss
      → IsOldestEnded (min_by_end s ss).id
  oldest_of s ss e =
      let stored : All IsStored (s ∷ ss) =
        subst (All IsStored) e (All-retain IsStored _ _ values-IsStored) in
      let terminal : All (λ t. is_terminal t.status ≡ true) (s ∷ ss) =
        subst (All (λ t. is_terminal t.status ≡ true)) e
          (All-retain_test (λ t. is_terminal t.status) (HashMap.values r.sessions)) in
      let least : All (λ t. end_key (min_by_end s ss) ≤ℤ end_key t) (s ∷ ss) = min_by_end-le s ss in
      record {
        session = min_by_end s ss;
        stored = min_by_end-All IsStored s ss stored.0 stored.1;
        terminal = min_by_end-All (λ t. is_terminal t.status ≡ true) s ss terminal.0 terminal.1;
        oldest = λ j t.
            All-get (λ u. is_terminal u.status ≡ true → end_key (min_by_end s ss) ≤ℤ end_key u)
              r.sessions j t
              (All-of-retain _ _ _
                (subst (All (λ u. end_key (min_by_end s ss) ≤ℤ end_key u)) (sym e) least));
      }

  none_ended :
      ended ≡ []
      → (j : String) (t : AgentSession) → HashMap.get r.sessions j ≡ some t
      → is_terminal t.status ≡ false
  none_ended e j t found = elim (Bool-cases (is_terminal t.status)) [
    | inl yes_terminal ↦ absurd (
        All-get (λ u. is_terminal u.status ≡ true → ⊥) r.sessions j t
          (All-of-retain (λ _. ⊥) (λ u. is_terminal u.status) (HashMap.values r.sessions)
            (subst (All (λ _. ⊥)) (sym e) tt))
          found yes_terminal)
    | inr running ↦ running
  ]

  -- What each answer of `capacity_eviction_candidate` means.
  abbrev pub Justifies : CoreResult (Option String) → Type 0
  Justifies (ok none) = suc (HashMap.size r.sessions) ≤ max_sessions
  Justifies (ok (some k)) =
      (HashMap.size r.sessions ≡ max_sessions)
      × IsOldestEnded k
      × (suc (HashMap.size (remove_session r k).1.sessions) ≤ max_sessions)
  Justifies (err e) =
      (e ≡ session_capacity max_sessions)
      × (HashMap.size r.sessions ≡ max_sessions)
      × ((j : String) (t : AgentSession)
          → HashMap.get r.sessions j ≡ some t
          → is_terminal t.status ≡ false)

  room_after :
      (k : String) (s : AgentSession)
      → HashMap.get r.sessions k ≡ some s
      → suc (HashMap.size (remove_session r k).1.sessions) ≤ max_sessions
  unfolding remove_session
  room_after k s found =
      rw (found, remove_session)
        (ground (
          arith,
          size-remove r.sessions k h.distinct,
          contains_key_of_get r.sessions k s found,
          h.bounded,
        ))

  evicted_one :
      HashMap.size r.sessions ≡ max_sessions
      → (s : AgentSession) (ss : List AgentSession) → ended ≡ s ∷ ss
      → Justifies (ok (some (min_by_end s ss).id))
  evicted_one at_limit s ss e =
      let o = oldest_of s ss e in (at_limit, o, room_after _ o.session o.stored)

  -- A session is evicted only from a full registry: it is an ended session that no other ended
  -- session precedes, and removing it leaves room for one more. No session is evicted only where
  -- there is room, and the call fails only if the registry is full of sessions that have not ended.
  pub capacity_eviction_candidate_lem : Justifies (capacity_eviction_candidate r)
  unfolding capacity_eviction_candidate oldest_terminal_session_id
  capacity_eviction_candidate_lem = elim (Bool-cases (ltb (HashMap.size r.sessions) max_sessions)) [
    | inl room ↦ rw (room, capacity_eviction_candidate) (ground arith)
    | inr full ↦
        rw (full, capacity_eviction_candidate) (full_case (ground (arith, h.bounded)) ended refl)
  ]
    where
      full_case :
          HashMap.size r.sessions ≡ max_sessions
          → (es : List AgentSession) → ended ≡ es
          → Justifies
              (elim (elim es as (λ _. Option String) [
                | [] ↦ none
                | s ∷ ss ↦ some (min_by_end s ss).id
              ])
                as (λ _. CoreResult (Option String)) [
                  | some oldest ↦ ok (some oldest)
                  | none ↦ err (session_capacity max_sessions)
                ])
      full_case at_limit [] e = (refl, at_limit, none_ended e)
      full_case at_limit (s ∷ ss) e = evicted_one at_limit s ss e
