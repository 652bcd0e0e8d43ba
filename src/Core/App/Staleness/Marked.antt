-- ===== src/Core/App/Staleness/Marked.antt =====
-- What a run of `mark_stale_sessions` leaves.
use llm_notch.Prelude.{
  String, ◌≡◌, refl, sym, ap, ◌∙◌, subst, Bool, true, List, [], ◌∷◌, none, some, retain, map, All,
  All-retain, text_key, arith, inl, inr, Option-cases,
}
use llm_notch.Prelude.Int.{ℤ}
use llm_notch.HashMap
use llm_notch.HashMap.{HashMap}
use llm_notch.HashMap.Laws.{contains_key-modify, All-values, contains_key_of_get}
use llm_notch.Protocol.{AgentSession, SessionStatus}
use llm_notch.Core.Error.{CoreResult, ok, err, CoreResult-cases}
use llm_notch.Core.Transitions.{validate_transition}
use llm_notch.Core.Registry.{update_session}
use llm_notch.Core.Registry.Invariant.{IsWellFormed}
use llm_notch.Core.Repository.{SessionRepository}
use llm_notch.Core.App.{AppCoreInner, queue_payload}
use llm_notch.Core.App.Staleness.{
  is_quiet, stale_at, saved_session, mark_session, mark_each, mark_stale_sessions,
}

validate_transition-stale :
    (status : SessionStatus) → validate_transition status SessionStatus.stale ≡ ok tt
unfolding validate_transition
validate_transition-stale SessionStatus.starting = refl
validate_transition-stale SessionStatus.running = refl
validate_transition-stale SessionStatus.waiting = refl
validate_transition-stale SessionStatus.paused = refl
validate_transition-stale SessionStatus.completed = refl
validate_transition-stale SessionStatus.failed = refl
validate_transition-stale SessionStatus.stale = refl

known :
    (m : HashMap String AgentSession) (id : String)
    → HashMap.contains_key m id ≡ true
    → (s : AgentSession) × (HashMap.get m id ≡ some s)
unfolding HashMap.contains_key
known m id h = elim (Option-cases (HashMap.get m id)) [
  | inl absent ↦ ground arith
  | inr there ↦ there
]

All-ids :
    (P : String → Type 0) (sessions : List AgentSession)
    → All (λ s. P s.id) sessions
    → All P (map (λ s. s.id) sessions)
All-ids P [] h = tt
All-ids P (s ∷ sessions) h = (h.0, All-ids P sessions h.1)

present :
    (p : AgentSession → Bool) (m : HashMap String AgentSession)
    → HashMap.Distinct m
    → ((j : String) (s : AgentSession) → HashMap.get m j ≡ some s → s.id ≡ j)
    → All (λ id. HashMap.contains_key m id ≡ true) (map (λ s. s.id) (retain p (HashMap.values m)))
present p m d own =
    let Present : AgentSession → Type 0 = λ s. HashMap.contains_key m s.id ≡ true in
    All-ids (λ id. HashMap.contains_key m id ≡ true) (retain p (HashMap.values m))
      (All-retain Present p (HashMap.values m) (
        All-values Present m d (λ k s found.
          ap (HashMap.contains_key m) (own k s found) ∙ contains_key_of_get m k s found)))

module _ (now : ℤ) (m : HashMap String AgentSession) (id : String) where
  still :
      (ids : List String)
      → All (λ j. HashMap.contains_key m j ≡ true) ids
      → All (λ j. HashMap.contains_key (HashMap.modify m id (stale_at now)) j ≡ true) ids
  still [] h = tt
  still (j ∷ ids) h = (contains_key-modify m id (stale_at now) j ∙ h.0, still ids h.1)

module _ {R : Type 0} (repository : SessionRepository R) (now : ℤ) where
  saved_session-registry :
      (inner : AppCoreInner) (s : AgentSession) (answer : CoreResult (Unit {0}) × R)
      → (saved_session repository now inner s answer).1.registry ≡ inner.registry
  unfolding saved_session queue_payload
  saved_session-registry inner s (ok _, store) = refl
  saved_session-registry inner s (err e, store) = refl

  -- A known session is marked, whatever the repository answers.
  pub mark_session-get :
      (inner : AppCoreInner) (store : R) (id : String) (s : AgentSession)
      → HashMap.get inner.registry.sessions id ≡ some s
      → (r : CoreResult (Unit {0}) × AppCoreInner × R) × (mark_session repository now inner store id
          ≡ some r)
        × (r.1.registry ≡ update_session inner.registry id (stale_at now))
  unfolding mark_session
  mark_session-get inner store id s found =
      let next = record inner { registry = update_session inner.registry id (stale_at now) } in
      let answer = repository.upsert_session store (stale_at now s) in
      (
        saved_session repository now next (stale_at now s) answer,
        rw (found, mark_session, validate_transition-stale s.status) refl,
        saved_session-registry next (stale_at now s) answer,
      )

  module _ (inner : AppCoreInner) (store : R) (id : String) (ids : List String)
      (r : CoreResult (Unit {0}) × AppCoreInner × R)
      (one : mark_session repository now inner store id ≡ some r) where
    pub mark_each_step :
        mark_each repository now inner store (id ∷ ids)
        ≡ (elim r.0 [ err e ↦ some r | ok _ ↦ mark_each repository now r.1 r.2 ids ])
    unfolding mark_each
    mark_each_step =
        ap
          (λ o. elim o [
            | none ↦ none
            | some x ↦ elim x.0 [ err e ↦ some x | ok _ ↦ mark_each repository now x.1 x.2 ids ]
          ])
          one

  pub mark_each_absent :
      (inner : AppCoreInner) (store : R) (id : String) (ids : List String)
      → HashMap.get inner.registry.sessions id ≡ none
      → mark_each repository now inner store (id ∷ ids) ≡ none
  unfolding mark_each mark_session
  mark_each_absent inner store id ids absent = rw (absent, mark_each, mark_session) refl

  mark_each_total :
      (inner : AppCoreInner) (store : R) (ids : List String)
      → All (λ id. HashMap.contains_key inner.registry.sessions id ≡ true) ids
      → (r : CoreResult (Unit {0}) × AppCoreInner × R) × (mark_each repository now inner store ids
          ≡ some r)
  unfolding update_session
  mark_each_total inner store [] h = ((ok tt, inner, store), unfold mark_each in refl)
  mark_each_total inner store (id ∷ ids) h =
      let (s, found) = known inner.registry.sessions id h.0 in
      let (r, one, next) = mark_session-get inner store id s found in
      let step = mark_each_step inner store id ids r one in
      elim (CoreResult-cases r.0) [
        | inr (e, failed) ↦ (r, step ∙ rw failed refl)
        | inl (u, fine) ↦
            let (last, ran) = mark_each_total r.1 r.2 ids (
              subst (λ g. All (λ j. HashMap.contains_key g.sessions j ≡ true) ids) (sym next)
                (still now inner.registry.sessions id ids h.1)) in
            (last, step ∙ rw fine ran)
      ]

  module _ (inner : AppCoreInner) (store : R) (h : IsWellFormed inner.registry) where
    -- On a well-formed registry a run over the quiet sessions never meets a missing one, so that it
    -- returns whatever the repository answers.
    pub mark_stale_sessions_total :
        (r : CoreResult (Unit {0}) × AppCoreInner × R) × (mark_stale_sessions repository now inner
            store
          ≡ some r)
    unfolding mark_stale_sessions
    mark_stale_sessions_total =
        mark_each_total inner store _
          (present (is_quiet now) inner.registry.sessions h.distinct h.own_id)
