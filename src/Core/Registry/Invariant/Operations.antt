-- ===== src/Core/Registry/Invariant/Operations.antt =====
-- `insert_new_session` neither panics nor breaks the invariant.
use llm_notch.Prelude.{
  ◌≤◌, suc, String, ◌≡◌, refl, ◌∙◌, ap, Bool, true, Option, none, some, arith, inl, inr,
  Option-cases, Bool-cases, leb, text_key,
}
use llm_notch.HashMap
use llm_notch.Protocol.{AgentSource, AgentSession, max_sessions}
use llm_notch.Core.Error.{CoreResult, ok, err, session_capacity, CoreResult-cases}
use llm_notch.Core.Validation.{validate_external_session_id}
use llm_notch.Core.Registry.{
  SessionRegistry, external_key, upsert_session, insert_new_session, inserted,
}
use llm_notch.Core.Registry.Invariant.{IsWellFormed, key_of}
use llm_notch.Core.Registry.Invariant.Writes.{fresh-IsWellFormed}

module _ (session_id_for : AgentSource → String → String) (r : SessionRegistry)
    (source : AgentSource) (external : String) (build : String → AgentSession) (h : IsWellFormed r)
    (builds : (id : String)
      → ((build id).id ≡ id) × (key_of (build id) ≡ external_key source external))
    -- No other session has the generated id.
    (no_collision : HashMap.get r.external_index (external_key source external) ≡ none
      → HashMap.get r.sessions (session_id_for source external) ≡ none) where
  abbrev outcome : Option (CoreResult (AgentSession × Bool) × SessionRegistry)
  outcome = insert_new_session session_id_for r source external build

  built : AgentSession
  built = build (session_id_for source external)

  inserted-IsWellFormed :
      HashMap.get r.external_index (external_key source external) ≡ none
      → suc (HashMap.size r.sessions) ≤ max_sessions
      → IsWellFormed (inserted built (upsert_session r built)).1
  unfolding upsert_session built
  inserted-IsWellFormed free room =
      elim (CoreResult-cases (validate_external_session_id built.external_session_id)) [
        | inl (_, v) ↦
            rw (v, upsert_session)
              (fresh-IsWellFormed r built h
                (ap (HashMap.get r.sessions) (builds _).0 ∙ no_collision free)
                (ap (HashMap.get r.external_index) (builds _).1 ∙ free) room)
        | inr (e, v) ↦ rw (v, upsert_session) h
      ]

  -- On a well-formed registry, an insertion never meets an index entry without its session, whatever
  -- it answers, and leaves the registry well-formed.
  pub insert_new_session-IsWellFormed :
      (x : CoreResult (AgentSession × Bool) × SessionRegistry) × (outcome ≡ some x)
      × IsWellFormed x.1
  unfolding insert_new_session built
  insert_new_session-IsWellFormed =
      elim (CoreResult-cases (validate_external_session_id external)) [
        | inr (e, v) ↦ ((err e, r), rw (v, insert_new_session), h)
        | inl (_, v) ↦
            elim (Option-cases (HashMap.get r.external_index (external_key source external))) [
              | inr (id, known) ↦ elim (Option-cases (HashMap.get r.sessions id)) [
                | inl lost ↦
                    absurd (unfold HashMap.contains_key in ground (arith, h.resolved _ id known))
                | inr (s, found) ↦ (
                  (ok (s, true), r),
                  rw (v, insert_new_session) (rw (known, insert_new_session) (rw found)),
                  h,
                )
              ]
              | inl free ↦ elim (Bool-cases (leb max_sessions (HashMap.size r.sessions))) [
                | inl full ↦ (
                  (err (session_capacity max_sessions), r),
                  rw (v, insert_new_session) (rw (free, insert_new_session) (rw full refl)),
                  h,
                )
                | inr room ↦ (
                  inserted built (upsert_session r built),
                  rw (v, insert_new_session) (rw (free, insert_new_session) (rw room refl)),
                  inserted-IsWellFormed free (ground arith),
                )
              ]
            ]
      ]
