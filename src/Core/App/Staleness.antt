-- ===== src/Core/App/Staleness.antt =====
-- crates/notch-core/src/app_core.rs: `mark_stale_sessions`, which `tick` runs.
pub mod Marked
use llm_notch.Prelude.{
  String, ◌≡◌, Bool, true, false, List, [], ◌∷◌, Option, none, some, if◌then◌else◌, retain, map,
  text_key,
}
use llm_notch.Prelude.Int.{ℤ, pos, leb_ℤ, saturating_sub}
use llm_notch.HashMap
use llm_notch.Protocol.{AgentSession, SessionStatus, StreamPayload, StreamFrame, stale_session_ms}
use llm_notch.Core.Error.{CoreResult, ok, err}
use llm_notch.Core.Transitions.{is_terminal, validate_transition}
use llm_notch.Core.Registry.{SessionRegistry, update_session}
use llm_notch.Core.Repository.{SessionRepository}
use llm_notch.Core.App.{AppCoreInner, queue_payload, flush_pending}

-- A session that has not ended and was not heard of for half an hour.
unfoldable pub is_quiet : ℤ → AgentSession → Bool
unfolding is_terminal
is_quiet now session =
    if is_terminal session.status
    then false
    else leb_ℤ (pos stale_session_ms) (saturating_sub now session.last_event_at_ms)

unfoldable pub stale_at : ℤ → AgentSession → AgentSession
stale_at now session = record session {
  status = SessionStatus.stale;
  last_event_at_ms = now;
  latest_metric = none;
}

module _ {R : Type 0} (repository : SessionRepository R) (now : ℤ) where
  -- From the answer of the repository on.
  unfoldable pub saved_session :
      AppCoreInner
      → AgentSession
      → CoreResult (Unit {0}) × R
      → CoreResult (Unit {0}) × AppCoreInner × R
  unfolding queue_payload
  saved_session inner session (err e, store) = (err e, inner, store)
  saved_session inner session (ok _, store) =
      (ok tt, queue_payload inner (StreamPayload.session_upsert session), store)

  -- The body of the loop. `none` is the panic of `expect("stale session")`.
  unfoldable pub mark_session :
      AppCoreInner → R → String → Option (CoreResult (Unit {0}) × AppCoreInner × R)
  unfolding saved_session stale_at validate_transition update_session
  mark_session inner store session_id = elim (HashMap.get inner.registry.sessions session_id) [
    | none ↦ none
    | some session ↦ elim (validate_transition session.status SessionStatus.stale) [
      | err _ ↦ some (ok tt, inner, store)
      | ok _ ↦ some (
          saved_session
            (record inner { registry = update_session inner.registry session_id (stale_at now) })
            (stale_at now session) (repository.upsert_session store (stale_at now session)))
    ]
  ]

  unfoldable pub mark_each :
      AppCoreInner → R → List String → Option (CoreResult (Unit {0}) × AppCoreInner × R)
  unfolding mark_session
  mark_each inner store [] = some (ok tt, inner, store)
  mark_each inner store (id ∷ ids) = elim (mark_session inner store id) [
    | none ↦ none
    | some r ↦ elim r.0 [ err e ↦ some r | ok _ ↦ mark_each r.1 r.2 ids ]
  ]

  unfoldable pub mark_stale_sessions :
      AppCoreInner → R → Option (CoreResult (Unit {0}) × AppCoreInner × R)
  unfolding mark_each is_quiet
  mark_stale_sessions inner store =
      mark_each inner store
        (map (λ s. s.id) (retain (is_quiet now) (HashMap.values inner.registry.sessions)))

  -- `tick`: an error of the repository comes before the flush. The frames go to the sink. The clock
  -- is read again for them.
  unfoldable pub tick :
      AppCoreInner → R → ℤ → Option (CoreResult (List StreamFrame) × AppCoreInner × R)
  unfolding mark_stale_sessions flush_pending
  tick inner store flushed_at = elim (mark_stale_sessions inner store) [
    | none ↦ none
    | some r ↦ elim r.0 [
      | err e ↦ some (err e, r.1, r.2)
      | ok _ ↦ let sent = flush_pending r.1 flushed_at in some (ok sent.0, sent.1, r.2)
    ]
  ]
