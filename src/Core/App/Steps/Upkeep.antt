-- ===== src/Core/App/Steps/Upkeep.antt =====
-- Metrics, retention and staleness, by the registry's steps.
use llm_notch.Prelude.{
  String, ◌≡◌, refl, sym, ap, ◌∙◌, subst, Bool, List, [], ◌∷◌, Option, none, some, inl, inr,
  Option-cases, text_key, ltb,
}
use llm_notch.Prelude.Int.{ℤ}
use llm_notch.HashMap
use llm_notch.Protocol.{AgentSource, MetricSample, MetricsFrame, StreamPayload, StreamFrame}
use llm_notch.Core.Error.{CoreResult, ok, err, CoreResult-cases}
use llm_notch.Core.Registry.{SessionRegistry}
use llm_notch.Core.Registry.Invariant.Reachable.{Step, Reach}
use llm_notch.Core.Repository.{SessionRepository}
use llm_notch.Core.App.{AppCoreInner, flush_pending}
use llm_notch.Core.App.Handler.Outcome.{after}
use llm_notch.Core.App.Handler.Outcome.Ends.{succeeds}
use llm_notch.Core.App.Records.{
  with_metric, record_agents, set_metric, set_metrics, keep_frame, record_metrics, drop_metrics,
  purge_metric_history, purge_session_events, purge_history, purge_scoped,
}
use llm_notch.Core.App.Staleness.{mark_each, mark_stale_sessions, stale_at, tick}
use llm_notch.Core.App.Staleness.Marked.{mark_session-get, mark_each_step, mark_each_absent}
use llm_notch.Core.App.Steps.{
  At, Takes, Anything, bool_lem, calls_lem, gets_lem, returns_lem, queue_lem, write_lem,
}
use llm_notch.Core.App.Steps.Serving.{flush_lem, flush_pending-registry}

module _ {R : Type 0} (repository : SessionRepository R)
    {session_id_for : AgentSource → String → String} {start : SessionRegistry} where
  record_agents_lem :
      (bucket : ℤ) (agents : List (String × MetricSample))
      → Takes session_id_for start Anything (record_agents repository bucket agents) (λ _. Anything)
  unfolding record_agents
  record_agents_lem bucket [] = returns_lem tt
  record_agents_lem bucket ((id, sample) ∷ agents) =
      after (calls_lem _) λ _. record_agents_lem bucket agents

  set_metric_lem :
      (frame : MetricsFrame) (id : String)
      → Takes session_id_for start Anything (set_metric repository frame id) (λ _. Anything)
  unfolding set_metric with_metric
  set_metric_lem frame id = record {
    run = λ i s p. elim (Option-cases (HashMap.get i.registry.sessions id)) [
      | inl absent ↦ rw (absent, set_metric) (succeeds p)
      | inr (t, there) ↦
          rw (there, set_metric)
            ((after (write_lem id (with_metric frame id) (λ t. record { id = refl; key = refl }))
                λ _. calls_lem _).run
              i s p)
    ];
  }

  set_metrics_lem :
      (frame : MetricsFrame) (ids : List String)
      → Takes session_id_for start Anything (set_metrics repository frame ids) (λ _. Anything)
  unfolding set_metrics
  set_metrics_lem frame [] = returns_lem tt
  set_metrics_lem frame (id ∷ ids) = after (set_metric_lem frame id) λ _. set_metrics_lem frame ids

  keep_frame_lem :
      (frame : MetricsFrame) (now : ℤ)
      → Takes session_id_for start Anything (keep_frame repository frame now) (λ _. Anything)
  unfolding keep_frame
  keep_frame_lem frame now = record {
    run = λ i s p. succeeds (record { goes = p.goes; holds = tt });
  }

  pub record_metrics_lem :
      (frame : MetricsFrame) (now flushed_at : ℤ)
      → Takes session_id_for start Anything
          (record_metrics repository frame now flushed_at)
          (λ _. Anything)
  unfolding record_metrics
  record_metrics_lem frame now flushed_at = after (calls_lem _) λ _. after (calls_lem _) λ _.
      after (record_agents_lem _ frame.agents) λ _. after (gets_lem _) λ ids.
        after (set_metrics_lem frame ids) λ _.
          after (keep_frame_lem frame now)
            λ _. after (queue_lem (StreamPayload.metrics frame)) λ _. flush_lem flushed_at

  drop_metrics_lem : Takes session_id_for start Anything (drop_metrics repository) (λ _. Anything)
  unfolding drop_metrics
  drop_metrics_lem = record {
    run = λ i s p.
        succeeds (record { goes = Reach.next p.goes (Step.clears_metrics i.registry); holds = tt });
  }

  purge_metric_history_lem :
      Takes session_id_for start Anything (purge_metric_history repository) (λ _. Anything)
  unfolding purge_metric_history
  purge_metric_history_lem =
      after (calls_lem _) λ removed. after drop_metrics_lem λ _. returns_lem removed

  purge_session_events_lem :
      Takes session_id_for start Anything (purge_session_events repository) (λ _. Anything)
  unfolding purge_session_events
  purge_session_events_lem = after (calls_lem _) λ removed.
      after {M = λ _. At session_id_for start Anything}
        (record {
          run = λ i s p.
              succeeds
                (record { goes = Reach.next p.goes (Step.clears_events i.registry); holds = tt });
        })
        λ _. returns_lem removed

  pub purge_history_lem :
      (now : ℤ) → Takes session_id_for start Anything (purge_history repository now) (λ _. Anything)
  unfolding purge_history
  purge_history_lem now = after (gets_lem _) λ hours. after (calls_lem _) λ report.
      after (bool_lem (ltb 0 report.metric_buckets_deleted) drop_metrics_lem (returns_lem tt))
        λ _. returns_lem report

  pub purge_scoped_lem :
      (history session_events : Bool)
      → Takes session_id_for start Anything
          (purge_scoped repository history session_events)
          (λ _. Anything)
  unfolding purge_scoped
  purge_scoped_lem history session_events =
      after (bool_lem history purge_metric_history_lem (returns_lem 0)) λ rows.
        after (bool_lem session_events purge_session_events_lem (returns_lem 0))
          λ events. returns_lem (rows, events)

module _ {R : Type 0} {session_id_for : AgentSource → String → String}
    {start : SessionRegistry} where
  same_registry :
      (r x : CoreResult (Unit {0}) × AppCoreInner × R)
      → ◌≡◌ {A = Option (CoreResult (Unit {0}) × AppCoreInner × R)} (some r) (some x)
      → Reach session_id_for start r.1.registry
      → Reach session_id_for start x.1.registry
  same_registry r x same goes =
      subst (Reach session_id_for start)
        (ap (λ o. elim o [ none ↦ r.1.registry | some y ↦ y.1.registry ]) same) goes

module _ {R : Type 0} (repository : SessionRepository R) (now : ℤ)
    {session_id_for : AgentSource → String → String} {start : SessionRegistry} where
  -- Marking stops at an error of the repository, and the sessions before it stay marked.
  mark_each_goes :
      (inner : AppCoreInner) (store : R) (ids : List String)
      (x : CoreResult (Unit {0}) × AppCoreInner × R)
      → Reach session_id_for start inner.registry
      → mark_each repository now inner store ids ≡ some x
      → Reach session_id_for start x.1.registry
  mark_each_goes inner store [] x goes ran =
      let same : ◌≡◌ {A = Option (CoreResult (Unit {0}) × AppCoreInner × R)}
          (some (ok tt, inner, store)) (some x) =
        unfold mark_each in ran in
      same_registry (ok tt, inner, store) x same goes
  mark_each_goes inner store (id ∷ ids) x goes ran =
      elim (Option-cases (HashMap.get inner.registry.sessions id)) [
        | inl absent ↦
            absurd (cc (sym ran ∙ mark_each_absent repository now inner store id ids absent))
        | inr (s, found) ↦
            let (r, one, next) = mark_session-get repository now inner store id s found in
            let step = mark_each_step repository now inner store id ids r one in
            let moved = subst (Reach session_id_for start) (sym next) (
              Reach.next goes (
                Step.updates inner.registry id (stale_at now)
                  (λ t. unfold stale_at in record { id = refl; key = refl }))) in
            elim (CoreResult-cases r.0) [
              | inr (e, failed) ↦ same_registry r x (sym (step ∙ rw failed refl) ∙ ran) moved
              | inl (u, fine) ↦ mark_each_goes r.1 r.2 ids x moved (sym (step ∙ rw fine refl) ∙ ran)
            ]
      ]

module _ {R : Type 0} (repository : SessionRepository R) (now : ℤ)
    {session_id_for : AgentSource → String → String} where
  pub tick_goes :
      (inner inner' : AppCoreInner) (store store' : R) (flushed_at : ℤ)
      (result : CoreResult (List StreamFrame))
      → tick repository now inner store flushed_at ≡ some (result, inner', store')
      → Reach session_id_for inner.registry inner'.registry
  unfolding tick
  tick_goes inner inner' store store' flushed_at result ran =
      let left : AppCoreInner
          → Option (CoreResult (List StreamFrame) × AppCoreInner × R)
          → SessionRegistry =
        λ j o. elim o [ none ↦ j.registry | some y ↦ y.1.registry ] in
      elim (Option-cases (mark_stale_sessions repository now inner store)) [
        | inl panicked ↦
            let stopped : tick repository now inner store flushed_at ≡ none =
              rw (panicked, tick) refl in
            absurd (cc (sym stopped ∙ ran))
        | inr (r, marked) ↦
            let goes =
              mark_each_goes repository now inner store _ r Reach.here
                (unfold mark_stale_sessions in marked) in
            elim (CoreResult-cases r.0) [
              | inr (e, failed) ↦
                  let stopped : tick repository now inner store flushed_at
                      ≡ some (err e, r.1, r.2) =
                    rw (marked, tick) (rw failed refl) in
                  subst (Reach session_id_for inner.registry) (ap (left r.1) (sym stopped ∙ ran))
                    goes
              | inl (u, fine) ↦
                  let sent : tick repository now inner store flushed_at
                      ≡ some (
                        ok (flush_pending r.1 flushed_at).0,
                        (flush_pending r.1 flushed_at).1,
                        r.2,
                      ) =
                    rw (marked, tick) (rw fine refl) in
                  subst (Reach session_id_for inner.registry)
                    (sym (flush_pending-registry r.1 flushed_at) ∙ ap (left r.1) (sym sent ∙ ran))
                    goes
            ]
      ]
