-- ===== src/Decision/Answers/Honest/Answering.antt =====
-- crates/notch-decision/src/broker.rs: the answers and the transport's reports keep the entries honest.
use llm_notch.Prelude.{
  String, ◌≡◌, refl, true, Option, none, some, ◌==◌, text_key, eq_iff, arith, inl, inr, Bool-cases,
  Option-cases,
}
use llm_notch.Prelude.Int.{ℤ, ◌<ℤ◌, leb_ℤ}
use llm_notch.HashMap
use llm_notch.Protocol.{DecisionResponse, DecisionResponseAction}
use llm_notch.Decision.Types.{InternalDeliveryState, ActiveDecision}
use llm_notch.Decision.Claude.{BuildResult, built, refused}
use llm_notch.Decision.Adapter.{
  Vendor, neutral_stdout, AdapterBuildError, capability_disabled, question_unsupported,
  unsupported_hook, build_failed,
}
use llm_notch.Decision.Broker.{is_chosen, DecisionBroker, finalize_expired, forget, wake_waiter}
use llm_notch.Decision.Answers.{
  deliver_from, observe_from, with_state, set_state, persist_state, build_stdout_for_active,
  fail_answer, answer, submit_valid, submit_decision, mark_delivered, mark_failed, observe_effect,
  validate_response, neutral_text, is_pending,
}
use llm_notch.Decision.Answers.Honest.{IsHonestAs, IsHonest, AllHonest-insert, AllHonest-remove}

module _ (vendor : Vendor) (asked : String → DecisionResponse → ℤ → Type 0) where
  fail_answer-IsHonest :
      (b : DecisionBroker) (id : String) (a : ActiveDecision) (response : Option DecisionResponse)
      (now : ℤ) (detail : String)
      → IsHonest vendor asked b
      → IsHonest vendor asked (fail_answer b id a response now detail).1
  unfolding fail_answer set_state persist_state wake_waiter
  fail_answer-IsHonest b id a response now detail h =
      AllHonest-insert vendor asked b.active id (with_state a (InternalDeliveryState.failed detail))
        h tt

  answer-IsHonest :
      (b : DecisionBroker) (id : String) (a : ActiveDecision) (response : DecisionResponse)
      (now : ℤ) (outcome : BuildResult AdapterBuildError String)
      → build_stdout_for_active vendor a response ≡ outcome
      → a.request.has_actionable_payload ≡ true
      → now <ℤ a.expires_at_ms
      → asked id response now
      → IsHonest vendor asked b
      → IsHonest vendor asked (answer b id a response now outcome).1
  unfolding answer set_state persist_state wake_waiter build_stdout_for_active
  answer-IsHonest b id a response now (refused capability_disabled) e actionable in_time said h =
      fail_answer-IsHonest b id a (some response) now _ h
  answer-IsHonest b id a response now (refused question_unsupported) e actionable in_time said h =
      fail_answer-IsHonest b id a none now _ h
  answer-IsHonest b id a response now (refused (unsupported_hook _)) e actionable in_time said h =
      fail_answer-IsHonest b id a none now _ h
  answer-IsHonest b id a response now (refused (build_failed _)) e actionable in_time said h =
      fail_answer-IsHonest b id a none now _ h
  answer-IsHonest b id a response now (built out) e actionable in_time said h =
      elim (Bool-cases (out == neutral_stdout)) [
        | inl idle ↦
            rw (idle, answer) (fail_answer-IsHonest b id a (some response) now neutral_text h)
        | inr acts ↦
            rw (acts, answer)
              (AllHonest-insert vendor asked b.active id
                (with_state a (InternalDeliveryState.chosen response now out)) h
                (record {
                  submitted = said;
                  actionable = actionable;
                  in_time = in_time;
                  built_from = e;
                  acts = λ same. ground (arith, eq_iff out neutral_stdout);
                }))
      ]

  submit_valid-IsHonest :
      (b : DecisionBroker) (id : String) (response : DecisionResponse) (now : ℤ)
      → asked id response now
      → IsHonest vendor asked b
      → IsHonest vendor asked (submit_valid vendor b id response now).1
  unfolding submit_valid finalize_expired forget wake_waiter
  submit_valid-IsHonest b id response now said h = elim (Option-cases (HashMap.get b.active id)) [
    | inl e ↦ rw (e, submit_valid) h
    | inr (a, e) ↦ elim (Bool-cases (is_pending a.internal_state)) [
      | inr over ↦ rw (e, submit_valid) (rw over h)
      | inl live ↦ elim (Bool-cases (leb_ℤ a.expires_at_ms now)) [
        | inl late ↦
            rw (e, submit_valid) (rw live (rw late (AllHonest-remove vendor asked b.active id h)))
        | inr early ↦ elim (Bool-cases a.request.has_actionable_payload) [
          | inr idle ↦ rw (e, submit_valid) (rw live (rw early (rw idle h)))
          | inl acts ↦
              rw (e, submit_valid)
                (rw live (
                  rw early (
                    simp acts (
                      answer-IsHonest b id a response now
                        (build_stdout_for_active vendor a response) refl acts (ground arith) said
                        h))))
        ]
      ]
    ]
  ]

  pub submit_decision-IsHonest :
      (b : DecisionBroker) (id : String) (response : DecisionResponse) (now : ℤ)
      → asked id response now
      → IsHonest vendor asked b
      → IsHonest vendor asked (submit_decision vendor b id response now).1
  unfolding submit_decision validate_response
  submit_decision-IsHonest b id (DecisionResponse.answer _) now said h = h
  submit_decision-IsHonest b id (DecisionResponse.action DecisionResponseAction.allow) now said h =
      submit_valid-IsHonest b id (DecisionResponse.action DecisionResponseAction.allow) now said h
  submit_decision-IsHonest b id (DecisionResponse.action DecisionResponseAction.deny) now said h =
      submit_valid-IsHonest b id (DecisionResponse.action DecisionResponseAction.deny) now said h

  deliver_from-IsHonest :
      (b : DecisionBroker) (id : String) (a : ActiveDecision) (state : InternalDeliveryState)
      → IsHonest vendor asked b
      → IsHonestAs vendor asked id a state
      → IsHonest vendor asked (deliver_from b id a state).1
  unfolding deliver_from set_state persist_state build_stdout_for_active
  deliver_from-IsHonest b id a (InternalDeliveryState.chosen response at out) h ha =
      AllHonest-insert vendor asked b.active id
        (with_state a (InternalDeliveryState.delivered out at)) h
        (
          response,
          record {
            submitted = ha.submitted;
            actionable = ha.actionable;
            in_time = ha.in_time;
            built_from = ha.built_from;
            acts = ha.acts;
          },
        )
  deliver_from-IsHonest b id a _ h ha = h

  pub mark_delivered-IsHonest :
      (b : DecisionBroker) (id : String)
      → IsHonest vendor asked b
      → IsHonest vendor asked (mark_delivered b id).1
  unfolding mark_delivered
  mark_delivered-IsHonest b id h = elim (Option-cases (HashMap.get b.active id)) [
    | inl e ↦ rw (e, mark_delivered) h
    | inr (a, e) ↦
        rw (e, mark_delivered) (deliver_from-IsHonest b id a a.internal_state h (h id a e))
  ]

  pub mark_failed-IsHonest :
      (b : DecisionBroker) (id detail : String)
      → IsHonest vendor asked b
      → IsHonest vendor asked (mark_failed b id detail).1
  unfolding mark_failed set_state persist_state
  mark_failed-IsHonest b id detail h = elim (Option-cases (HashMap.get b.active id)) [
    | inl e ↦ rw (e, mark_failed) h
    | inr (a, e) ↦ elim (Bool-cases (is_chosen a.internal_state)) [
      | inr other ↦ rw (e, mark_failed) (rw other h)
      | inl chosen ↦
          rw (e, mark_failed)
            (rw chosen (
              AllHonest-insert vendor asked b.active id
                (with_state a (InternalDeliveryState.failed detail)) h tt))
    ]
  ]

  observe_from-IsHonest :
      (b : DecisionBroker) (id evidence : String) (now : ℤ) (a : ActiveDecision)
      (state : InternalDeliveryState)
      → IsHonest vendor asked b
      → IsHonestAs vendor asked id a state
      → IsHonest vendor asked (observe_from b id evidence now a state).1
  unfolding observe_from build_stdout_for_active
  observe_from-IsHonest b id evidence now a (InternalDeliveryState.delivered out at) h
        (response, ha) =
      AllHonest-insert vendor asked b.active id
        (with_state a (InternalDeliveryState.effect_observed evidence now)) h
        (
          response,
          at,
          out,
          record {
            submitted = ha.submitted;
            actionable = ha.actionable;
            in_time = ha.in_time;
            built_from = ha.built_from;
            acts = ha.acts;
          },
        )
  observe_from-IsHonest b id evidence now a _ h ha = h

  pub observe_effect-IsHonest :
      (b : DecisionBroker) (id evidence : String) (now : ℤ)
      → IsHonest vendor asked b
      → IsHonest vendor asked (observe_effect b id evidence now).1
  unfolding observe_effect
  observe_effect-IsHonest b id evidence now h = elim (Option-cases (HashMap.get b.active id)) [
    | inl e ↦ rw (e, observe_effect) h
    | inr (a, e) ↦
        rw (e, observe_effect)
          (observe_from-IsHonest b id evidence now a a.internal_state h (h id a e))
  ]
