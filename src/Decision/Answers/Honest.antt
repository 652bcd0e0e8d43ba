-- ===== src/Decision/Answers/Honest.antt =====
-- crates/notch-decision/src/broker.rs: what an entry's state says of the person's answer, in every
-- broker that the operations reach in any order.
pub mod Answering
pub mod Run
use llm_notch.Prelude.{
  ℕ, String, ◌≡◌, ◌≢◌, refl, sym, ap, ◌∙◌, subst, Bool, true, false, Option, none, some,
  if◌then◌else◌, ◌==◌, text_key, eq_iff, arith, inl, inr, ◌⊎◌, Bool-cases, Option-cases,
}
use llm_notch.Prelude.Int.{ℤ, ◌<ℤ◌, leb_ℤ}
use llm_notch.HashMap
use llm_notch.HashMap.Laws.{get-insert, get-remove}
use llm_notch.Protocol.{AgentSource, DecisionResponse, DecisionResponseAction}
use llm_notch.Decision.Types.{
  DecisionWaitPayload, DecisionReplyPayload, InternalDeliveryState, ActiveDecision, is_terminal,
}
use llm_notch.Decision.Claude.{BuildResult, built, refused}
use llm_notch.Decision.Adapter.{
  Vendor, neutral_stdout, AdapterBuildError, capability_disabled, question_unsupported,
  unsupported_hook, build_failed,
}
use llm_notch.Decision.Store.{DecisionStore}
use llm_notch.Decision.Broker.{
  is_chosen, DecisionBroker, registered, enter, register, finalize_expired, expire_decision,
  reply_of, retire, retain_active, forget, wake_waiter, reply_for_active,
}
use llm_notch.Decision.Answers.{
  deliver_from, observe_from, with_state, set_state, persist_state, build_stdout_for_active,
  fail_answer, answer, submit_valid, submit_decision, mark_delivered, mark_failed, observe_effect,
  validate_response, neutral_text, is_pending,
}

pub enter_active :
    (hash : AgentSource → String → String) (b : DecisionBroker) (payload : DecisionWaitPayload)
    (fresh : ℕ)
    → (enter hash b payload fresh).1.active
      ≡ HashMap.insert b.active payload.nonce (registered hash b payload)
unfolding enter
enter_active hash b payload fresh = ground arith

-- `asked` tells the answers that were submitted: the decision, the response and the time.
module _ (vendor : Vendor) (asked : String → DecisionResponse → ℤ → Type 0) where
  -- The entry's output is what the adapter builds from a response that was submitted for the entry,
  -- at a time before it expired, on a decision that can be acted on.
  pub record IsAnswered (id : String) (a : ActiveDecision) (response : DecisionResponse) (at : ℤ)
      (out : String) : Type 0 where
    pub submitted : asked id response at
    pub actionable : a.request.has_actionable_payload ≡ true
    pub in_time : at <ℤ a.expires_at_ms
    pub built_from : build_stdout_for_active vendor a response ≡ built out
    pub acts : out ≢ neutral_stdout

  -- A delivered entry no longer holds the response, an observed one neither that nor the output.
  abbrev pub IsHonestAs : String → ActiveDecision → InternalDeliveryState → Type 0
  IsHonestAs id a InternalDeliveryState.pending = Unit
  IsHonestAs id a (InternalDeliveryState.chosen response at out) = IsAnswered id a response at out
  IsHonestAs id a (InternalDeliveryState.delivered out at) =
      (response : DecisionResponse) × IsAnswered id a response at out
  IsHonestAs id a (InternalDeliveryState.effect_observed _ _) =
      (response : DecisionResponse) × (at : ℤ) × (out : String) × IsAnswered id a response at out
  IsHonestAs id a InternalDeliveryState.expired = ⊥
  IsHonestAs id a (InternalDeliveryState.failed _) = Unit

  abbrev pub AllHonest : HashMap.HashMap String ActiveDecision → Type 0
  AllHonest m =
      (id : String) (a : ActiveDecision)
      → HashMap.get m id ≡ some a
      → IsHonestAs id a a.internal_state

  abbrev pub IsHonest : DecisionBroker → Type 0
  IsHonest b = AllHonest b.active

  pub AllHonest-insert :
      (m : HashMap.HashMap String ActiveDecision) (id : String) (a : ActiveDecision)
      → AllHonest m
      → IsHonestAs id a a.internal_state
      → AllHonest (HashMap.insert m id a)
  AllHonest-insert m id a h ha j x found =
      let p : (if id == j then some a else HashMap.get m j) ≡ some x =
        sym (get-insert m id a j) ∙ found in
      elim (Bool-cases (id == j)) [
        | inl same ↦
            let q : a ≡ x = cc in
            let k : id ≡ j = (eq_iff id j).0 same in
            subst (λ y. IsHonestAs j y y.internal_state) q
              (subst (λ i. IsHonestAs i a a.internal_state) k ha)
        | inr other ↦ let q : HashMap.get m j ≡ some x = cc in h j x q
      ]

  pub AllHonest-remove :
      (m : HashMap.HashMap String ActiveDecision) (id : String)
      → AllHonest m
      → AllHonest (HashMap.remove m id)
  AllHonest-remove m id h j x found =
      let p : (if id == j then none else HashMap.get m j) ≡ some x =
        sym (get-remove m id j) ∙ found in
      elim (Bool-cases (id == j)) [
        | inl same ↦ let q : none ≡ some x = cc in absurd (ground arith)
        | inr other ↦ let q : HashMap.get m j ≡ some x = cc in h j x q
      ]

  pub enter-IsHonest :
      (hash : AgentSource → String → String) (b : DecisionBroker) (payload : DecisionWaitPayload)
      (fresh : ℕ)
      → IsHonest b
      → IsHonest (enter hash b payload fresh).1
  unfolding registered
  enter-IsHonest hash b payload fresh h =
      subst AllHonest (sym (enter_active hash b payload fresh))
        (AllHonest-insert b.active payload.nonce (registered hash b payload) h tt)

  pub register-IsHonest :
      (hash : AgentSource → String → String) (b : DecisionBroker) (payload : DecisionWaitPayload)
      (fresh : ℕ)
      → IsHonest b
      → IsHonest (register hash b payload fresh).1
  unfolding register
  register-IsHonest hash b payload fresh h =
      elim (Option-cases (HashMap.get b.active payload.nonce)) [
        | inl e ↦ rw (e, register) (enter-IsHonest hash b payload fresh h)
        | inr (a, e) ↦ elim (Bool-cases (a.connection_id == payload.connection_id)) [
          | inr other ↦ rw (e, register) (rw other h)
          | inl same ↦ elim (Bool-cases (is_terminal a.internal_state)) [
            | inl over ↦ rw (e, register) (rw same (rw over h))
            | inr live ↦
                rw (e, register) (rw same (rw live (enter-IsHonest hash b payload fresh h)))
          ]
        ]
      ]

  pub expire_decision-IsHonest :
      (b : DecisionBroker) (id : String) → IsHonest b → IsHonest (expire_decision b id)
  unfolding expire_decision finalize_expired
  expire_decision-IsHonest b id h = elim (Option-cases (HashMap.get b.active id)) [
    | inl e ↦ rw (e, expire_decision) h
    | inr (a, e) ↦ elim (Bool-cases (is_terminal a.internal_state)) [
      | inl over ↦
          rw (e, expire_decision)
            (rw over (
              AllHonest-insert (HashMap.remove b.active id) id a (AllHonest-remove b.active id h)
                (h id a e)))
      | inr live ↦ rw (e, expire_decision) (rw live (AllHonest-remove b.active id h))
    ]
  ]

  pub retire-IsHonest : (b : DecisionBroker) (id : String) → IsHonest b → IsHonest (retire b id)
  unfolding retire forget
  retire-IsHonest b id h = elim (Bool-cases (retain_active b id)) [
    | inl kept ↦ rw (kept, retire) h
    | inr gone ↦ rw (gone, retire) (AllHonest-remove b.active id h)
  ]
