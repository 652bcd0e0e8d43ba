-- ===== src/Decision/Answers/Submission.antt =====
-- crates/notch-decision/src/broker.rs: which answers are accepted, and what follows.
use llm_notch.Prelude.{
  String, ◌≡◌, ◌≢◌, refl, ap, ◌∙◌, subst, true, false, none, some, ◌==◌, text_key, eq_iff, arith,
  inl, inr, ◌↔◌, Option-cases,
}
use llm_notch.Prelude.Int.{ℤ, ◌<ℤ◌, leb_ℤ}
use llm_notch.HashMap
use llm_notch.HashMap.Laws.{get-insert, get-remove, beq_refl}
use llm_notch.Protocol.{DecisionResponse, DecisionResponseRecord, DecisionResponseAction}
use llm_notch.Decision.Types.{
  InternalDeliveryState, ActiveDecision, BrokerError, BrokerResult, ok, err,
}
use llm_notch.Decision.Claude.{BuildResult, built, refused}
use llm_notch.Decision.Adapter.{
  Vendor, neutral_stdout, AdapterBuildError, capability_disabled, question_unsupported,
  unsupported_hook, build_failed,
}
use llm_notch.Decision.Broker.{DecisionBroker, forget, wake_waiter}
use llm_notch.Decision.Answers.{
  with_state, set_state, persist_state, build_stdout_for_active, fail_answer, answer, submit_valid,
  submit_decision, mark_delivered, confirm_delivery, forget_if_ok, observe_effect,
  validate_response, is_pending,
}

abbrev pub IsOk {ℓ} : {A : Type ℓ} → BrokerResult A → Type 0
IsOk (ok _) = Unit
IsOk (err _) = ⊥

-- What an answer needs.
pub record IsAcceptable (vendor : Vendor) (b : DecisionBroker) (id : String)
    (response : DecisionResponse) (now : ℤ) : Type 0 where
  pub valid : validate_response response ≡ ok tt
  pub decision : ActiveDecision
  pub known : HashMap.get b.active id ≡ some decision
  pub waits : decision.internal_state ≡ InternalDeliveryState.pending
  pub in_time : now <ℤ decision.expires_at_ms
  pub actionable : decision.request.has_actionable_payload ≡ true
  pub stdout : String
  pub builds : build_stdout_for_active vendor decision response ≡ built stdout
  pub acts : stdout ≢ neutral_stdout

answer-IsOk :
    (b : DecisionBroker) (id : String) (a : ActiveDecision) (response : DecisionResponse) (now : ℤ)
    (outcome : BuildResult AdapterBuildError String)
    → IsOk (answer b id a response now outcome).0
    → (out : String) × (outcome ≡ built out)
      × (out ≢ neutral_stdout)
      × (HashMap.get (answer b id a response now outcome).1.active id
          ≡ some (with_state a (InternalDeliveryState.chosen response now out)))
unfolding answer set_state persist_state wake_waiter fail_answer
answer-IsOk b id a response now (refused capability_disabled) h = absurd h
answer-IsOk b id a response now (refused question_unsupported) h = absurd h
answer-IsOk b id a response now (refused (unsupported_hook _)) h = absurd h
answer-IsOk b id a response now (refused (build_failed _)) h = absurd h
answer-IsOk b id a response now (built out) h = (
  out,
  refl,
  λ same. ground (arith, eq_iff out neutral_stdout),
  ground (
    arith,
    get-insert b.active id (with_state a (InternalDeliveryState.chosen response now out)) id,
    beq_refl id,
  ),
)

pending_of : (s : InternalDeliveryState) → is_pending s ≡ true → s ≡ InternalDeliveryState.pending
pending_of s h = ground arith

submit_valid-IsOk :
    (vendor : Vendor) (b : DecisionBroker) (id : String) (response : DecisionResponse) (now : ℤ)
    → validate_response response ≡ ok tt
    → IsOk (submit_valid vendor b id response now).0
    → (c : IsAcceptable vendor b id response now) × (HashMap.get
          (submit_valid vendor b id response now).1.active
          id
        ≡ some (with_state c.decision (InternalDeliveryState.chosen response now c.stdout)))
unfolding submit_valid
submit_valid-IsOk vendor b id response now valid h = elim (Option-cases (HashMap.get b.active id)) [
  | inl e ↦ absurd (ground arith)
  | inr (a, e) ↦
      let live : is_pending a.internal_state ≡ true = ground arith in
      let early : leb_ℤ a.expires_at_ms now ≡ false = ground arith in
      let acts : a.request.has_actionable_payload ≡ true = ground arith in
      let same : submit_valid vendor b id response now
          ≡ answer b id a response now (build_stdout_for_active vendor a response) =
        rw (e, submit_valid) (rw live (rw early (simp acts refl))) in
      let r =
        answer-IsOk b id a response now (build_stdout_for_active vendor a response)
          (subst (λ x. IsOk x.0) same h) in
      (
        record {
          valid = valid;
          decision = a;
          known = e;
          waits = pending_of a.internal_state live;
          in_time = ground arith;
          actionable = acts;
          stdout = r.0;
          builds = r.1;
          acts = r.2;
        },
        ap (λ x. HashMap.get x.1.active id) same ∙ r.3,
      )
]

submit_valid-accepts :
    (vendor : Vendor) (b : DecisionBroker) (id : String) (response : DecisionResponse) (now : ℤ)
    → IsAcceptable vendor b id response now
    → IsOk (submit_valid vendor b id response now).0
unfolding submit_valid answer build_stdout_for_active
submit_valid-accepts vendor b id response now c =
    let live : is_pending c.decision.internal_state ≡ true = ap is_pending c.waits in
    let early : leb_ℤ c.decision.expires_at_ms now ≡ false = ground (arith, c.in_time) in
    let acts : (c.stdout == neutral_stdout) ≡ false =
      ground (arith, eq_iff c.stdout neutral_stdout, c.acts) in
    rw (c.known, submit_valid)
      (rw live (rw early (simp c.actionable (simp c.builds (rw (acts, answer) tt)))))

refused_answer : (r : BrokerResult (Unit {0})) (e : BrokerError) → r ≡ err e → r ≡ ok tt → ⊥
refused_answer r e q h = ground arith

-- The decision was there and the adapter builds the output that is now stored in it.
pub record IsStored (vendor : Vendor) (b c : DecisionBroker) (id : String)
    (response : DecisionResponse) (now : ℤ) : Type 0 where
  pub decision : ActiveDecision
  pub known : HashMap.get b.active id ≡ some decision
  pub stdout : String
  pub builds : build_stdout_for_active vendor decision response ≡ built stdout
  pub stored :
      HashMap.get c.active id
      ≡ some (with_state decision (InternalDeliveryState.chosen response now stdout))

submit_valid-IsStored :
    (vendor : Vendor) (b : DecisionBroker) (id : String) (response : DecisionResponse) (now : ℤ)
    → validate_response response ≡ ok tt
    → IsOk (submit_valid vendor b id response now).0
    → IsStored vendor b (submit_valid vendor b id response now).1 id response now
submit_valid-IsStored vendor b id response now valid h =
    let (c, stored) = submit_valid-IsOk vendor b id response now valid h in
    record {
      decision = c.decision;
      known = c.known;
      stdout = c.stdout;
      builds = c.builds;
      stored = stored;
    }

-- An answer is accepted exactly when it is an action, the decision is known and waits for one, has
-- something to act on and has not expired, and the adapter builds an output that is not the neutral
-- one. Then the entry is that decision with the answer, its time, and the output that the adapter
-- builds from them.
pub submit_decision_iff :
    (vendor : Vendor) (b : DecisionBroker) (id : String) (response : DecisionResponse) (now : ℤ)
    → (IsOk (submit_decision vendor b id response now).0 ↔ IsAcceptable vendor b id response now)
      × (IsOk (submit_decision vendor b id response now).0
          → IsStored vendor b (submit_decision vendor b id response now).1 id response now)
unfolding submit_decision validate_response
submit_decision_iff vendor b id (DecisionResponse.answer _) now =
    ((λ h. absurd h, λ c. absurd (refused_answer _ _ refl c.valid)), λ h. absurd h)
submit_decision_iff vendor b id (DecisionResponse.action DecisionResponseAction.allow) now =
    let r : DecisionResponse = DecisionResponse.action DecisionResponseAction.allow in
    (
      (λ h. (submit_valid-IsOk vendor b id r now refl h).0, submit_valid-accepts vendor b id r now),
      submit_valid-IsStored vendor b id r now refl,
    )
submit_decision_iff vendor b id (DecisionResponse.action DecisionResponseAction.deny) now =
    let r : DecisionResponse = DecisionResponse.action DecisionResponseAction.deny in
    (
      (λ h. (submit_valid-IsOk vendor b id r now refl h).0, submit_valid-accepts vendor b id r now),
      submit_valid-IsStored vendor b id r now refl,
    )

-- Why a response is refused where the decision is final: for what it is, or for that.
abbrev pub refusal_when_final : BrokerResult (Unit {0}) → BrokerError
refusal_when_final (ok _) = BrokerError.already_finalized
refusal_when_final (err e) = e

-- A decision takes one answer: after one is accepted, any other on it is refused and changes nothing,
-- unless a step between the two changes the entry. A response that is no action is refused as such,
-- every other one as already final.
pub submit-submit :
    (vendor : Vendor) (b c : DecisionBroker) (id : String) (response other : DecisionResponse)
    (now later : ℤ)
    → IsOk (submit_decision vendor b id response now).0
    → HashMap.get c.active id ≡ HashMap.get (submit_decision vendor b id response now).1.active id
    → submit_decision vendor c id other later
      ≡ (err (refusal_when_final (validate_response other)), c)
unfolding submit_decision submit_valid
submit-submit vendor b c id response other now later h kept =
    let first = (submit_decision_iff vendor b id response now).1 h in
    let e = kept ∙ first.stored in
    elim (validate_response other)
      as (λ v.
        (elim v as (λ _. BrokerResult DecisionResponseRecord × DecisionBroker) [
          | err x ↦ (err x, c)
          | ok _ ↦ submit_valid vendor c id other later
        ])
        ≡ (err (refusal_when_final v), c)) [ err x ↦ refl | ok _ ↦ rw (e, submit_valid) refl ]

confirmed_gone :
    (b : DecisionBroker) (id : String) (m : BrokerResult (Unit {0}) × DecisionBroker)
    → (forget_if_ok id m).0 ≡ ok tt
    → HashMap.get (forget_if_ok id m).1.active id ≡ none
unfolding forget_if_ok forget
confirmed_gone b id (ok _, c) h = rw (get-remove c.active id id) (rw (beq_refl id) refl)
confirmed_gone b id (err e, c) h = absurd (refused_answer _ e refl h)

-- After a delivery is confirmed, the observation of its effect does not find the decision.
pub observe-confirm :
    (b : DecisionBroker) (id evidence : String) (now : ℤ)
    → (confirm_delivery b id).0 ≡ ok tt
    → observe_effect (confirm_delivery b id).1 id evidence now
      ≡ (err BrokerError.not_found, (confirm_delivery b id).1)
unfolding observe_effect confirm_delivery
observe-confirm b id evidence now h =
    let gone : HashMap.get (confirm_delivery b id).1.active id ≡ none =
      confirmed_gone b id (mark_delivered b id) h in
    rw (gone, observe_effect) refl
