-- ===== src/Decision/Answers/Replies.antt =====
-- crates/notch-decision/src/broker.rs: what a waiting hook is answered.
use llm_notch.Prelude.{
  ℕ, String, [], ◌≡◌, ◌≢◌, refl, sym, ap, ◌∙◌, subst, true, false, some, ◌==◌, text_key, eq_iff,
  inl, inr, Option-cases,
}
use llm_notch.Prelude.Int.{ℤ}
use llm_notch.HashMap
use llm_notch.HashMap.Laws.{get-insert, beq_refl}
use llm_notch.Protocol.{AgentSource, DecisionResponse, DecisionDeliveryState}
use llm_notch.Decision.Types.{
  DecisionWaitPayload, InternalDeliveryState, ActiveDecision, is_terminal,
}
use llm_notch.Decision.Adapter.{Vendor, neutral_stdout}
use llm_notch.Decision.Broker.{
  DecisionBroker, registered, enter, register, reply_of, reply_in, reply_for_active, neutral_reply,
}
use llm_notch.Decision.Answers.Honest.{enter_active, IsAnswered, IsHonestAs}
use llm_notch.Decision.Answers.Honest.Run.{Run, Heard, Run-IsHonest}

reply_in-IsAnswered :
    (vendor : Vendor) (asked : String → DecisionResponse → ℤ → Type 0) (nonce : String)
    (a : ActiveDecision) (state : InternalDeliveryState)
    → IsHonestAs vendor asked nonce a state
    → (reply_in nonce state).stdout_json ≢ neutral_stdout
    → (response : DecisionResponse) × (at : ℤ) × IsAnswered vendor asked nonce a response at
        (reply_in nonce state).stdout_json
unfolding reply_in neutral_reply
reply_in-IsAnswered vendor asked nonce a InternalDeliveryState.pending h acts = absurd (acts refl)
reply_in-IsAnswered vendor asked nonce a (InternalDeliveryState.chosen response at out) h acts =
    (response, at, h)
reply_in-IsAnswered vendor asked nonce a (InternalDeliveryState.delivered out at) (response, h)
      acts =
    (response, at, h)
reply_in-IsAnswered vendor asked nonce a (InternalDeliveryState.effect_observed _ _) h acts =
    absurd (acts refl)
reply_in-IsAnswered vendor asked nonce a InternalDeliveryState.expired h acts = absurd h
reply_in-IsAnswered vendor asked nonce a (InternalDeliveryState.failed _) h acts =
    absurd (acts refl)

-- Whatever the tasks that share a broker did since it had no entry: a waiting hook that is then
-- answered with more than the neutral output is answered with what the adapter builds from a
-- response that was submitted for its own nonce, taken up at a time before the decision expired, on
-- a decision that can be acted on.
pub reply_of-IsAnswered :
    (vendor : Vendor) (hash : AgentSource → String → String) {b c : DecisionBroker}
    (run : Run vendor hash b c) (nonce : String)
    → b.active ≡ []
    → (reply_of c nonce).stdout_json ≢ neutral_stdout
    → (a : ActiveDecision) × (HashMap.get c.active nonce ≡ some a)
      × (response : DecisionResponse) × (at : ℤ) × IsAnswered vendor
          (Heard vendor hash run)
          nonce
          a
          response
          at
          (reply_of c nonce).stdout_json
unfolding reply_of neutral_reply reply_for_active
reply_of-IsAnswered vendor hash {c = c} run nonce empty acts =
    elim (Option-cases (HashMap.get c.active nonce)) [
      | inl e ↦ absurd (acts (rw (e, reply_of) refl))
      | inr (a, e) ↦
          let same : reply_of c nonce ≡ reply_in nonce a.internal_state = rw (e, reply_of) refl in
          let honest = Run-IsHonest vendor hash run empty nonce a e in
          let answered =
            reply_in-IsAnswered vendor (Heard vendor hash run) nonce a a.internal_state honest
              (λ q. acts (ap (λ p. p.stdout_json) same ∙ q)) in
          (
            a,
            e,
            answered.0,
            answered.1,
            subst
                (λ p.
                  IsAnswered vendor (Heard vendor hash run) nonce a answered.0 answered.1
                    p.stdout_json)
                (sym same) answered.2,
          )
    ]

-- A hook that asks again with its nonce and connection, while the decision is not final, makes the
-- entry wait as a new one does, also where it held an accepted answer: with no other answer the hook
-- is then answered with the neutral output, as if the decision had expired.
pub reply_of-register :
    (hash : AgentSource → String → String) (b : DecisionBroker) (payload : DecisionWaitPayload)
    (fresh : ℕ) (a : ActiveDecision)
    → HashMap.get b.active payload.nonce ≡ some a
    → a.connection_id ≡ payload.connection_id
    → is_terminal a.internal_state ≡ false
    → (HashMap.get (register hash b payload fresh).1.active payload.nonce
        ≡ some (registered hash b payload))
      × (reply_of (register hash b payload fresh).1 payload.nonce
          ≡ neutral_reply payload.nonce DecisionDeliveryState.expired)
unfolding register reply_of reply_for_active reply_in registered
reply_of-register hash b payload fresh a e same live =
    let on : (a.connection_id == payload.connection_id) ≡ true =
      (eq_iff a.connection_id payload.connection_id).1 same in
    let found : HashMap.get (enter hash b payload fresh).1.active payload.nonce
        ≡ some (registered hash b payload) =
      ap (λ m. HashMap.get m payload.nonce) (enter_active hash b payload fresh)
      ∙ get-insert b.active payload.nonce (registered hash b payload) payload.nonce
      ∙ rw (beq_refl payload.nonce) refl in
    let entered : register hash b payload fresh ≡ enter hash b payload fresh =
      rw (e, register) (rw on (rw live refl)) in
    let known = ap (λ x. HashMap.get x.1.active payload.nonce) entered ∙ found in
    (known, rw (known, reply_of) refl)
