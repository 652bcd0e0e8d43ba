-- ===== src/Decision/Answers/Honest/Run.antt =====
-- crates/notch-decision/src/broker.rs: the steps of the tasks that share the broker, in any order.
use llm_notch.Prelude.{ℕ, String, ◌≡◌, refl, true, none, some, [], text_key, ◌⊎◌, inl, inr}
use llm_notch.HashMap
use llm_notch.Prelude.Int.{ℤ}
use llm_notch.Protocol.{AgentSource, DecisionResponse}
use llm_notch.Decision.Types.{DecisionWaitPayload, ActiveDecision, is_terminal}
use llm_notch.Decision.Adapter.{Vendor}
use llm_notch.Decision.Store.{DecisionStore}
use llm_notch.Decision.Broker.{
  DecisionBroker, enter, register, expire_decision, retire, forget, wake_waiter,
}
use llm_notch.Decision.Answers.{submit_decision, mark_delivered, mark_failed, observe_effect}
use llm_notch.Decision.Answers.Honest.{
  IsHonest, AllHonest-insert, AllHonest-remove, enter-IsHonest, register-IsHonest,
  expire_decision-IsHonest, retire-IsHonest,
}
use llm_notch.Decision.Answers.Honest.Answering.{
  submit_decision-IsHonest, mark_delivered-IsHonest, mark_failed-IsHonest, observe_effect-IsHonest,
}

module _ (vendor : Vendor) where
  -- One step of a task that holds the broker, or of the database.
  pub data Act (hash : AgentSource → String → String)
      : DecisionBroker → DecisionBroker → Type 0 where
    registers :
        (b : DecisionBroker) (payload : DecisionWaitPayload) (fresh : ℕ)
        → Act hash b (register hash b payload fresh).1
    times_out : (b : DecisionBroker) (id : String) → Act hash b (expire_decision b id)
    -- the insertion alone, where other steps came between the check and it
    enters :
        (b : DecisionBroker) (payload : DecisionWaitPayload) (fresh : ℕ)
        → Act hash b (enter hash b payload fresh).1
    retires : (b : DecisionBroker) (id : String) → Act hash b (retire b id)
    forgets : (b : DecisionBroker) (id : String) → Act hash b (forget b id)
    wakes : (b : DecisionBroker) (id : String) → Act hash b (wake_waiter b id)
    submits :
        (b : DecisionBroker) (id : String) (response : DecisionResponse) (now : ℤ)
        → Act hash b (submit_decision vendor b id response now).1
    delivers : (b : DecisionBroker) (id : String) → Act hash b (mark_delivered b id).1
    fails : (b : DecisionBroker) (id detail : String) → Act hash b (mark_failed b id detail).1
    observes :
        (b : DecisionBroker) (id evidence : String) (now : ℤ)
        → Act hash b (observe_effect b id evidence now).1
    database : (b : DecisionBroker) (s : DecisionStore) → Act hash b (record b { store = s })

  -- A step may also put back a final entry as it was at an earlier time: an expiry takes the entry out
  -- and inserts it again under another lock.
  pub data Run (hash : AgentSource → String → String)
      : DecisionBroker → DecisionBroker → Type 0 where
    at_start : (b : DecisionBroker) → Run hash b b
    act_next : {b c d : DecisionBroker} → Run hash b c → Act hash c d → Run hash b d
    puts_back :
        {b c d : DecisionBroker} (id : String) (a : ActiveDecision)
        → Run hash b c
        → HashMap.get c.active id ≡ some a
        → is_terminal a.internal_state ≡ true
        → Run hash c d
        → Run hash b (record d { active = HashMap.insert d.active id a })

  abbrev Says :
      (hash : AgentSource → String → String) {b c : DecisionBroker}
      → Act hash b c
      → String
      → DecisionResponse
      → ℤ
      → Type 0
  Says hash (submits b id response now) j r at = (id ≡ j) × (response ≡ r) × (now ≡ at)
  Says hash (registers b payload fresh) j r at = ⊥
  Says hash (times_out b id) j r at = ⊥
  Says hash (enters b payload fresh) j r at = ⊥
  Says hash (retires b id) j r at = ⊥
  Says hash (forgets b id) j r at = ⊥
  Says hash (wakes b id) j r at = ⊥
  Says hash (delivers b id) j r at = ⊥
  Says hash (fails b id detail) j r at = ⊥
  Says hash (observes b id evidence now) j r at = ⊥
  Says hash (database b s) j r at = ⊥

  -- The answers that were submitted in a run: the decision, the response, and the time at which the
  -- broker took it up.
  abbrev pub Heard :
      (hash : AgentSource → String → String) {b c : DecisionBroker}
      → Run hash b c
      → String
      → DecisionResponse
      → ℤ
      → Type 0
  Heard hash (at_start b) j r at = ⊥
  Heard hash (act_next run act) j r at = Says hash act j r at ⊎ Heard hash run j r at
  Heard hash (puts_back id a earlier found over later) j r at =
      Heard hash later j r at ⊎ Heard hash earlier j r at

  module _ (hash : AgentSource → String → String)
      (asked : String → DecisionResponse → ℤ → Type 0) where
    Act-IsHonest :
        {b c : DecisionBroker} (act : Act hash b c)
        → ((j : String) (r : DecisionResponse) (at : ℤ) → Says hash act j r at → asked j r at)
        → IsHonest vendor asked b
        → IsHonest vendor asked c
    unfolding forget wake_waiter
    Act-IsHonest (registers b payload fresh) said h =
        register-IsHonest vendor asked hash b payload fresh h
    Act-IsHonest (times_out b id) said h = expire_decision-IsHonest vendor asked b id h
    Act-IsHonest (enters b payload fresh) said h =
        enter-IsHonest vendor asked hash b payload fresh h
    Act-IsHonest (retires b id) said h = retire-IsHonest vendor asked b id h
    Act-IsHonest (forgets b id) said h = AllHonest-remove vendor asked b.active id h
    Act-IsHonest (wakes b id) said h = h
    Act-IsHonest (submits b id response now) said h =
        submit_decision-IsHonest vendor asked b id response now
          (said id response now (refl, refl, refl)) h
    Act-IsHonest (delivers b id) said h = mark_delivered-IsHonest vendor asked b id h
    Act-IsHonest (fails b id detail) said h = mark_failed-IsHonest vendor asked b id detail h
    Act-IsHonest (observes b id evidence now) said h =
        observe_effect-IsHonest vendor asked b id evidence now h
    Act-IsHonest (database b s) said h = h

  Run-keeps :
      (hash : AgentSource → String → String) {b c : DecisionBroker} (run : Run hash b c)
      (asked : String → DecisionResponse → ℤ → Type 0)
      → ((j : String) (r : DecisionResponse) (at : ℤ) → Heard hash run j r at → asked j r at)
      → IsHonest vendor asked b
      → IsHonest vendor asked c
  Run-keeps hash (at_start b) asked said h = h
  Run-keeps hash (act_next run act) asked said h =
      Act-IsHonest hash asked act (λ j r at s. said j r at (inl s))
        (Run-keeps hash run asked (λ j r at s. said j r at (inr s)) h)
  Run-keeps hash (puts_back {d = d} id a earlier found over later) asked said h =
      let before = Run-keeps hash earlier asked (λ j r at s. said j r at (inr s)) h in
      let after = Run-keeps hash later asked (λ j r at s. said j r at (inl s)) before in
      AllHonest-insert vendor asked d.active id a after (before id a found)

  -- The tasks share a broker that has no entry at first, and take their steps in any order. Then an
  -- entry that holds an output for the vendor holds what the adapter builds from a response that was
  -- submitted for that entry, taken up at a time before the entry expired, on a decision that can be
  -- acted on; and it is not the neutral output. Where the entry still holds the response and the
  -- time, they are those. A delivered and an observed entry had such a response too, and no entry is
  -- in the expired state.
  pub Run-IsHonest :
      (hash : AgentSource → String → String) {b c : DecisionBroker} (run : Run hash b c)
      → b.active ≡ []
      → IsHonest vendor (Heard hash run) c
  unfolding HashMap.get
  Run-IsHonest hash {b} run empty =
      Run-keeps hash run (Heard hash run) (λ j r at s. s)
        (λ id a found.
          let nothing : HashMap.get b.active id ≡ none = rw empty refl in
          let no : none ≡ some a = cc in absurd (cc))
