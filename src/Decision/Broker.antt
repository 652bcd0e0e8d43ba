-- ===== src/Decision/Broker.antt =====
-- crates/notch-decision/src/broker.rs: `DecisionBroker`. An async wait is cut where it lets go of a
-- lock: `register` up to the await, then `expire_decision` where the timeout wins, then the reading
-- of the reply, `retire` and `forget_waiter`. A method returns the broker that it leaves.
use llm_notch.Prelude.{
  ℕ, String, Bool, true, false, Option, none, some, if◌then◌else◌, ◌==◌, text_key, not,
}
use llm_notch.Prelude.Int.{pos, ◌+ℤ◌}
use llm_notch.HashMap
use llm_notch.HashMap.{HashMap}
use llm_notch.Protocol.{AgentSource, DecisionDeliveryState}
use llm_notch.Decision.Types.{
  DecisionWaitPayload, DecisionReplyPayload, InternalDeliveryState, ActiveDecision, wire_state,
  is_terminal,
}
use llm_notch.Decision.Adapter.{neutral_stdout}
use llm_notch.Decision.Store.{DecisionStore, truncate_summary, upsert_active, update_delivery}

-- A waiter's `Notify` is its identity.
pub record DecisionBroker : Type 0 where
  pub store : DecisionStore
  pub active : HashMap String ActiveDecision
  pub waiters : HashMap String ℕ
  pub wait_timeout_ms : ℕ

unfoldable pub neutral_reply : String → DecisionDeliveryState → DecisionReplyPayload
neutral_reply nonce state = record {
  nonce = nonce;
  stdout_json = neutral_stdout;
  delivery_state = state;
}

unfoldable pub fail_open_reply : String → DecisionReplyPayload
fail_open_reply nonce = record {
  nonce = nonce;
  stdout_json = neutral_stdout;
  delivery_state = DecisionDeliveryState.failed;
}

abbrev delivered_reply : String → String → DecisionReplyPayload
delivered_reply nonce out = record {
  nonce = nonce;
  stdout_json = out;
  delivery_state = DecisionDeliveryState.delivered;
}

abbrev replay_in : String → InternalDeliveryState → DecisionReplyPayload
unfolding neutral_reply wire_state
replay_in nonce InternalDeliveryState.expired =
    neutral_reply nonce (wire_state InternalDeliveryState.expired)
replay_in nonce (InternalDeliveryState.failed detail) =
    neutral_reply nonce (wire_state (InternalDeliveryState.failed detail))
replay_in nonce (InternalDeliveryState.delivered out _) = delivered_reply nonce out
replay_in nonce _ = neutral_reply nonce DecisionDeliveryState.expired

unfoldable pub replay_terminal : String → ActiveDecision → DecisionReplyPayload
unfolding neutral_reply wire_state
replay_terminal nonce a = replay_in nonce a.internal_state

unfoldable pub reply_in : String → InternalDeliveryState → DecisionReplyPayload
unfolding neutral_reply
reply_in nonce (InternalDeliveryState.delivered out _) = delivered_reply nonce out
reply_in nonce (InternalDeliveryState.failed _) = record {
  nonce = nonce;
  stdout_json = neutral_stdout;
  delivery_state = DecisionDeliveryState.failed;
}
reply_in nonce InternalDeliveryState.expired = neutral_reply nonce DecisionDeliveryState.expired
reply_in nonce (InternalDeliveryState.chosen _ _ out) = record {
  nonce = nonce;
  stdout_json = out;
  delivery_state = DecisionDeliveryState.pending;
}
reply_in nonce InternalDeliveryState.pending = neutral_reply nonce DecisionDeliveryState.expired
reply_in nonce (InternalDeliveryState.effect_observed _ _) = record {
  nonce = nonce;
  stdout_json = neutral_stdout;
  delivery_state = DecisionDeliveryState.effect_observed;
}

unfoldable pub reply_for_active : String → ActiveDecision → DecisionReplyPayload
unfolding reply_in
reply_for_active nonce a = reply_in nonce a.internal_state

abbrev or_id : Option String → String → String
or_id none other = other
or_id (some id) other = id

-- The entry that a wait registers. `internal_session_id` is the hash of the source and the id.
unfoldable pub registered :
    (AgentSource → String → String) → DecisionBroker → DecisionWaitPayload → ActiveDecision
unfolding truncate_summary
registered internal_session_id b payload =
    let expires = payload.created_at_ms +ℤ pos b.wait_timeout_ms in
    record {
      request = record {
        id = payload.nonce;
        session_id =
            or_id payload.session_id
              (internal_session_id payload.source payload.external_session_id);
        source = payload.source;
        kind = payload.decision_kind;
        summary = truncate_summary payload.summary;
        has_actionable_payload = payload.has_actionable_payload;
        created_at_ms = payload.created_at_ms;
        expires_at_ms = some expires;
      };
      internal_state = InternalDeliveryState.pending;
      vendor_event = payload.vendor_event;
      external_session_id = payload.external_session_id;
      respondable_hook = payload.respondable_hook;
      tool_name = payload.tool_name;
      connection_id = payload.connection_id;
      vendor_context = payload.vendor_context;
      expires_at_ms = expires;
    }

-- What a wait does up to the await: an answer at once, or the waiter to wait on. `fresh` is the
-- `Notify` that is made where the nonce has none.
pub data WaitStart : Type 0 where
  answered : DecisionReplyPayload → WaitStart
  waiting : ℕ → WaitStart

module _ (internal_session_id : AgentSource → String → String) where
  unfoldable pub enter : DecisionBroker → DecisionWaitPayload → ℕ → WaitStart × DecisionBroker
  unfolding registered upsert_active HashMap.insert HashMap.get
  enter b payload fresh =
      let a = registered internal_session_id b payload in
      let audited =
        upsert_active b.store a.request a.vendor_event a.external_session_id a.connection_id
          DecisionDeliveryState.pending in
      elim (HashMap.get b.waiters payload.nonce) [
        | some notify ↦ (
          waiting notify,
          record b { store = audited; active = HashMap.insert b.active payload.nonce a },
        )
        | none ↦ (
          waiting fresh,
          record b {
            store = audited;
            active = HashMap.insert b.active payload.nonce a;
            waiters = HashMap.insert b.waiters payload.nonce fresh;
          },
        )
      ]

  -- The source looks at the entry and inserts the new one under two locks: here that is one step. The
  -- insertion alone is `enter`.
  unfoldable pub register : DecisionBroker → DecisionWaitPayload → ℕ → WaitStart × DecisionBroker
  unfolding enter fail_open_reply replay_terminal is_terminal HashMap.get
  register b payload fresh = elim (HashMap.get b.active payload.nonce) [
    | none ↦ enter b payload fresh
    | some existing ↦
        if not (existing.connection_id == payload.connection_id)
        then (answered (fail_open_reply payload.nonce), b)
        else if is_terminal existing.internal_state
        then (answered (replay_terminal payload.nonce existing), b)
        else enter b payload fresh
  ]

unfoldable pub finalize_expired : DecisionBroker → ActiveDecision → DecisionBroker
unfolding update_delivery
finalize_expired b a = record b {
  store =
      update_delivery b.store a.request.id DecisionDeliveryState.expired none none
        (some "decision window elapsed");
}

-- The source takes the entry out and puts it back, where it is final, under two locks: here that is
-- one step.
unfoldable pub expire_decision : DecisionBroker → String → DecisionBroker
unfolding finalize_expired HashMap.remove HashMap.insert HashMap.get is_terminal
expire_decision b nonce = elim (HashMap.get b.active nonce) [
  | none ↦ b
  | some a ↦
      let out = record b { active = HashMap.remove b.active nonce } in
      if is_terminal a.internal_state
      then record b { active = HashMap.insert out.active nonce a }
      else finalize_expired out (record a { internal_state = InternalDeliveryState.expired })
]

unfoldable pub reply_of : DecisionBroker → String → DecisionReplyPayload
unfolding reply_for_active neutral_reply HashMap.get
reply_of b nonce = elim (HashMap.get b.active nonce) [
  | some a ↦ reply_for_active nonce a
  | none ↦ neutral_reply nonce DecisionDeliveryState.expired
]

abbrev pub is_chosen : InternalDeliveryState → Bool
is_chosen (InternalDeliveryState.chosen _ _ _) = true
is_chosen _ = false

unfoldable pub retain_active : DecisionBroker → String → Bool
unfolding HashMap.get
retain_active b nonce = elim (HashMap.get b.active nonce) [
  | none ↦ false
  | some a ↦ is_chosen a.internal_state
]

unfoldable pub forget : DecisionBroker → String → DecisionBroker
unfolding HashMap.remove
forget b nonce = record b { active = HashMap.remove b.active nonce }

unfoldable pub retire : DecisionBroker → String → DecisionBroker
unfolding retain_active forget
retire b nonce = if retain_active b nonce then b else forget b nonce

-- `wake_waiter`, and the end of a wait: the entry goes; a woken task is the runtime's.
unfoldable pub wake_waiter : DecisionBroker → String → DecisionBroker
unfolding HashMap.remove
wake_waiter b nonce = record b { waiters = HashMap.remove b.waiters nonce }
