-- ===== src/Decision/Types.antt =====
-- crates/notch-decision/src/types.rs, and the errors of broker.rs.
use llm_notch.Prelude.{String, Bool, true, false, Option, none, some}
use llm_notch.Prelude.Int.{ℤ}
use llm_notch.Protocol.{
  AgentSource, DecisionKind, DecisionResponse, DecisionRequest, DecisionResponseRecord,
  DecisionDeliveryState,
}

-- `serde_json::Value`. A number is kept as its text.
mutual
  pub data Value : Type 0 where
    null : Value
    boolean : Bool → Value
    number : String → Value
    text : String → Value
    array : Values → Value
    object : Members → Value

  pub data Values : Type 0 where
    no_values : Values
    value : Value → Values → Values

  pub data Members : Type 0 where
    no_members : Members
    member : String → Value → Members → Members

pub record DecisionWaitPayload : Type 0 where
  pub nonce : String
  pub source : AgentSource
  pub vendor_event : String
  pub external_session_id : String
  pub session_id : Option String
  pub decision_kind : DecisionKind
  pub summary : String
  pub has_actionable_payload : Bool
  pub respondable_hook : Option String
  pub tool_name : Option String
  pub connection_id : String
  pub vendor_context : Option Value
  pub created_at_ms : ℤ

pub record DecisionReplyPayload : Type 0 where
  pub nonce : String
  pub stdout_json : String
  pub delivery_state : DecisionDeliveryState

pub data InternalDeliveryState : Type 0 where
  pending : InternalDeliveryState
  -- the response, when it was given, and the output for the vendor
  chosen : DecisionResponse → ℤ → String → InternalDeliveryState
  -- the output and when it was delivered
  delivered : String → ℤ → InternalDeliveryState
  -- the evidence and when it was seen
  effect_observed : String → ℤ → InternalDeliveryState
  expired : InternalDeliveryState
  failed : String → InternalDeliveryState

unfoldable pub wire_state : InternalDeliveryState → DecisionDeliveryState
wire_state InternalDeliveryState.pending = DecisionDeliveryState.pending
wire_state (InternalDeliveryState.chosen _ _ _) = DecisionDeliveryState.pending
wire_state (InternalDeliveryState.delivered _ _) = DecisionDeliveryState.delivered
wire_state (InternalDeliveryState.effect_observed _ _) = DecisionDeliveryState.effect_observed
wire_state InternalDeliveryState.expired = DecisionDeliveryState.expired
wire_state (InternalDeliveryState.failed _) = DecisionDeliveryState.failed

unfoldable pub is_terminal : InternalDeliveryState → Bool
is_terminal InternalDeliveryState.pending = false
is_terminal (InternalDeliveryState.chosen _ _ _) = false
is_terminal _ = true

pub record ActiveDecision : Type 0 where
  pub request : DecisionRequest
  pub internal_state : InternalDeliveryState
  pub vendor_event : String
  pub external_session_id : String
  pub respondable_hook : Option String
  pub tool_name : Option String
  pub connection_id : String
  pub vendor_context : Option Value
  pub expires_at_ms : ℤ

abbrev delivery_detail : InternalDeliveryState → Option String
delivery_detail (InternalDeliveryState.failed detail) = some detail
delivery_detail (InternalDeliveryState.effect_observed evidence _) = some evidence
delivery_detail _ = none

unfoldable pub response_record : ActiveDecision → DecisionResponse → ℤ → DecisionResponseRecord
unfolding wire_state
response_record a response responded_at_ms = record {
  request_id = a.request.id;
  response = response;
  responded_at_ms = responded_at_ms;
  delivery_state = wire_state a.internal_state;
  delivery_detail = delivery_detail a.internal_state;
}

pub data BrokerError : Type 0 where
  not_found expired already_finalized not_actionable binding_mismatch : BrokerError
  invalid_response store adapter : String → BrokerError

pub data BrokerResult {ℓ} (A : Type ℓ) : Type ℓ where
  ok : A → BrokerResult A
  err : BrokerError → BrokerResult A
