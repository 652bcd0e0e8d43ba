-- ===== src/Protocol/Decision.antt =====
-- crates/notch-protocol/src/decision.rs: the decision types.
use llm_notch.Prelude.{String, Option, Bool}
use llm_notch.Prelude.Int.{ℤ}
use llm_notch.Protocol.Enums.{AgentSource}

pub data DecisionKind : Type 0 where
  approval permission question : DecisionKind

pub data DecisionResponseAction : Type 0 where
  allow deny : DecisionResponseAction

pub data DecisionResponse : Type 0 where
  action : DecisionResponseAction → DecisionResponse
  answer : String → DecisionResponse

pub data DecisionDeliveryState : Type 0 where
  pending delivered effect_observed expired failed : DecisionDeliveryState

pub record DecisionRequest : Type 0 where
  pub id : String
  pub session_id : String
  pub source : AgentSource
  pub kind : DecisionKind
  pub summary : String
  pub has_actionable_payload : Bool
  pub created_at_ms : ℤ
  pub expires_at_ms : Option ℤ

pub record DecisionResponseRecord : Type 0 where
  pub request_id : String
  pub response : DecisionResponse
  pub responded_at_ms : ℤ
  pub delivery_state : DecisionDeliveryState
  pub delivery_detail : Option String
