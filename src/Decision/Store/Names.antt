-- ===== src/Decision/Store/Names.antt =====
-- crates/notch-decision/src/store.rs: what the table gives back of the names it was given.
use llm_notch.Prelude.{◌≡◌, refl}
use llm_notch.Protocol.{AgentSource, DecisionKind, DecisionDeliveryState}
use llm_notch.Core.Registry.{debug_name}
use llm_notch.Decision.Store.{
  parse_agent_source, kind_name, parse_decision_kind, state_name, parse_delivery_state,
}

-- The source that a row gives back.
abbrev pub kept_source : AgentSource → AgentSource
kept_source AgentSource.antigravity_cli = AgentSource.unknown
kept_source AgentSource.copilot_cli = AgentSource.unknown
kept_source AgentSource.qwen = AgentSource.unknown
kept_source s = s

parse-debug_name : (s : AgentSource) → parse_agent_source (debug_name s) ≡ kept_source s
unfolding parse_agent_source debug_name
parse-debug_name AgentSource.cursor = refl
parse-debug_name AgentSource.claude_code = refl
parse-debug_name AgentSource.codex = refl
parse-debug_name AgentSource.gemini = refl
parse-debug_name AgentSource.antigravity_cli = refl
parse-debug_name AgentSource.copilot_cli = refl
parse-debug_name AgentSource.qwen = refl
parse-debug_name AgentSource.generic = refl
parse-debug_name AgentSource.unknown = refl

parse-kind_name : (k : DecisionKind) → parse_decision_kind (kind_name k) ≡ k
unfolding parse_decision_kind kind_name
parse-kind_name DecisionKind.approval = refl
parse-kind_name DecisionKind.permission = refl
parse-kind_name DecisionKind.question = refl

parse-state_name : (d : DecisionDeliveryState) → parse_delivery_state (state_name d) ≡ d
unfolding parse_delivery_state state_name
parse-state_name DecisionDeliveryState.pending = refl
parse-state_name DecisionDeliveryState.delivered = refl
parse-state_name DecisionDeliveryState.effect_observed = refl
parse-state_name DecisionDeliveryState.expired = refl
parse-state_name DecisionDeliveryState.failed = refl

-- A row keeps the kind and the delivery state of a decision, and its source except where that is
-- Antigravity, Copilot or Qwen: these are read back as unknown.
pub row_names :
    ((k : DecisionKind) → parse_decision_kind (kind_name k) ≡ k)
    × ((d : DecisionDeliveryState) → parse_delivery_state (state_name d) ≡ d)
    × ((s : AgentSource) → parse_agent_source (debug_name s) ≡ kept_source s)
row_names = (parse-kind_name, parse-state_name, parse-debug_name)
