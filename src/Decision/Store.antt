-- ===== src/Decision/Store.antt =====
-- crates/notch-decision/src/store.rs: the audit table, as the rows by their id. A statement that
-- SQLite refuses leaves the table as it was.
pub mod Names
use llm_notch.Prelude.Text.{take_chars}
use llm_notch.Prelude.{
  ℕ, zero, suc, String, len, Bool, true, false, List, Option, none, some, if◌then◌else◌, leb, ◌==◌,
  text_key, retain, map, ◌&&◌,
}
use llm_notch.Prelude.Int.{ℤ, leb_ℤ, ltb_ℤ}
use llm_notch.Prelude.Sorting.{sort_by}
use llm_notch.HashMap
use llm_notch.HashMap.{HashMap}
use llm_notch.Protocol.{
  AgentSource, DecisionKind, DecisionResponse, DecisionRequest, DecisionResponseRecord,
  DecisionDeliveryState, max_decision_summary_len,
}
use llm_notch.Core.Registry.{debug_name}
use llm_notch.Decision.Types.{BrokerResult, ok, err, BrokerError, store}

-- The text of a source in the table, as it is read back.
unfoldable pub parse_agent_source : String → AgentSource
parse_agent_source raw =
    if raw == "Cursor"
    then AgentSource.cursor
    else if raw == "ClaudeCode"
    then AgentSource.claude_code
    else if raw == "Codex"
    then AgentSource.codex
    else if raw == "Gemini"
    then AgentSource.gemini
    else if raw == "Generic"
    then AgentSource.generic
    else AgentSource.unknown

unfoldable pub kind_name : DecisionKind → String
kind_name DecisionKind.approval = "Approval"
kind_name DecisionKind.permission = "Permission"
kind_name DecisionKind.question = "Question"

unfoldable pub parse_decision_kind : String → DecisionKind
parse_decision_kind raw =
    if raw == "Approval"
    then DecisionKind.approval
    else if raw == "Question"
    then DecisionKind.question
    else DecisionKind.permission

unfoldable pub state_name : DecisionDeliveryState → String
state_name DecisionDeliveryState.pending = "Pending"
state_name DecisionDeliveryState.delivered = "Delivered"
state_name DecisionDeliveryState.effect_observed = "EffectObserved"
state_name DecisionDeliveryState.expired = "Expired"
state_name DecisionDeliveryState.failed = "Failed"

unfoldable pub parse_delivery_state : String → DecisionDeliveryState
parse_delivery_state raw =
    if raw == "Delivered"
    then DecisionDeliveryState.delivered
    else if raw == "EffectObserved"
    then DecisionDeliveryState.effect_observed
    else if raw == "Expired"
    then DecisionDeliveryState.expired
    else if raw == "Failed"
    then DecisionDeliveryState.failed
    else DecisionDeliveryState.pending

unfoldable pub truncate_summary : String → String
unfolding take_chars
truncate_summary summary =
    if leb (len summary) max_decision_summary_len
    then summary
    else take_chars max_decision_summary_len summary

-- A row of `decision_audit`. The response is kept as the value that its JSON encodes.
pub record AuditRow : Type 0 where
  pub session_id : String
  pub source : String
  pub kind : String
  pub summary : String
  pub has_actionable_payload : Bool
  pub created_at_ms : ℤ
  pub expires_at_ms : Option ℤ
  pub delivery_state : String
  pub response : Option DecisionResponse
  pub responded_at_ms : Option ℤ
  pub delivery_detail : Option String
  pub vendor_event : String
  pub external_session_id : String
  pub connection_id : String

-- `reachable`: whether SQLite takes a statement now.
pub record DecisionStore : Type 0 where
  pub decision_audit : HashMap String AuditRow
  pub reachable : Bool

-- `COALESCE`
abbrev coalesce {ℓ} : {A : Type ℓ} → Option A → Option A → Option A
coalesce (some a) other = some a
coalesce none other = other

-- The insertion, or on a conflict the new state alone: an inserted row has no response.
unfoldable pub upsert_active :
    DecisionStore
    → DecisionRequest
    → String
    → String
    → String
    → DecisionDeliveryState
    → DecisionStore
unfolding HashMap.insert state_name kind_name debug_name
upsert_active s request vendor_event external_session_id connection_id state =
    if s.reachable
    then record s {
      decision_audit =
          HashMap.insert s.decision_audit request.id
            (elim (HashMap.get s.decision_audit request.id) [
              | some row ↦ record row { delivery_state = state_name state }
              | none ↦ record {
                session_id = request.session_id;
                source = debug_name request.source;
                kind = kind_name request.kind;
                summary = request.summary;
                has_actionable_payload = request.has_actionable_payload;
                created_at_ms = request.created_at_ms;
                expires_at_ms = request.expires_at_ms;
                delivery_state = state_name state;
                response = none;
                responded_at_ms = none;
                delivery_detail = none;
                vendor_event = vendor_event;
                external_session_id = external_session_id;
                connection_id = connection_id;
              }
            ]);
    }
    else s

unfoldable pub update_delivery :
    DecisionStore
    → String
    → DecisionDeliveryState
    → Option DecisionResponse
    → Option ℤ
    → Option String
    → DecisionStore
unfolding HashMap.modify state_name
update_delivery s request_id state response responded_at_ms detail =
    if s.reachable
    then record s {
      decision_audit = HashMap.modify s.decision_audit request_id (λ row. record row {
        delivery_state = state_name state;
        response = coalesce response row.response;
        responded_at_ms = coalesce responded_at_ms row.responded_at_ms;
        delivery_detail = coalesce detail row.delivery_detail;
      });
    }
    else s

abbrev unexpired : ℤ → Option ℤ → Bool
unexpired now none = true
unexpired now (some at) = ltb_ℤ now at

abbrev to_request : String × AuditRow → DecisionRequest
to_request (id, row) = record {
  id = id;
  session_id = row.session_id;
  source = parse_agent_source row.source;
  kind = parse_decision_kind row.kind;
  summary = row.summary;
  has_actionable_payload = row.has_actionable_payload;
  created_at_ms = row.created_at_ms;
  expires_at_ms = row.expires_at_ms;
}

abbrev pub created_before : DecisionRequest → DecisionRequest → Bool
created_before a b = leb_ℤ a.created_at_ms b.created_at_ms

unfoldable pub list_pending_requests : DecisionStore → ℤ → BrokerResult (List DecisionRequest)
unfolding sort_by parse_agent_source parse_decision_kind
list_pending_requests s now_ms =
    if s.reachable
    then ok (
        sort_by created_before (
          map to_request (
            retain (λ e. (e.1.delivery_state == "Pending") && unexpired now_ms e.1.expires_at_ms)
              s.decision_audit)))
    else err (BrokerError.store "database error")

abbrev record_of :
    String → AuditRow → Option DecisionResponse → Option ℤ → Option DecisionResponseRecord
record_of request_id row (some response) (some at) = some (record {
  request_id = request_id;
  response = response;
  responded_at_ms = at;
  delivery_state = parse_delivery_state row.delivery_state;
  delivery_detail = row.delivery_detail;
})
record_of request_id row _ _ = none

unfoldable pub load_record : DecisionStore → String → BrokerResult (Option DecisionResponseRecord)
unfolding parse_delivery_state HashMap.get
load_record s request_id =
    if s.reachable
    then ok (elim (HashMap.get s.decision_audit request_id) [
      | none ↦ none
      | some row ↦ record_of request_id row row.response row.responded_at_ms
    ])
    else err (BrokerError.store "database error")
