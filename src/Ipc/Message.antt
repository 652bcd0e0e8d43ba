-- ===== src/Ipc/Message.antt =====
-- The messages of crates/notch-ipc/src/wire.rs.
use llm_notch.Prelude.{ℕ, String, Option, Bool}
use llm_notch.Prelude.Int.{ℤ}

pub record IngestPayload : Type 0 where
  pub source : String
  pub event : String
  pub session_id : Option String
  pub external_session_id : Option String
  pub label : Option String
  pub workspace_label : Option String
  pub status : Option String
  pub attention : Option String
  pub summary : Option String
  pub tool_name : Option String
  pub pid : Option ℕ
  pub process_started_at_ms : Option ℤ
  pub occurred_at_ms : Option ℤ
  pub terminal_session_id : Option String
  pub tab_id : Option String
  pub pane_id : Option String
  pub window_handle : Option ℕ

-- The fields of `WireMessage::DecisionWait` after the request.
pub record DecisionWaitFields : Type 0 where
  pub source : String
  pub vendor_event : String
  pub external_session_id : String
  pub session_id : Option String
  pub decision_kind : String
  pub summary : String
  pub has_actionable_payload : Bool
  pub respondable_hook : Option String
  pub tool_name : Option String
  pub connection_id : String
  pub vendor_context_json : Option String
  pub created_at_ms : ℤ

-- Each with its version and its request.
pub data WireMessage : Type 0 where
  -- the token
  auth : ℕ → String → String → WireMessage
  ingest : ℕ → String → IngestPayload → WireMessage
  ack : ℕ → String → WireMessage
  -- the code and the message
  error : ℕ → String → String → String → WireMessage
  decision_wait : ℕ → String → DecisionWaitFields → WireMessage
  -- the output for the hook and the state of its delivery
  decision_reply : ℕ → String → String → String → WireMessage

unfoldable pub version : WireMessage → ℕ
version (WireMessage.auth v request token) = v
version (WireMessage.ingest v request payload) = v
version (WireMessage.ack v request) = v
version (WireMessage.error v request code message) = v
version (WireMessage.decision_wait v request fields) = v
version (WireMessage.decision_reply v request stdout state) = v

unfoldable pub request_id : WireMessage → String
request_id (WireMessage.auth v request token) = request
request_id (WireMessage.ingest v request payload) = request
request_id (WireMessage.ack v request) = request
request_id (WireMessage.error v request code message) = request
request_id (WireMessage.decision_wait v request fields) = request
request_id (WireMessage.decision_reply v request stdout state) = request
