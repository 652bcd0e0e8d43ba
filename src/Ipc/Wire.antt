-- ===== src/Ipc/Wire.antt =====
-- The checks of crates/notch-ipc/src/wire.rs.
use llm_notch.Prelude.{
  ℕ, String, len, Option, none, some, Bool, true, false, ◌||◌, not, ltb, ◌==◌, number_key,
}
use llm_notch.Prelude.Int.{ℤ, pos, leb_ℤ}
use llm_notch.Protocol.{
  max_session_id_len, max_external_session_id_len, max_session_label_len, max_workspace_label_len,
  max_event_summary_len, max_tool_name_len, max_decision_summary_len,
}
use llm_notch.Ipc.Error.{
  IpcResult, ok, err, ◌>>=◌, IpcError, Rejection, ipc_wire_version, max_request_id_len,
  max_error_code_len, max_error_message_len, max_decision_context_bytes,
}
use llm_notch.Ipc.Message.{WireMessage, IngestPayload, DecisionWaitFields, version, request_id}
use llm_notch.Ipc.TerminalId.{validate_terminal_id_field, all_chars, is_request_id_char}

unfoldable pub reject_if : Bool → Rejection → IpcResult (Unit {0})
reject_if true r = err (IpcError.frame_rejected r)
reject_if false r = ok tt

unfoldable pub validate_bounded : String → ℕ → String → IpcResult (Unit {0})
unfolding reject_if
validate_bounded value max field =
    reject_if (len value == 0 || ltb max (len value)) (Rejection.bad_field field)

unfoldable pub validate_given : Option String → ℕ → String → IpcResult (Unit {0})
unfolding validate_bounded
validate_given none max field = ok tt
validate_given (some value) max field = validate_bounded value max field

unfoldable pub validate_given_id : Option String → String → IpcResult (Unit {0})
unfolding validate_terminal_id_field
validate_given_id none field = ok tt
validate_given_id (some value) field = validate_terminal_id_field value field

unfoldable pub validate_request_id : String → IpcResult (Unit {0})
unfolding validate_bounded reject_if all_chars is_request_id_char
validate_request_id request = do
  _ ← validate_bounded request max_request_id_len "requestId"
  reject_if (not (all_chars is_request_id_char request)) (Rejection.bad_field "requestId")

unfoldable pub is_given : {A : Type 0} → Option A → Bool
is_given none = false
is_given (some a) = true

unfoldable pub differs : Bool → Bool → Bool
differs true b = not b
differs false b = b

-- `process_started_at_ms` that is not positive
unfoldable pub is_bad_start : Option ℤ → Bool
is_bad_start none = false
is_bad_start (some value) = leb_ℤ value (pos 0)

unfoldable pub is_zero : Option ℕ → Bool
is_zero none = false
is_zero (some value) = value == 0

unfoldable pub validate_ingest_payload : IngestPayload → IpcResult (Unit {0})
unfolding validate_bounded validate_given validate_given_id reject_if is_given differs is_bad_start
    is_zero
validate_ingest_payload p = do
  _ ← validate_bounded p.source 32 "source"
  _ ← validate_bounded p.event 32 "event"
  _ ← validate_given p.session_id max_session_id_len "sessionId"
  _ ← validate_given p.external_session_id max_external_session_id_len "externalSessionId"
  _ ← validate_given p.label max_session_label_len "label"
  _ ← validate_given p.workspace_label max_workspace_label_len "workspaceLabel"
  _ ← validate_given p.status 32 "status"
  _ ← validate_given p.attention 32 "attention"
  _ ← validate_given p.summary max_event_summary_len "summary"
  _ ← validate_given p.tool_name max_tool_name_len "toolName"
  _ ←
      reject_if (differs (is_given p.pid) (is_given p.process_started_at_ms))
        Rejection.pid_without_start
  _ ← reject_if (is_bad_start p.process_started_at_ms) Rejection.bad_start
  _ ← validate_given_id p.terminal_session_id "terminalSessionId"
  _ ← validate_given_id p.tab_id "tabId"
  _ ← validate_given_id p.pane_id "paneId"
  reject_if (is_zero p.window_handle) Rejection.bad_window

unfoldable pub is_long : Option String → Bool
is_long none = false
is_long (some value) = ltb max_decision_context_bytes (len value)

unfoldable pub validate_decision_wait : DecisionWaitFields → IpcResult (Unit {0})
unfolding validate_bounded validate_given reject_if is_long
validate_decision_wait f = do
  _ ← validate_bounded f.source 32 "source"
  _ ← validate_bounded f.vendor_event 64 "vendorEvent"
  _ ← validate_bounded f.external_session_id max_external_session_id_len "externalSessionId"
  _ ← validate_given f.session_id max_session_id_len "sessionId"
  _ ← validate_bounded f.decision_kind 32 "decisionKind"
  _ ← validate_bounded f.summary max_decision_summary_len "summary"
  _ ← validate_given f.respondable_hook 64 "respondableHook"
  _ ← validate_given f.tool_name max_tool_name_len "toolName"
  _ ← validate_bounded f.connection_id 64 "connectionId"
  reject_if (is_long f.vendor_context_json) (Rejection.bad_field "vendorContextJson")

unfoldable pub validate_body : WireMessage → IpcResult (Unit {0})
unfolding validate_bounded validate_ingest_payload validate_decision_wait reject_if
validate_body (WireMessage.auth v request token) = validate_bounded token 128 "tokenB64"
validate_body (WireMessage.ingest v request payload) = validate_ingest_payload payload
validate_body (WireMessage.ack v request) = ok tt
validate_body (WireMessage.error v request code message) = do
  _ ← validate_bounded code max_error_code_len "code"
  reject_if (ltb max_error_message_len (len message)) (Rejection.bad_field "message")
validate_body (WireMessage.decision_wait v request fields) = validate_decision_wait fields
validate_body (WireMessage.decision_reply v request stdout state) = do
  _ ← reject_if (ltb max_decision_context_bytes (len stdout)) (Rejection.bad_field "stdoutJson")
  validate_bounded state 32 "deliveryState"

unfoldable pub validate_wire_message : WireMessage → IpcResult (Unit {0})
unfolding validate_request_id reject_if version request_id validate_body
validate_wire_message message = do
  _ ← validate_request_id (request_id message)
  _ ←
      reject_if (not (version message == ipc_wire_version))
        (Rejection.unsupported_version (version message))
  validate_body message
