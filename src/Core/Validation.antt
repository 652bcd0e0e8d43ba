-- ===== src/Core/Validation.antt =====
-- crates/notch-core/src/domain/validation.rs: every text has a length in bytes, and is not empty.
use llm_notch.Prelude.{
  ℕ, ◌≤◌, ◌<◌, String, len, ◌≡◌, ◌↔◌, ltb, if◌then◌else◌, ◌==◌, number_key, arith,
}
use llm_notch.Protocol.{
  max_session_id_len, max_external_session_id_len, max_session_label_len, max_workspace_label_len,
  max_event_summary_len, max_tool_name_len,
}
use llm_notch.Core.Error.{CoreResult, ok, err, validation, empty_field, too_long}

unfoldable pub validate_bounded : String → ℕ → String → CoreResult (Unit {0})
validate_bounded value max field =
    if len value == 0
    then err (validation (empty_field field))
    else if ltb max (len value)
    then err (validation (too_long field max))
    else ok tt

unfoldable pub validate_external_session_id : String → CoreResult (Unit {0})
unfolding validate_bounded
validate_external_session_id id =
    validate_bounded id max_external_session_id_len "external_session_id"

unfoldable pub validate_session_label : String → CoreResult (Unit {0})
unfolding validate_bounded
validate_session_label label = validate_bounded label max_session_label_len "label"

unfoldable pub validate_workspace_label : String → CoreResult (Unit {0})
unfolding validate_bounded
validate_workspace_label label = validate_bounded label max_workspace_label_len "workspace_label"

unfoldable pub validate_event_summary : String → CoreResult (Unit {0})
unfolding validate_bounded
validate_event_summary summary = validate_bounded summary max_event_summary_len "summary"

unfoldable pub validate_tool_name : String → CoreResult (Unit {0})
unfolding validate_bounded
validate_tool_name name = validate_bounded name max_tool_name_len "tool_name"

unfoldable pub validate_session_id : String → CoreResult (Unit {0})
unfolding validate_bounded
validate_session_id id = validate_bounded id max_session_id_len "session_id"

pub validate_bounded_iff :
    (value : String) (max : ℕ) (field : String)
    → (validate_bounded value max field ≡ ok tt) ↔ ((0 < len value) × (len value ≤ max))
unfolding validate_bounded
validate_bounded_iff value max field = ground arith
