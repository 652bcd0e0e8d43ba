-- ===== src/Decision/Adapter.antt =====
-- crates/notch-decision/src/adapter.rs: the output for the vendor, where its adapter has one.
pub mod Outputs
use Prim.Native.String.{◌++◌ as str_append}
use llm_notch.Prelude.{String, Option, none, some, if◌then◌else◌, ◌==◌, text_key, not, ◌&&◌}
use llm_notch.Protocol.{AgentSource, DecisionResponse, DecisionResponseAction, neutral_output}
use llm_notch.Decision.Types.{Value, text, object, Members, no_members, member}
use llm_notch.Decision.Version.{detect_version}
use llm_notch.Decision.Claude.{
  ClaudeRespondableHook, permission_request, exit_plan_mode_pre_tool_use, ResponseBuildError,
  exit_plan_updated_input_must_be_object, BuildResult, built, refused, build_decision_response,
  capabilities,
}

pub data AdapterBuildError : Type 0 where
  capability_disabled question_unsupported : AdapterBuildError
  unsupported_hook build_failed : String → AdapterBuildError

-- `AdapterBuildError::to_string`
unfoldable pub error_text : AdapterBuildError → String
error_text capability_disabled = "decision responses are disabled for this adapter"
error_text (unsupported_hook hook) =
    str_append "unsupported respondable hook `" (str_append hook "`")
error_text question_unsupported = "question answers are not supported in protocol v1"
error_text (build_failed message) = str_append "vendor response build failed: " message

-- What the adapter takes from elsewhere: `serde_json::to_string`, whose error is its text.
pub record Vendor : Type 0 where
  pub to_string : Value → BuildResult String String

abbrev find : Members → String → Option Value
find no_members key = none
find (member k v rest) key = let later = find rest key in if k == key then some v else later

-- `Value::get` with a text
abbrev get_value : Value → String → Option Value
get_value (object fields) key = find fields key
get_value _ key = none

abbrev or_value : Option Value → Option Value → Option Value
or_value none other = other
or_value (some v) other = some v

-- `vendor_context.and_then(..)` with either spelling of a key
abbrev pub either_key : Option Value → String → String → Option Value
either_key none snake camel = none
either_key (some v) snake camel = or_value (get_value v snake) (get_value v camel)

abbrev pub text_of : Option Value → Option String
text_of (some (text t)) = some t
text_of _ = none

abbrev pub hook_of : String → BuildResult AdapterBuildError ClaudeRespondableHook
hook_of name =
    if name == "permissionRequest"
    then built permission_request
    else if name == "exitPlanModePreToolUse"
    then built exit_plan_mode_pre_tool_use
    else refused (unsupported_hook name)

abbrev pub hook_or_disabled : Option String → BuildResult AdapterBuildError ClaudeRespondableHook
hook_or_disabled none = refused capability_disabled
hook_or_disabled (some name) = hook_of name

abbrev build_error_text : ResponseBuildError → String
build_error_text exit_plan_updated_input_must_be_object =
    "ExitPlanMode approval requires updatedInput to be a JSON object"

abbrev printed : BuildResult String String → BuildResult AdapterBuildError String
printed (refused e) = refused (build_failed e)
printed (built out) = built out

abbrev stdout_of :
    Vendor → BuildResult ResponseBuildError Value → BuildResult AdapterBuildError String
stdout_of vendor (refused e) = refused (build_failed (build_error_text e))
stdout_of vendor (built v) = printed (vendor.to_string v)

-- From the hook on.
unfoldable pub stdout_for_hook :
    Vendor
    → DecisionResponseAction
    → Option Value
    → BuildResult AdapterBuildError ClaudeRespondableHook
    → BuildResult AdapterBuildError String
unfolding capabilities build_decision_response detect_version
stdout_for_hook vendor action vendor_context (refused e) = refused e
stdout_for_hook vendor action vendor_context (built hook) =
    let version = text_of (either_key vendor_context "claude_code_version" "claudeCodeVersion") in
    let caps = capabilities (detect_version version) in
    if not caps.respond_decisions && not caps.decision_response
    then refused capability_disabled
    else stdout_of vendor (
        build_decision_response hook action
          (either_key vendor_context "updated_input" "updatedInput"))

unfoldable pub build_claude_stdout :
    Vendor
    → Option String
    → DecisionResponseAction
    → Option Value
    → BuildResult AdapterBuildError String
unfolding stdout_for_hook
build_claude_stdout vendor respondable_hook action vendor_context =
    stdout_for_hook vendor action vendor_context (hook_or_disabled respondable_hook)

unfoldable pub build_vendor_stdout :
    Vendor
    → AgentSource
    → Option String
    → DecisionResponse
    → Option Value
    → BuildResult AdapterBuildError String
unfolding build_claude_stdout
build_vendor_stdout vendor source hook (DecisionResponse.answer _) context =
    refused question_unsupported
build_vendor_stdout vendor AgentSource.claude_code hook (DecisionResponse.action a) context =
    build_claude_stdout vendor hook a context
build_vendor_stdout vendor AgentSource.qwen hook (DecisionResponse.action a) context =
    build_claude_stdout vendor hook a context
build_vendor_stdout vendor _ hook (DecisionResponse.action a) context = refused capability_disabled

abbrev pub neutral_stdout : String
neutral_stdout = neutral_output
