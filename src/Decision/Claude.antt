-- ===== src/Decision/Claude.antt =====
-- crates/notch-adapters/claude-code/src/response.rs and capabilities.rs: what a Claude Code hook
-- is answered with, and the versions that may be answered.
use llm_notch.Prelude.{String, Bool, true, false, Option, none, some, if◌then◌else◌, not}
use llm_notch.Protocol.{
  AgentSource, AdapterCapabilities, AttentionCapability, AttributionQuality, ContextOpenTier,
  DecisionResponseAction, allow, deny,
}
use llm_notch.Decision.Version.{ClaudeVersionProfile, known, unknown}
use llm_notch.Decision.Types.{Value, boolean, text, object, Members, no_members, member}

pub data ClaudeRespondableHook : Type 0 where
  permission_request exit_plan_mode_pre_tool_use : ClaudeRespondableHook

pub data ClaudePermissionDecision : Type 0 where
  allowed : ClaudePermissionDecision
  -- the message, and whether to interrupt
  denied : Option String → Bool → ClaudePermissionDecision

pub data ResponseBuildError : Type 0 where
  exit_plan_updated_input_must_be_object : ResponseBuildError

pub data BuildResult {ℓ} (E : Type ℓ) (A : Type ℓ) : Type ℓ where
  built : A → BuildResult E A
  refused : E → BuildResult E A

abbrev with_message : Option String → Members → Members
with_message none rest = rest
with_message (some message) rest = member "message" (text message) rest

-- Members stand in the order of their names, as in the map of `serde_json`.
abbrev decision_object : ClaudePermissionDecision → Value
decision_object allowed = object (member "behavior" (text "allow") no_members)
decision_object (denied message interrupt) = object (
    member "behavior" (text "deny") (elim interrupt [
      | true ↦ member "interrupt" (boolean true) (with_message message no_members)
      | false ↦ with_message message no_members
    ]))

unfoldable pub build_permission_response :
    ClaudePermissionDecision → BuildResult ResponseBuildError Value
build_permission_response decision = built (
    object (
      member "hookSpecificOutput"
        (object (
          member "decision" (decision_object decision)
            (member "hookEventName" (text "PermissionRequest") no_members)))
        no_members))

abbrev is_object : Value → Bool
is_object (object _) = true
is_object _ = false

unfoldable pub build_exit_plan_approve_response : Value → BuildResult ResponseBuildError Value
build_exit_plan_approve_response updated_input =
    if not (is_object updated_input)
    then refused exit_plan_updated_input_must_be_object
    else built (
        object (
          member "hookSpecificOutput"
            (object (
              member "hookEventName" (text "PreToolUse") (
                member "permissionDecision" (text "allow")
                  (member "updatedInput" updated_input no_members))))
            no_members))

abbrev or_empty : Option Value → Value
or_empty none = object no_members
or_empty (some v) = v

unfoldable pub build_decision_response :
    ClaudeRespondableHook
    → DecisionResponseAction
    → Option Value
    → BuildResult ResponseBuildError Value
unfolding build_permission_response build_exit_plan_approve_response
build_decision_response permission_request allow updated_input = build_permission_response allowed
build_decision_response permission_request deny updated_input =
    build_permission_response (denied (some "Denied by llm_notch") false)
build_decision_response exit_plan_mode_pre_tool_use allow updated_input =
    build_exit_plan_approve_response (or_empty updated_input)
build_decision_response exit_plan_mode_pre_tool_use deny updated_input = built (
    object (
      member "hookSpecificOutput"
        (object (
          member "hookEventName" (text "PreToolUse") (
            member "permissionDecision" (text "deny")
              (member "permissionDecisionReason" (text "Plan not approved") no_members))))
        no_members))

abbrev pub is_known : ClaudeVersionProfile → Bool
is_known (known _) = true
is_known (unknown _) = false

-- The template of the source with what this adapter sets over it: every field but `source`.
unfoldable pub capabilities : ClaudeVersionProfile → AdapterCapabilities
capabilities profile = record {
  source = AgentSource.claude_code;
  events = true;
  attention = AttentionCapability.partial;
  decision_response = is_known profile;
  context_open = is_known profile;
  process_attribution = AttributionQuality.unknown;
  context_open_tier =
      if is_known profile then ContextOpenTier.app_activate else ContextOpenTier.absent;
  observe_lifecycle = true;
  observe_tools = true;
  respond_decisions = is_known profile;
  respond_questions = false;
  fail_open_hooks = true;
  requires_external_trust = false;
}
