-- ===== src/Decision/Adapter/Outputs.antt =====
-- crates/notch-decision/src/adapter.rs: when there is an output for the vendor.
use llm_notch.Prelude.{String, ◌≡◌, refl, Bool, true, false, Option, arith, inl, inr, Bool-cases}
use llm_notch.Protocol.{AgentSource, DecisionResponse, DecisionResponseAction}
use llm_notch.Decision.Types.{Value}
use llm_notch.Decision.Version.{detect_version}
use llm_notch.Decision.Claude.{
  ClaudeRespondableHook, BuildResult, built, refused, is_known, capabilities,
}
use llm_notch.Decision.Adapter.{
  Vendor, AdapterBuildError, build_claude_stdout, build_vendor_stdout, stdout_for_hook,
  hook_or_disabled, either_key, text_of,
}

-- The version that the hook has named.
abbrev pub version_of : Option Value → Option String
version_of context = text_of (either_key context "claude_code_version" "claudeCodeVersion")

abbrev pub has_adapter : AgentSource → Bool
has_adapter AgentSource.claude_code = true
has_adapter AgentSource.qwen = true
has_adapter _ = false

abbrev pub is_action : DecisionResponse → Bool
is_action (DecisionResponse.action _) = true
is_action (DecisionResponse.answer _) = false

stdout_for_hook_known :
    (vendor : Vendor) (action : DecisionResponseAction) (context : Option Value)
    (hook : BuildResult AdapterBuildError ClaudeRespondableHook) (out : String)
    → stdout_for_hook vendor action context hook ≡ built out
    → is_known (detect_version (version_of context)) ≡ true
unfolding stdout_for_hook capabilities
stdout_for_hook_known vendor action context (refused e) out h = absurd (ground arith)
stdout_for_hook_known vendor action context (built hook) out h =
    elim (Bool-cases (is_known (detect_version (version_of context)))) [
      | inl yes_known ↦ yes_known
      | inr other ↦ absurd (ground (arith, other, h))
    ]

-- There is an output for the vendor only where the agent is Claude Code or Qwen, the response is an
-- action, and the hook has named a version that is known.
pub build_vendor_stdout_known :
    (vendor : Vendor) (source : AgentSource) (hook : Option String) (response : DecisionResponse)
    (context : Option Value) (out : String)
    → build_vendor_stdout vendor source hook response context ≡ built out
    → (has_adapter source ≡ true)
      × (is_action response ≡ true)
      × (is_known (detect_version (version_of context)) ≡ true)
unfolding build_vendor_stdout build_claude_stdout
build_vendor_stdout_known vendor source hook (DecisionResponse.answer _) context out h =
    absurd (ground arith)
build_vendor_stdout_known vendor AgentSource.claude_code hook (DecisionResponse.action a) context
      out h =
    (refl, refl, stdout_for_hook_known vendor a context (hook_or_disabled hook) out h)
build_vendor_stdout_known vendor AgentSource.qwen hook (DecisionResponse.action a) context out h =
    (refl, refl, stdout_for_hook_known vendor a context (hook_or_disabled hook) out h)
build_vendor_stdout_known vendor _ hook (DecisionResponse.action a) context out h =
    absurd (ground arith)
