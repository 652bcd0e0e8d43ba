-- ===== src/Examples/Decisions.antt =====
-- A permission that is asked for and given.
use llm_notch.Prelude.{
  ◌≡◌, ◌≢◌, ◌↔◌, refl, true, List, [], ◌∷◌, none, some, arith, text_key, eq_iff, All,
}
use llm_notch.Prelude.Int.{ℤ, pos, ◌+ℤ◌}
use llm_notch.Prelude.Sorting.{IsSorted, sort_by}
use llm_notch.HashMap
use llm_notch.Protocol.{
  AgentSource, DecisionKind, DecisionResponse, DecisionResponseAction, DecisionDeliveryState,
  DecisionRequest, decision_fail_open_timeout_ms,
}
use llm_notch.Decision.Types.{
  Value, object, member, no_members, text, DecisionWaitPayload, InternalDeliveryState,
  ActiveDecision, BrokerError, ok, err, is_terminal,
}
use llm_notch.Decision.Claude.{built, is_known}
use llm_notch.Decision.Version.{detect_version}
use llm_notch.Decision.Adapter.Outputs.{
  build_vendor_stdout_known, has_adapter, is_action, version_of,
}
use llm_notch.Decision.Adapter.{Vendor, build_vendor_stdout, neutral_stdout}
use llm_notch.Decision.Store.{
  created_before, list_pending_requests, truncate_summary, upsert_active,
}
use llm_notch.Decision.Broker.{
  DecisionBroker, register, registered, reply_of, reply_in, neutral_reply,
}
use llm_notch.Decision.Answers.{
  with_state, submit_decision, validate_response, confirm_delivery, forget_if_ok, observe_effect,
  list_pending,
}
use llm_notch.Decision.Answers.Honest.{IsHonest, IsAnswered}
use llm_notch.Decision.Answers.Honest.Run.{Act, Run, Heard, Run-IsHonest}
use llm_notch.Decision.Answers.Replies.{reply_of-IsAnswered, reply_of-register}
use llm_notch.Decision.Answers.Submission.{
  IsOk, IsAcceptable, IsStored, submit_decision_iff, submit-submit, observe-confirm,
}
use llm_notch.Decision.Answers.Pending.{list_pending_lem, IsShown}
use llm_notch.Examples.Data.{id_for}

-- Every value is printed as one text.
abbrev vendor : Vendor
vendor = record { to_string = λ v. built "{..}" }

abbrev new_broker : DecisionBroker
new_broker = record {
  store = record { decision_audit = []; reachable = true };
  active = [];
  waiters = [];
  wait_timeout_ms = decision_fail_open_timeout_ms;
}

abbrev context : Value
context = object (member "claude_code_version" (text "2.1.205") no_members)

abbrev wait : DecisionWaitPayload
wait = record {
  nonce = "n-1";
  source = AgentSource.claude_code;
  vendor_event = "PermissionRequest";
  external_session_id = "a";
  session_id = none;
  decision_kind = DecisionKind.permission;
  summary = "Allow?";
  has_actionable_payload = true;
  respondable_hook = some "permissionRequest";
  tool_name = none;
  connection_id = "c-1";
  vendor_context = some context;
  created_at_ms = pos 1000;
}

abbrev allow : DecisionResponse
allow = DecisionResponse.action DecisionResponseAction.allow

waiting_broker : DecisionBroker
waiting_broker = (register id_for new_broker wait 7).1

answered_broker : DecisionBroker
unfolding waiting_broker
answered_broker = (submit_decision vendor waiting_broker "n-1" allow (pos 2000)).1

run : Run vendor id_for new_broker answered_broker
unfolding answered_broker waiting_broker
run =
    Run.act_next (Run.act_next (Run.at_start new_broker) (Act.registers new_broker wait 7))
      (Act.submits waiting_broker "n-1" allow (pos 2000))

Run-IsHonest_example : IsHonest vendor (Heard vendor id_for run) answered_broker
Run-IsHonest_example = Run-IsHonest vendor id_for run refl

accepted : IsOk (submit_decision vendor waiting_broker "n-1" allow (pos 2000)).0
unfolding waiting_broker submit_decision register HashMap.get HashMap.insert ◌+ℤ◌
accepted = tt

-- The entry after the answer.
abbrev chosen : ActiveDecision
unfolding registered
chosen =
    with_state (registered id_for new_broker wait)
      (InternalDeliveryState.chosen allow (pos 2000) "{..}")

chosen_is_stored : HashMap.get answered_broker.active "n-1" ≡ some chosen
unfolding answered_broker waiting_broker submit_decision register HashMap.get HashMap.insert ◌+ℤ◌
chosen_is_stored = refl

output_acts : (reply_of answered_broker "n-1").stdout_json ≢ neutral_stdout
unfolding answered_broker waiting_broker submit_decision register HashMap.get HashMap.insert ◌+ℤ◌
    reply_of reply_in
output_acts e = ground (arith, (eq_iff "{..}" neutral_stdout).1 e)

reply_of-IsAnswered_example :
    (a : ActiveDecision) × (HashMap.get answered_broker.active "n-1" ≡ some a)
    × (response : DecisionResponse) × (at : ℤ) × IsAnswered vendor
        (Heard vendor id_for run)
        "n-1"
        a
        response
        at
        (reply_of answered_broker "n-1").stdout_json
reply_of-IsAnswered_example = reply_of-IsAnswered vendor id_for run "n-1" refl output_acts

submit_decision_iff_example :
    (IsOk (submit_decision vendor waiting_broker "n-1" allow (pos 2000)).0
      ↔ IsAcceptable vendor waiting_broker "n-1" allow (pos 2000))
    × (IsOk (submit_decision vendor waiting_broker "n-1" allow (pos 2000)).0
        → IsStored vendor waiting_broker
            (submit_decision vendor waiting_broker "n-1" allow (pos 2000)).1
            "n-1"
            allow
            (pos 2000))
submit_decision_iff_example = submit_decision_iff vendor waiting_broker "n-1" allow (pos 2000)

submit-submit_example :
    submit_decision vendor answered_broker "n-1" allow (pos 3000)
    ≡ (err BrokerError.already_finalized, answered_broker)
unfolding validate_response answered_broker
submit-submit_example =
    submit-submit vendor waiting_broker answered_broker "n-1" allow allow (pos 2000) (pos 3000)
      accepted refl

delivered : (confirm_delivery answered_broker "n-1").0 ≡ ok tt
unfolding answered_broker waiting_broker submit_decision register HashMap.get HashMap.insert ◌+ℤ◌
    confirm_delivery forget_if_ok
delivered = refl

observe-confirm_example :
    observe_effect (confirm_delivery answered_broker "n-1").1 "n-1" "seen" (pos 3000)
    ≡ (err BrokerError.not_found, (confirm_delivery answered_broker "n-1").1)
observe-confirm_example = observe-confirm answered_broker "n-1" "seen" (pos 3000) delivered

reply_of-register_example :
    (HashMap.get (register id_for answered_broker wait 8).1.active "n-1"
      ≡ some (registered id_for answered_broker wait))
    × (reply_of (register id_for answered_broker wait 8).1 "n-1"
        ≡ neutral_reply "n-1" DecisionDeliveryState.expired)
unfolding is_terminal registered
reply_of-register_example =
    reply_of-register id_for answered_broker wait 8 chosen chosen_is_stored refl refl

row : DecisionRequest
unfolding registered ◌+ℤ◌ truncate_summary
row = record (registered id_for new_broker wait).request { session_id = "s-a" }

one_row : list_pending_requests waiting_broker.store (pos 2000) ≡ ok (row ∷ [])
unfolding row waiting_broker register HashMap.get HashMap.insert ◌+ℤ◌ list_pending_requests sort_by
    upsert_active registered truncate_summary
one_row = refl

list_pending_lem_example :
    (shown : List DecisionRequest) × (list_pending waiting_broker (pos 2000) ≡ ok shown)
    × IsSorted created_before shown
    × All (IsShown (pos 2000) shown) waiting_broker.active
list_pending_lem_example = list_pending_lem waiting_broker (pos 2000) (row ∷ []) one_row

allow_is_built :
    build_vendor_stdout vendor AgentSource.qwen (some "permissionRequest") allow (some context)
    ≡ built "{..}"
unfolding build_vendor_stdout
allow_is_built = refl

build_vendor_stdout_known_example :
    (has_adapter AgentSource.qwen ≡ true)
    × (is_action allow ≡ true)
    × (is_known (detect_version (version_of (some context))) ≡ true)
build_vendor_stdout_known_example =
    build_vendor_stdout_known vendor AgentSource.qwen (some "permissionRequest") allow
      (some context) "{..}" allow_is_built
