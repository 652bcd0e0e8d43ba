-- ===== src/Decision/Answers.antt =====
-- crates/notch-decision/src/broker.rs: what a person or the transport does to a waiting decision.
pub mod Honest
pub mod Submission
pub mod Replies
pub mod Pending
use llm_notch.Prelude.{
  String, ◌≡◌, Bool, true, false, List, [], ◌∷◌, ◌++◌, Option, none, some, if◌then◌else◌, ◌==◌,
  text_key, not, retain,
}
use llm_notch.Prelude.Int.{ℤ, leb_ℤ}
use llm_notch.Prelude.Sorting.{sort_by}
use llm_notch.HashMap
use llm_notch.HashMap.{HashMap, HashSet}
use llm_notch.Protocol.{
  DecisionResponse, DecisionResponseAction, DecisionRequest, DecisionResponseRecord,
  DecisionDeliveryState,
}
use llm_notch.Decision.Types.{
  InternalDeliveryState, ActiveDecision, wire_state, response_record, BrokerError, BrokerResult, ok,
  err,
}
use llm_notch.Decision.Claude.{BuildResult, built, refused}
use llm_notch.Decision.Adapter.{
  Vendor, AdapterBuildError, capability_disabled, error_text, build_vendor_stdout, neutral_stdout,
}
use llm_notch.Decision.Store.{update_delivery, list_pending_requests, created_before}
use llm_notch.Decision.Broker.{DecisionBroker, is_chosen, finalize_expired, forget, wake_waiter}

unfoldable pub validate_response : DecisionResponse → BrokerResult (Unit {0})
validate_response (DecisionResponse.action DecisionResponseAction.allow) = ok tt
validate_response (DecisionResponse.action DecisionResponseAction.deny) = ok tt
validate_response (DecisionResponse.answer _) =
    err (BrokerError.invalid_response "question answers are unsupported in protocol v1")

unfoldable pub persist_state :
    DecisionBroker
    → ActiveDecision
    → Option DecisionResponse
    → Option ℤ
    → Option String
    → DecisionBroker
unfolding update_delivery wire_state
persist_state b a response responded_at_ms detail = record b {
  store =
      update_delivery b.store a.request.id (wire_state a.internal_state) response responded_at_ms
        detail;
}

abbrev pub with_state : ActiveDecision → InternalDeliveryState → ActiveDecision
with_state a state = record a { internal_state = state }

-- A write of the state under the lock, and the row after it.
unfoldable pub set_state :
    DecisionBroker
    → String
    → ActiveDecision
    → InternalDeliveryState
    → Option DecisionResponse
    → Option ℤ
    → Option String
    → DecisionBroker
unfolding persist_state HashMap.insert
set_state b id a state response responded_at_ms detail =
    persist_state (record b { active = HashMap.insert b.active id (with_state a state) })
      (with_state a state) response responded_at_ms detail

unfoldable pub build_stdout_for_active :
    Vendor → ActiveDecision → DecisionResponse → BuildResult AdapterBuildError String
unfolding build_vendor_stdout
build_stdout_for_active vendor a response =
    build_vendor_stdout vendor a.request.source a.respondable_hook response a.vendor_context

abbrev pub disabled_text : String
disabled_text = "decision responses disabled for this adapter"

abbrev pub neutral_text : String
neutral_text = "fail-open neutral output cannot be reported as delivered"

-- The entry fails, with the response in the row if it is known there, and its waiter wakes.
unfoldable pub fail_answer :
    DecisionBroker
    → String
    → ActiveDecision
    → Option DecisionResponse
    → ℤ
    → String
    → BrokerResult DecisionResponseRecord × DecisionBroker
unfolding set_state wake_waiter
fail_answer b id a response now detail = (
  err (BrokerError.adapter detail),
  wake_waiter
      (set_state b id a (InternalDeliveryState.failed detail) response (some now) (some detail)) id,
)

abbrev pub is_pending : InternalDeliveryState → Bool
is_pending InternalDeliveryState.pending = true
is_pending _ = false

-- From the adapter's output on.
unfoldable pub answer :
    DecisionBroker
    → String
    → ActiveDecision
    → DecisionResponse
    → ℤ
    → BuildResult AdapterBuildError String
    → BrokerResult DecisionResponseRecord × DecisionBroker
unfolding fail_answer set_state wake_waiter response_record error_text
answer b id a response now (refused capability_disabled) =
    fail_answer b id a (some response) now disabled_text
answer b id a response now (refused e) = fail_answer b id a none now (error_text e)
answer b id a response now (built stdout) =
    let chosen = with_state a (InternalDeliveryState.chosen response now stdout) in
    if stdout == neutral_stdout then fail_answer b id a (some response) now neutral_text else (
      ok (response_record chosen response now),
      wake_waiter
          (set_state b id a (InternalDeliveryState.chosen response now stdout) (some response)
            (some now) none)
          id,
    )

-- From the lookup on. The lock is let go of while an expired entry is finalized and removed: here
-- that is one step.
unfoldable pub submit_valid :
    Vendor
    → DecisionBroker
    → String
    → DecisionResponse
    → ℤ
    → BrokerResult DecisionResponseRecord × DecisionBroker
unfolding finalize_expired forget wake_waiter answer build_stdout_for_active HashMap.get
submit_valid vendor b id response now = elim (HashMap.get b.active id) [
  | none ↦ (err BrokerError.not_found, b)
  | some a ↦
      if not (is_pending a.internal_state)
      then (err BrokerError.already_finalized, b)
      else if leb_ℤ a.expires_at_ms now
      then (err BrokerError.expired, wake_waiter (forget (finalize_expired b a) id) id)
      else if not a.request.has_actionable_payload
      then (err BrokerError.not_actionable, b)
      else answer b id a response now (build_stdout_for_active vendor a response)
]

unfoldable pub submit_decision :
    Vendor
    → DecisionBroker
    → String
    → DecisionResponse
    → ℤ
    → BrokerResult DecisionResponseRecord × DecisionBroker
unfolding validate_response submit_valid
submit_decision vendor b id response now = elim (validate_response response) [
  | err e ↦ (err e, b)
  | ok _ ↦ submit_valid vendor b id response now
]

-- The entry's state decides: only a chosen answer is delivered.
unfoldable pub deliver_from :
    DecisionBroker
    → String
    → ActiveDecision
    → InternalDeliveryState
    → BrokerResult (Unit {0}) × DecisionBroker
unfolding set_state
deliver_from b id a (InternalDeliveryState.chosen _ at out) =
    (ok tt, set_state b id a (InternalDeliveryState.delivered out at) none none none)
deliver_from b id a _ = (err BrokerError.already_finalized, b)

-- `confirm_delivery` up to where it lets go of the lock.
unfoldable pub mark_delivered : DecisionBroker → String → BrokerResult (Unit {0}) × DecisionBroker
unfolding deliver_from HashMap.get
mark_delivered b id = elim (HashMap.get b.active id) [
  | none ↦ (err BrokerError.not_found, b)
  | some a ↦ deliver_from b id a a.internal_state
]

-- What follows a success when the lock is taken again.
unfoldable pub forget_if_ok :
    String → BrokerResult (Unit {0}) × DecisionBroker → BrokerResult (Unit {0}) × DecisionBroker
unfolding forget
forget_if_ok id (ok _, b) = (ok tt, forget b id)
forget_if_ok id (err e, b) = (err e, b)

unfoldable pub confirm_delivery : DecisionBroker → String → BrokerResult (Unit {0}) × DecisionBroker
unfolding mark_delivered forget_if_ok
confirm_delivery b id = forget_if_ok id (mark_delivered b id)

unfoldable pub mark_failed :
    DecisionBroker → String → String → BrokerResult (Unit {0}) × DecisionBroker
unfolding set_state HashMap.get
mark_failed b id detail = elim (HashMap.get b.active id) [
  | none ↦ (err BrokerError.not_found, b)
  | some a ↦
      if not (is_chosen a.internal_state)
      then (err BrokerError.already_finalized, b)
      else (ok tt, set_state b id a (InternalDeliveryState.failed detail) none none (some detail))
]

unfoldable pub fail_delivery :
    DecisionBroker → String → String → BrokerResult (Unit {0}) × DecisionBroker
unfolding mark_failed forget_if_ok
fail_delivery b id detail = forget_if_ok id (mark_failed b id detail)

unfoldable pub observe_from :
    DecisionBroker
    → String
    → String
    → ℤ
    → ActiveDecision
    → InternalDeliveryState
    → BrokerResult (Unit {0}) × DecisionBroker
unfolding update_delivery HashMap.insert
observe_from b id evidence now a (InternalDeliveryState.delivered _ _) = (
  ok tt,
  record b {
    active =
        HashMap.insert b.active id
          (with_state a (InternalDeliveryState.effect_observed evidence now));
    store =
        update_delivery b.store id DecisionDeliveryState.effect_observed none none (some evidence);
  },
)
observe_from b id evidence now a _ = (err BrokerError.already_finalized, b)

unfoldable pub observe_effect :
    DecisionBroker → String → String → ℤ → BrokerResult (Unit {0}) × DecisionBroker
unfolding observe_from HashMap.get
observe_effect b id evidence now = elim (HashMap.get b.active id) [
  | none ↦ (err BrokerError.not_found, b)
  | some a ↦ observe_from b id evidence now a a.internal_state
]

-- The entries that the table does not have yet are added, in the order of the map.
unfoldable pub add_active :
    ℤ
    → HashSet String
    → List DecisionRequest
    → List (String × ActiveDecision)
    → List DecisionRequest
unfolding HashMap.insert HashMap.contains_key
add_active now seen requests [] = requests
add_active now seen requests ((k, a) ∷ rest) =
    let skipped = add_active now seen requests rest in
    let added =
      add_active now (HashMap.insert seen a.request.id tt) (requests ++ a.request ∷ []) rest in
    if not (is_pending a.internal_state)
    then skipped
    else if leb_ℤ a.expires_at_ms now
    then skipped
    else if HashMap.contains_key seen a.request.id
    then skipped
    else added

unfoldable pub set_of : List DecisionRequest → HashSet String
unfolding HashMap.insert
set_of [] = []
set_of (q ∷ requests) = HashMap.insert (set_of requests) q.id tt

unfoldable pub list_pending : DecisionBroker → ℤ → BrokerResult (List DecisionRequest)
unfolding add_active set_of sort_by list_pending_requests
list_pending b now = elim (list_pending_requests b.store now) [
  | err e ↦ err e
  | ok requests ↦ ok (sort_by created_before (add_active now (set_of requests) requests b.active))
]
