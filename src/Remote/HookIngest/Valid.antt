-- ===== src/Remote/HookIngest/Valid.antt =====
-- The fields of a payload that crates/notch-remote/src/hook_ingest.rs takes, and of the event that it
-- makes of it.
use llm_notch.Prelude.{
  ℕ, ◌≤◌, ◌<◌, String, len, ◌≡◌, refl, subst, Option, none, some, false, ◌==◌, number_key, text_key,
  arith, inl, inr, Option-cases, if_split,
}
use llm_notch.Prelude.Int.{ℤ}
use llm_notch.Protocol.{SessionEventKind, max_tool_name_len}
use llm_notch.Remote.Protocol.{
  ok, RelayHookPayload, SessionEventPayload, max_session_id_len, max_event_summary_len,
  is_bad_tool_name, is_bad_event,
}
use llm_notch.Remote.HookNames.{source_of, normalize_source, to_ascii_lowercase, default_summary}
use llm_notch.Remote.HookIngest.{
  filled, unwrap_or, resolve_session_id, validate_bounded, validate_optional, validate_summary,
  validate_hook_payload, event_payload,
}

abbrev pub IsBounded : ℕ → String → Type 0
IsBounded max value = (0 < len value) × (len value ≤ max)

validate_bounded_lem :
    (value : String) (max : ℕ) (field : String)
    → validate_bounded value max field ≡ ok tt
    → IsBounded max value
unfolding validate_bounded
validate_bounded_lem value max field e = ground arith

validate_optional_lem :
    (value : Option String) (max : ℕ) (field : String)
    → validate_optional value max field ≡ ok tt
    → (v : String) → value ≡ some v
    → IsBounded max v
unfolding validate_optional
validate_optional_lem none max field e v is = cc
validate_optional_lem (some u) max field e v is =
    let same : u ≡ v = cc in subst (IsBounded max) same (validate_bounded_lem u max field e)

pub record IsValid (payload : RelayHookPayload) : Type 0 where
  pub session_id : (v : String) → payload.session_id ≡ some v → IsBounded max_session_id_len v
  pub external_session_id :
      (v : String) → payload.external_session_id ≡ some v → IsBounded max_session_id_len v
  pub summary : validate_summary payload.summary ≡ ok tt
  pub tool_name : (v : String) → payload.tool_name ≡ some v → IsBounded max_tool_name_len v

pub validate_hook_payload-IsValid :
    (payload : RelayHookPayload) → validate_hook_payload payload ≡ ok tt → IsValid payload
unfolding validate_hook_payload
validate_hook_payload-IsValid payload e = record {
  session_id =
      validate_optional_lem payload.session_id max_session_id_len "sessionId" (ground (arith, e));
  external_session_id =
      validate_optional_lem payload.external_session_id max_session_id_len "externalSessionId"
        (ground (arith, e));
  summary = ground (arith, e);
  tool_name =
      validate_optional_lem payload.tool_name max_tool_name_len "toolName" (ground (arith, e));
}

filled-IsBounded :
    (u id : String)
    → IsBounded max_session_id_len u
    → filled (some u) ≡ some id
    → IsBounded max_session_id_len id
unfolding filled
filled-IsBounded u id b e =
    let same : u ≡ id = ground (arith, e, b) in subst (IsBounded max_session_id_len) same b

pub resolve_session_id_lem :
    (payload : RelayHookPayload) (id : String)
    → IsValid payload
    → resolve_session_id payload ≡ ok id
    → IsBounded max_session_id_len id
unfolding resolve_session_id filled
resolve_session_id_lem payload id valid e = elim (Option-cases payload.external_session_id) [
  | inr (u, h) ↦ filled-IsBounded u id (valid.external_session_id u h) (ground (arith, e, h))
  | inl h ↦ elim (Option-cases payload.session_id) [
    | inr (u, g) ↦ filled-IsBounded u id (valid.session_id u g) (ground (arith, e, h, g))
    | inl g ↦ ground (arith, e, h, g)
  ]
]

record IsShort (source : String) : Type 0 where
  bounds : IsBounded 64 source

source_of-IsShort : (name : String) → IsShort (source_of name)
unfolding source_of
source_of-IsShort name =
    if_split (name == "cursor") {x = "cursor"} IsShort (record { bounds = omega arith })
      (if_split _ {x = "claudeCode"} IsShort (record { bounds = omega arith })
        (if_split (name == "codex") {x = "codex"} IsShort (record { bounds = omega arith })
          (if_split _ {x = "gemini"} IsShort (record { bounds = omega arith })
            (if_split _ {x = "antigravityCli"} IsShort (record { bounds = omega arith })
              (if_split _ {x = "copilotCli"} IsShort (record { bounds = omega arith })
                (if_split _ {x = "qwen"} {y = "generic"} IsShort (record { bounds = omega arith })
                  (record { bounds = omega arith })))))))

default_summary_bound :
    (kind : SessionEventKind) → len (default_summary kind) ≤ max_event_summary_len
unfolding default_summary
default_summary_bound SessionEventKind.lifecycle = omega arith
default_summary_bound SessionEventKind.tool = omega arith
default_summary_bound SessionEventKind.attention = omega arith
default_summary_bound SessionEventKind.status = omega arith

summary_bound :
    (summary : Option String) (kind : SessionEventKind)
    → validate_summary summary ≡ ok tt
    → len (unwrap_or (filled summary) (default_summary kind)) ≤ max_event_summary_len
unfolding validate_summary filled
summary_bound none kind e = default_summary_bound kind
summary_bound (some value) kind e = ground (arith, e, default_summary_bound kind)

tool_name_good :
    (tool_name : Option String)
    → ((v : String) → tool_name ≡ some v → IsBounded max_tool_name_len v)
    → is_bad_tool_name (filled tool_name) ≡ false
unfolding is_bad_tool_name filled
tool_name_good none bounded = refl
tool_name_good (some value) bounded = ground (arith, bounded value refl)

is_bad_event-false :
    (e : SessionEventPayload)
    → IsBounded max_session_id_len e.session_id
    → IsBounded 64 e.source
    → len e.summary ≤ max_event_summary_len
    → is_bad_tool_name e.tool_name ≡ false
    → is_bad_event e ≡ false
unfolding is_bad_event
is_bad_event-false e id source summary tool_name = ground arith

pub event_payload_good :
    (payload : RelayHookPayload) (now_ms : ℤ) (id : String) (kind : SessionEventKind)
    → IsValid payload
    → IsBounded max_session_id_len id
    → is_bad_event (event_payload payload now_ms id kind) ≡ false
unfolding event_payload normalize_source
event_payload_good payload now_ms id kind valid bounded =
    is_bad_event-false (event_payload payload now_ms id kind) bounded
      (source_of-IsShort (to_ascii_lowercase payload.source)).bounds
      (summary_bound payload.summary kind valid.summary)
      (tool_name_good payload.tool_name valid.tool_name)
