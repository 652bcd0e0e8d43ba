-- ===== src/Remote/HookIngest.antt =====
-- crates/notch-remote/src/hook_ingest.rs: what a hook reports, as a payload for the relay. The
-- length of a frame in JSON is an argument.
pub mod Valid
pub mod Accepted
use llm_notch.Prelude.{
  ℕ, String, len, Option, none, some, Bool, true, false, not, ◌||◌, ltb, if◌then◌else◌, ◌==◌,
  number_key, [], ◌∷◌,
}
use llm_notch.Prelude.Int.{ℤ}
use llm_notch.Protocol.{SessionEventKind, AttentionKind, max_tool_name_len}
use llm_notch.Remote.Protocol.{
  Result, ok, err, ◌>>=◌, RelayHookPayload, RelayPayload, RelayFrame, SessionEventPayload,
  max_remote_frame_bytes, max_session_id_len, max_event_summary_len,
}
use llm_notch.Remote.HookNames.{
  HookIngestError, to_ascii_lowercase, is_one_of, is_forwardable_event, parse_event_kind,
  parse_attention, normalize_source, default_summary,
}

abbrev pub max_source_len : ℕ
max_source_len = 32

abbrev pub max_event_len : ℕ
max_event_len = 32

abbrev pub max_attention_len : ℕ
max_attention_len = 32

-- `filter(|value| !value.is_empty())`
unfoldable pub filled : Option String → Option String
filled none = none
filled (some value) = if len value == 0 then none else some value

abbrev pub unwrap_or : {A : Type 0} → Option A → A → A
unwrap_or none d = d
unwrap_or (some a) d = a

unfoldable pub resolve_session_id : RelayHookPayload → Result HookIngestError String
unfolding filled
resolve_session_id payload =
    let id : Option String = elim payload.external_session_id [
      | none ↦ payload.session_id
      | some value ↦ some value
    ] in
    elim (filled id) [
      | none ↦ err (HookIngestError.invalid_field "externalSessionId")
      | some value ↦ ok value
    ]

unfoldable pub validate_bounded : String → ℕ → String → Result HookIngestError (Unit {0})
validate_bounded value max field =
    if len value == 0 || ltb max (len value)
    then err (HookIngestError.invalid_field field)
    else ok tt

unfoldable pub validate_optional : Option String → ℕ → String → Result HookIngestError (Unit {0})
unfolding validate_bounded
validate_optional none max field = ok tt
validate_optional (some value) max field = validate_bounded value max field

unfoldable pub validate_summary : Option String → Result HookIngestError (Unit {0})
validate_summary none = ok tt
validate_summary (some value) =
    if ltb max_event_summary_len (len value)
    then err (HookIngestError.invalid_field "summary")
    else ok tt

unfoldable pub validate_attention : Option String → Result HookIngestError (Unit {0})
unfolding validate_bounded parse_attention
validate_attention none = ok tt
validate_attention (some value) = do
  _ ← validate_bounded value max_attention_len "attention"
  elim (parse_attention (some value)) [
    | none ↦ err (HookIngestError.invalid_field "attention")
    | some kind ↦ ok tt
  ]

unfoldable pub validate_hook_payload : RelayHookPayload → Result HookIngestError (Unit {0})
unfolding validate_bounded validate_optional validate_summary validate_attention
validate_hook_payload payload = do
  _ ← validate_bounded payload.source max_source_len "source"
  _ ← validate_bounded payload.event max_event_len "event"
  _ ← validate_optional payload.session_id max_session_id_len "sessionId"
  _ ← validate_optional payload.external_session_id max_session_id_len "externalSessionId"
  _ ← validate_summary payload.summary
  _ ← validate_optional payload.tool_name max_tool_name_len "toolName"
  validate_attention payload.attention

unfoldable pub event_payload :
    RelayHookPayload → ℤ → String → SessionEventKind → SessionEventPayload
unfolding filled parse_attention normalize_source default_summary
event_payload payload now_ms session_id kind = record {
  session_id = session_id;
  source = normalize_source payload.source;
  summary = unwrap_or (filled payload.summary) (default_summary kind);
  occurred_at_ms = unwrap_or payload.occurred_at_ms now_ms;
  kind = some kind;
  tool_name = filled payload.tool_name;
  attention = parse_attention payload.attention;
}

-- The length in JSON of the frame with sequence 1, `none` where `to_vec` fails.
unfoldable pub sized :
    (RelayFrame → Option ℕ) → RelayPayload → Result HookIngestError (Option RelayPayload)
sized encoded_len relay_payload =
    elim (encoded_len (record { sequence = 1; payload = relay_payload })) [
      | none ↦ err HookIngestError.not_forwardable
      | some size ↦
          if ltb max_remote_frame_bytes size
          then err (HookIngestError.invalid_field "summary")
          else ok (some relay_payload)
    ]

unfoldable pub forwarded :
    (RelayFrame → Option ℕ)
    → RelayHookPayload
    → ℤ
    → String
    → Result HookIngestError (Option RelayPayload)
unfolding resolve_session_id parse_event_kind event_payload sized
forwarded encoded_len payload now_ms event = do
  session_id ← resolve_session_id payload
  kind ← parse_event_kind event
  sized encoded_len (RelayPayload.session_event (event_payload payload now_ms session_id kind))

unfoldable pub normalize_event :
    (RelayFrame → Option ℕ)
    → RelayHookPayload
    → ℤ
    → String
    → Result HookIngestError (Option RelayPayload)
unfolding is_one_of is_forwardable_event forwarded
normalize_event encoded_len payload now_ms event =
    if is_one_of ("sessionremove" ∷ "session_remove" ∷ "remove" ∷ []) event
    then ok none
    else if not (is_forwardable_event event)
    then err (HookIngestError.unsupported_event event)
    else forwarded encoded_len payload now_ms event

unfoldable pub normalize_hook_payload :
    (RelayFrame → Option ℕ) → RelayHookPayload → ℤ → Result HookIngestError (Option RelayPayload)
unfolding validate_hook_payload normalize_event to_ascii_lowercase
normalize_hook_payload encoded_len payload now_ms = do
  _ ← validate_hook_payload payload
  normalize_event encoded_len payload now_ms (to_ascii_lowercase payload.event)
