-- ===== src/Remote/HookIngest/Accepted.antt =====
-- The check of crates/notch-remote/src/protocol.rs on what hook_ingest.rs normalizes.
use llm_notch.Prelude.{
  ℕ, ◌≤◌, ◌<◌, String, ◌≡◌, subst, Option, none, some, Bool, true, false, not, if◌then◌else◌,
  number_key, text_key, arith, inl, inr, Option-cases,
}
use llm_notch.Prelude.Int.{ℤ}
use llm_notch.Remote.Protocol.{
  bind-ok, Result, ok, err, RelayHookPayload, RelayPayload, RelayFrame, ResumeCursor,
  SessionEventPayload, max_remote_frame_bytes, is_bad_event, validate_payload, validate_after,
}
use llm_notch.Remote.HookNames.{
  HookIngestError, to_ascii_lowercase, is_forwardable_event, parse_event_kind,
}
use llm_notch.Remote.HookIngest.{
  resolve_session_id, validate_hook_payload, event_payload, sized, forwarded, normalize_event,
  normalize_hook_payload,
}
use llm_notch.Remote.HookIngest.Valid.{
  IsValid, validate_hook_payload-IsValid, resolve_session_id_lem, event_payload_good,
}

sized-some :
    (encoded_len : RelayFrame → Option ℕ) (sent given : RelayPayload)
    → sized encoded_len sent ≡ ok (some given)
    → sent ≡ given
unfolding sized
sized-some encoded_len sent given e =
    elim (Option-cases (encoded_len (record { sequence = 1; payload = sent }))) [
      | inl h ↦ ground (arith, e, h)
      | inr (size, h) ↦ ground (arith, e, h)
    ]

abbrev IsAccepted : RelayPayload → Type 0
IsAccepted p = validate_payload p ≡ ok tt

session_event-IsAccepted :
    (e : SessionEventPayload) → is_bad_event e ≡ false → IsAccepted (RelayPayload.session_event e)
unfolding validate_payload
session_event-IsAccepted e h = ground (arith, h)

forwarded-IsAccepted :
    (encoded_len : RelayFrame → Option ℕ) (payload : RelayHookPayload) (now_ms : ℤ) (event : String)
    (given : RelayPayload)
    → IsValid payload
    → forwarded encoded_len payload now_ms event ≡ ok (some given)
    → IsAccepted given
unfolding forwarded
forwarded-IsAccepted encoded_len payload now_ms event given valid e =
    let found = bind-ok (resolve_session_id payload) _ (some given) e in
    let parsed = bind-ok (parse_event_kind event) _ (some given) found.2 in
    let sent = RelayPayload.session_event (event_payload payload now_ms found.0 parsed.0) in
    subst IsAccepted (sized-some encoded_len sent given parsed.2) (
      session_event-IsAccepted _ (
        event_payload_good payload now_ms found.0 parsed.0 valid
          (resolve_session_id_lem payload found.0 valid found.1)))

passed_guards :
    (ignored forwardable : Bool) (x : HookIngestError)
    (rest : Result HookIngestError (Option RelayPayload)) (given : RelayPayload)
    → (if ignored then ok none else if not forwardable then err x else rest) ≡ ok (some given)
    → rest ≡ ok (some given)
passed_guards true forwardable x rest given e = cc
passed_guards false true x rest given e = e
passed_guards false false x rest given e = cc

normalize_event-some :
    (encoded_len : RelayFrame → Option ℕ) (payload : RelayHookPayload) (now_ms : ℤ) (event : String)
    (given : RelayPayload)
    → normalize_event encoded_len payload now_ms event ≡ ok (some given)
    → forwarded encoded_len payload now_ms event ≡ ok (some given)
unfolding normalize_event
normalize_event-some encoded_len payload now_ms event given e =
    passed_guards _ (is_forwardable_event event) _ _ given e

normalize_hook_payload-IsAccepted :
    (encoded_len : RelayFrame → Option ℕ) (payload : RelayHookPayload) (now_ms : ℤ)
    (given : RelayPayload)
    → normalize_hook_payload encoded_len payload now_ms ≡ ok (some given)
    → IsAccepted given
unfolding normalize_hook_payload
normalize_hook_payload-IsAccepted encoded_len payload now_ms given e =
    let event = to_ascii_lowercase payload.event in
    let checked = bind-ok (validate_hook_payload payload) _ (some given) e in
    forwarded-IsAccepted encoded_len payload now_ms event given
      (validate_hook_payload-IsValid payload checked.1)
      (normalize_event-some encoded_len payload now_ms event given checked.2)

-- What `normalize_hook_payload` gives for a hook passes the client's check: a frame with it, whose
-- sequence is later than the cursor and whose length in JSON is within `MAX_REMOTE_FRAME_BYTES`, is
-- one that `validate_after` takes.
pub validate_after-normalize_hook_payload :
    (encoded_len : RelayFrame → Option ℕ) (payload : RelayHookPayload) (now_ms : ℤ)
    (given : RelayPayload) (sequence size : ℕ) (cursor : ResumeCursor)
    → normalize_hook_payload encoded_len payload now_ms ≡ ok (some given)
    → cursor.last_sequence < sequence
    → encoded_len (record { sequence = sequence; payload = given }) ≡ some size
    → size ≤ max_remote_frame_bytes
    → validate_after encoded_len (record { sequence = sequence; payload = given }) cursor ≡ ok tt
unfolding validate_after
validate_after-normalize_hook_payload encoded_len payload now_ms given sequence size cursor e later
      sized_so small =
    let accepted = normalize_hook_payload-IsAccepted encoded_len payload now_ms given e in
    ground (arith, accepted, sized_so)
