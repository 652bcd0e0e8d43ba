-- ===== src/Remote/HookNames.antt =====
-- crates/notch-remote/src/hook_ingest.rs: the names that a hook uses, whatever their case.
use Prim.Native.String.{◌∷◌ as char_cons, [] as no_text}
use Prim.Native.Char.{Char, code}
use llm_notch.Prelude.{
  ℕ, zero, suc, ◌-◌, String, Option, none, some, Bool, ◌&&◌, leb, if◌then◌else◌, ◌==◌, text_key,
  List, [], ◌∷◌, any_of,
}
use llm_notch.Protocol.{SessionEventKind, AttentionKind}
use llm_notch.Remote.Protocol.{Result, ok, err}

pub data HookIngestError : Type 0 where
  invalid_field unsupported_event : String → HookIngestError
  not_forwardable : HookIngestError

unfoldable pub char_at : ℕ → Char → String → Char
char_at n c no_text = c
char_at zero c (char_cons d s) = d
char_at (suc n) c (char_cons d s) = char_at n c s

unfoldable pub to_lower : Char → Char
unfolding char_at
to_lower c =
    if leb 65 (code c) && leb (code c) 90
    then char_at (code c - 65) c "abcdefghijklmnopqrstuvwxyz"
    else c

unfoldable pub to_ascii_lowercase : String → String
unfolding to_lower
to_ascii_lowercase no_text = no_text
to_ascii_lowercase (char_cons c s) = char_cons (to_lower c) (to_ascii_lowercase s)

-- `matches!` on texts
unfoldable pub is_one_of : List String → String → Bool
unfolding any_of
is_one_of names s = any_of (λ name. s == name) names

abbrev pub lifecycle_events : List String
lifecycle_events =
    "lifecycle" ∷ "sessionevent" ∷ "event" ∷ "sessionstart" ∷ "session_start" ∷ "start"
    ∷ "sessionend" ∷ "session_end" ∷ "end" ∷ "complete" ∷ "fail" ∷ []

unfoldable pub is_forwardable_event : String → Bool
unfolding is_one_of
is_forwardable_event event =
    is_one_of
      ("sessionevent" ∷ "event" ∷ "tool" ∷ "attention" ∷ "status" ∷ "statuschange" ∷ "status_change"
        ∷ "lifecycle" ∷ "sessionstart" ∷ "session_start" ∷ "start" ∷ "sessionend" ∷ "session_end"
        ∷ "end" ∷ "complete" ∷ "fail" ∷ [])
      event

unfoldable pub parse_event_kind : String → Result HookIngestError SessionEventKind
unfolding is_one_of
parse_event_kind event =
    if event == "tool"
    then ok SessionEventKind.tool
    else if event == "attention"
    then ok SessionEventKind.attention
    else if is_one_of ("status" ∷ "statuschange" ∷ "status_change" ∷ []) event
    then ok SessionEventKind.status
    else if is_one_of lifecycle_events event
    then ok SessionEventKind.lifecycle
    else err (HookIngestError.unsupported_event event)

unfoldable pub attention_of : String → Option AttentionKind
attention_of name =
    if name == "none"
    then some AttentionKind.absent
    else if name == "approval"
    then some AttentionKind.approval
    else if name == "question"
    then some AttentionKind.question
    else if name == "permission"
    then some AttentionKind.permission
    else if name == "error"
    then some AttentionKind.error
    else none

unfoldable pub parse_attention : Option String → Option AttentionKind
unfolding attention_of to_ascii_lowercase
parse_attention none = none
parse_attention (some value) = attention_of (to_ascii_lowercase value)

unfoldable pub source_of : String → String
unfolding is_one_of
source_of name =
    if name == "cursor"
    then "cursor"
    else if is_one_of ("claudecode" ∷ "claude_code" ∷ "claude-code" ∷ []) name
    then "claudeCode"
    else if name == "codex"
    then "codex"
    else if is_one_of ("gemini" ∷ "geminicli" ∷ "gemini-cli" ∷ []) name
    then "gemini"
    else if is_one_of ("antigravitycli" ∷ "antigravity-cli" ∷ "antigravity" ∷ "agy" ∷ []) name
    then "antigravityCli"
    else if is_one_of ("copilotcli" ∷ "copilot-cli" ∷ "copilot" ∷ []) name
    then "copilotCli"
    else if is_one_of ("qwen" ∷ "qwen-cli" ∷ "qwencode" ∷ []) name
    then "qwen"
    else "generic"

unfoldable pub normalize_source : String → String
unfolding source_of to_ascii_lowercase
normalize_source value = source_of (to_ascii_lowercase value)

unfoldable pub default_summary : SessionEventKind → String
default_summary SessionEventKind.lifecycle = "Session lifecycle update"
default_summary SessionEventKind.tool = "Tool activity"
default_summary SessionEventKind.attention = "Attention required"
default_summary SessionEventKind.status = "Status update"
