-- ===== src/Remote/Protocol.antt =====
-- crates/notch-remote/src/protocol.rs, with the payload of a hook of hook_ingest.rs and a host of
-- config.rs. A path is a text; the length of a frame in JSON is an argument.
use llm_notch.Prelude.{
  ℕ, ◌*◌, String, len, Option, none, some, Bool, false, ◌||◌, ltb, leb, if◌then◌else◌, ◌==◌,
  number_key,
}
use llm_notch.Prelude.Int.{ℤ}
pub use llm_notch.Prelude.Result.{Result, ok, err, ◌>>=◌, bind-ok}
use llm_notch.Protocol.{SessionEventKind, AttentionKind, max_tool_name_len}

abbrev pub max_remote_frame_bytes : ℕ
max_remote_frame_bytes = 256 * 1024

abbrev pub max_session_id_len : ℕ
max_session_id_len = 256

abbrev pub max_event_summary_len : ℕ
max_event_summary_len = 512

pub data SshHostKeyPolicy : Type 0 where
  strict accept_new : SshHostKeyPolicy

pub record RemoteHostConfig : Type 0 where
  pub id : String
  pub destination : String
  pub port : Option ℕ
  pub identity_file : Option String
  pub known_hosts_file : Option String
  pub host_key_policy : SshHostKeyPolicy
  pub connect_timeout_seconds : ℕ

pub record ResumeCursor : Type 0 where
  pub last_sequence : ℕ

pub record RelayHello : Type 0 where
  pub protocol_version : ℕ
  pub host_id : String
  pub connection_nonce : String
  pub resume : ResumeCursor

pub record RelayHookPayload : Type 0 where
  pub source : String
  pub event : String
  pub session_id : Option String
  pub external_session_id : Option String
  pub summary : Option String
  pub occurred_at_ms : Option ℤ
  pub tool_name : Option String
  pub attention : Option String

pub record SessionEventPayload : Type 0 where
  pub session_id : String
  pub source : String
  pub summary : String
  pub occurred_at_ms : ℤ
  pub kind : Option SessionEventKind
  pub tool_name : Option String
  pub attention : Option AttentionKind

pub data RelayPayload : Type 0 where
  session_event : SessionEventPayload → RelayPayload
  checkpoint heartbeat : RelayPayload
  error : String → RelayPayload

pub record RelayFrame : Type 0 where
  pub sequence : ℕ
  pub payload : RelayPayload

pub data ProtocolError : Type 0 where
  incompatible_version frame_too_large invalid_field sequence_regression : ProtocolError

unfoldable pub is_bad_tool_name : Option String → Bool
is_bad_tool_name none = false
is_bad_tool_name (some name) = len name == 0 || ltb max_tool_name_len (len name)

unfoldable pub is_bad_event : SessionEventPayload → Bool
unfolding is_bad_tool_name
is_bad_event e =
    len e.session_id == 0
    || (ltb max_session_id_len (len e.session_id)
        || (len e.source == 0
            || (ltb 64 (len e.source)
                || (ltb max_event_summary_len (len e.summary) || is_bad_tool_name e.tool_name))))

unfoldable pub validate_payload : RelayPayload → Result ProtocolError (Unit {0})
unfolding is_bad_event
validate_payload (RelayPayload.session_event e) =
    if is_bad_event e then err ProtocolError.invalid_field else ok tt
validate_payload (RelayPayload.error code) =
    if len code == 0 || ltb 64 (len code) then err ProtocolError.invalid_field else ok tt
validate_payload RelayPayload.checkpoint = ok tt
validate_payload RelayPayload.heartbeat = ok tt

-- `serde_json::to_vec(self)`, `none` where it fails
unfoldable pub check_size : Option ℕ → Result ProtocolError (Unit {0})
check_size none = err ProtocolError.invalid_field
check_size (some size) =
    if ltb max_remote_frame_bytes size then err ProtocolError.frame_too_large else ok tt

unfoldable pub validate_after :
    (RelayFrame → Option ℕ) → RelayFrame → ResumeCursor → Result ProtocolError (Unit {0})
unfolding validate_payload check_size
validate_after encoded_len frame cursor =
    if leb frame.sequence cursor.last_sequence
    then err ProtocolError.sequence_regression
    else elim (validate_payload frame.payload) [
      | err e ↦ err e
      | ok _ ↦ check_size (encoded_len frame)
    ]
