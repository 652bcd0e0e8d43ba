-- ===== src/Remote/Supervisor.antt =====
-- How `poll` of src-tauri/src/services/remote.rs takes a frame from a session that streams. The times
-- at which it reconnects are not part of this.
pub mod Frames
use llm_notch.Prelude.{
  ℕ, ◌<◌, String, ◌≡◌, refl, Option, none, some, Bool, true, if◌then◌else◌, ltb, arith,
}
use llm_notch.Prelude.Int.{ℤ}
use llm_notch.Protocol.{SessionEventKind, AttentionKind}
use llm_notch.Remote.Protocol.{
  Result, ok, err, ResumeCursor, RelayFrame, RelayPayload, SessionEventPayload,
}
use llm_notch.Remote.Transport.{TransportError, RemoteTransport}
use llm_notch.Remote.Session.{
  RelaySession, RelaySessionError, Answer, receive, acknowledge, acknowledged, received, checked,
  map_or, advance,
}

pub record RelaySessionEventIngest : Type 0 where
  pub host_id : String
  pub external_session_id : String
  pub source : String
  pub summary : String
  pub occurred_at_ms : ℤ
  pub kind : Option SessionEventKind
  pub tool_name : Option String
  pub attention : Option AttentionKind

unfoldable pub extract_relay_session_event : String → RelayPayload → Option RelaySessionEventIngest
extract_relay_session_event host_id (RelayPayload.session_event e) = some (record {
  host_id = host_id;
  external_session_id = e.session_id;
  source = e.source;
  summary = e.summary;
  occurred_at_ms = e.occurred_at_ms;
  kind = e.kind;
  tool_name = e.tool_name;
  attention = e.attention;
})
extract_relay_session_event host_id RelayPayload.checkpoint = none
extract_relay_session_event host_id RelayPayload.heartbeat = none
extract_relay_session_event host_id (RelayPayload.error code) = none

module _ {C W : Type 0} where
  -- The event is given out once the relay took the acknowledgement.
  unfoldable pub ingest_of :
      Option RelaySessionEventIngest
      → Answer C W (Unit {0})
      → Answer C W (Option RelaySessionEventIngest)
  ingest_of ingest (ok _, s, w) = (ok ingest, s, w)
  ingest_of ingest (err e, s, w) = (err e, s, w)

  -- The events that the poll has after an answer of `handle_relay_frame`: an error is only logged.
  unfoldable pub pushed :
      Answer C W (Option RelaySessionEventIngest)
      → Option RelaySessionEventIngest × RelaySession C × W
  pushed (ok event, s, w) = (event, s, w)
  pushed (err e, s, w) = (none, s, w)

module _ {C W : Type 0} (t : RemoteTransport C W) where
  unfoldable pub handle_relay_frame :
      RelaySession C → RelayFrame → W → Answer C W (Option RelaySessionEventIngest)
  unfolding extract_relay_session_event acknowledge ingest_of
  handle_relay_frame s frame w =
      ingest_of (extract_relay_session_event s.host.id frame.payload)
        (acknowledge t s (record { last_sequence = frame.sequence }) w)

  unfoldable pub polled :
      Answer C W (Option RelayFrame) → Option RelaySessionEventIngest × RelaySession C × W
  unfolding handle_relay_frame pushed
  polled (ok (some frame), s, w) = pushed (handle_relay_frame s frame w)
  polled (ok none, s, w) = (none, s, w)
  polled (err e, s, w) = (none, s, w)

  unfoldable pub poll_streaming :
      RelaySession C → W → Option RelaySessionEventIngest × RelaySession C × W
  unfolding polled receive
  poll_streaming s w = polled (receive t s w)
