-- ===== src/Examples/Remote.antt =====
-- Sessions with relays.
use llm_notch.Prelude.{ℕ, ◌+◌, ◌≡◌, refl, Option, none, some, true, List, [], ◌∷◌, map, arith}
use llm_notch.Prelude.Int.{ℤ, pos, negsuc}
use llm_notch.Protocol.{SessionEventKind}
use llm_notch.Remote.Protocol.{
  ok, err, SshHostKeyPolicy, RemoteHostConfig, ResumeCursor, RelayFrame, RelayPayload,
  RelayHookPayload, validate_after,
}
use llm_notch.Remote.Reconnect.{ConnectionState, ReconnectPolicy, default_policy, delay_ms}
use llm_notch.Remote.Reconnect.Bounds.{IsWithin, delay_ms_bounds}
use llm_notch.Remote.Transport.{TransportError, RemoteTransport}
use llm_notch.Remote.Session.{RelaySession, RelaySessionError, with_resume, stop}
use llm_notch.Remote.Session.Calls.{Call, run}
use llm_notch.Remote.Session.Kept.{IsSound, highest}
use llm_notch.Remote.Session.Soundness.{run-IsSound}
use llm_notch.Remote.Session.Retries.{ticks_give_up}
use llm_notch.Remote.Session.Stopping.{IsStuck, stop_refused}
use llm_notch.Remote.Supervisor.{poll_streaming}
use llm_notch.Remote.Supervisor.Frames.{Delivers, poll_streaming_frame}
use llm_notch.Remote.HookIngest.{normalize_hook_payload}
use llm_notch.Remote.HookIngest.Accepted.{validate_after-normalize_hook_payload}

abbrev a_remote : RemoteHostConfig
a_remote = record {
  id = "remote-1";
  destination = "dev@example.internal";
  port = none;
  identity_file = none;
  known_hosts_file = none;
  host_key_policy = SshHostKeyPolicy.strict;
  connect_timeout_seconds = 10;
}

abbrev start_cursor : ResumeCursor
start_cursor = record { last_sequence = 0 }

abbrev a_relay_event : RelayPayload
a_relay_event = RelayPayload.session_event (record {
  session_id = "s-1";
  source = "codex";
  summary = "Tool activity";
  occurred_at_ms = pos 5;
  kind = some SessionEventKind.tool;
  tool_name = none;
  attention = none;
})

abbrev a_relay_frame : RelayFrame
a_relay_frame = record { sequence = 7; payload = a_relay_event }

-- A relay that streams one frame again and again, and refuses acknowledgements and an end. The world
-- counts the calls.
abbrev stubborn : RemoteTransport ℕ ℕ
stubborn = record {
  connect = λ host cursor w. (ok w, w + 1);
  hello = λ c. record {
    protocol_version = 1;
    host_id = "remote-1";
    connection_nonce = "n";
    resume = start_cursor;
  };
  receive = λ c w. (ok (some a_relay_frame), w + 1);
  acknowledge = λ c cursor w. (err TransportError.disconnected, w + 1);
  inject_hook = λ c payload w. (ok tt, w + 1);
  close = λ c w. (err TransportError.disconnected, w + 1);
  is_alive = λ c w. (ok true, w + 1);
}

abbrev unreachable : RemoteTransport ℕ ℕ
unreachable = record stubborn {
  connect = λ host cursor w. (err TransportError.authentication_failed, w + 1);
}

abbrev a_policy : ReconnectPolicy
a_policy = record default_policy { max_attempts = 2 }

abbrev an_idle_session : RelaySession ℕ
an_idle_session = record {
  host = a_remote;
  reconnect = a_policy;
  connection = none;
  state = ConnectionState.disconnected;
  resume = start_cursor;
  last_error = none;
  attempt = 0;
}

abbrev a_streaming_session : RelaySession ℕ
a_streaming_session = record an_idle_session {
  connection = some 3;
  state = ConnectionState.streaming;
}

abbrev some_calls : List Call
some_calls =
    Call.start
    ∷ Call.receive
    ∷ Call.acknowledge (record { last_sequence = 7 })
    ∷ Call.snapshot
    ∷ Call.stop
    ∷ Call.tick_reconnect (pos 0)
    ∷ []

run-IsSound_example :
    IsSound (run stubborn some_calls (with_resume a_remote a_policy start_cursor) 0).1
    × ((run stubborn some_calls
          (with_resume a_remote a_policy start_cursor)
          0).1.resume.last_sequence
        ≡ highest 0 (run stubborn some_calls (with_resume a_remote a_policy start_cursor) 0).0)
run-IsSound_example = run-IsSound stubborn a_remote a_policy start_cursor some_calls 0

abbrev three_jitters : List ℤ
three_jitters = pos 0 ∷ negsuc 9 ∷ pos 9000 ∷ []

ticks_give_up_example :
    ((run unreachable (map Call.tick_reconnect three_jitters) an_idle_session 0).1.attempt ≡ 2)
    × ((run unreachable (map Call.tick_reconnect three_jitters) an_idle_session 0).1.state
        ≡ ConnectionState.failed)
ticks_give_up_example =
    ticks_give_up unreachable three_jitters an_idle_session 0
      (λ host cursor w. (TransportError.authentication_failed, refl)) (omega arith) refl
      (omega arith)

stop_refused_example :
    ((stop stubborn a_streaming_session 0).0
      ≡ err (RelaySessionError.transport TransportError.disconnected))
    × IsStuck stubborn
        (stop stubborn a_streaming_session 0).1
        (stop stubborn a_streaming_session 0).2
stop_refused_example =
    stop_refused stubborn a_streaming_session 3 TransportError.disconnected 0 refl refl refl

poll_streaming_frame_example :
    Delivers stubborn a_streaming_session a_relay_frame
      (err TransportError.disconnected)
      (poll_streaming stubborn a_streaming_session 0)
poll_streaming_frame_example =
    poll_streaming_frame stubborn a_streaming_session 3 a_relay_frame 0 refl refl refl

delay_ms_bounds_example : IsWithin default_policy 3 (delay_ms default_policy 3 (pos 100))
delay_ms_bounds_example = delay_ms_bounds default_policy 3 (pos 100) (omega arith)

abbrev a_hook : RelayHookPayload
a_hook = record {
  source = "Codex";
  event = "Tool";
  session_id = none;
  external_session_id = some "s-1";
  summary = none;
  occurred_at_ms = some (pos 5);
  tool_name = none;
  attention = none;
}

abbrev a_length : RelayFrame → Option ℕ
a_length frame = some 200

a_hook_normalized : normalize_hook_payload a_length a_hook (pos 9) ≡ ok (some a_relay_event)
unfolding normalize_hook_payload
a_hook_normalized = refl

validate_after-normalize_hook_payload_example :
    validate_after a_length a_relay_frame start_cursor ≡ ok tt
validate_after-normalize_hook_payload_example =
    validate_after-normalize_hook_payload a_length a_hook (pos 9) a_relay_event 7 200 start_cursor
      a_hook_normalized (omega arith) refl (omega arith)
