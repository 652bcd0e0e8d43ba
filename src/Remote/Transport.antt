-- ===== src/Remote/Transport.antt =====
-- The traits `RemoteTransport` and `RemoteConnection` of crates/notch-remote/src/transport.rs. A
-- connection is a handle; what it and the remote host are in is the world that each call changes.
use llm_notch.Prelude.{String, Option, Bool}
use llm_notch.Remote.Protocol.{
  Result, RemoteHostConfig, ResumeCursor, RelayHello, RelayFrame, RelayHookPayload,
}

pub data TransportError : Type 0 where
  ssh_unavailable host_verification_failed authentication_failed disconnected : TransportError
  protocol process : String → TransportError

abbrev pub Reply : Type 0 → Type 0 → Type 0
Reply W A = Result TransportError A × W

pub record RemoteTransport (C W : Type 0) : Type 0 where
  pub connect : RemoteHostConfig → ResumeCursor → W → Reply W C
  pub hello : C → RelayHello
  pub receive : C → W → Reply W (Option RelayFrame)
  pub acknowledge : C → ResumeCursor → W → Reply W (Unit {0})
  pub inject_hook : C → RelayHookPayload → W → Reply W (Unit {0})
  pub close : C → W → Reply W (Unit {0})
  pub is_alive : C → W → Reply W Bool
