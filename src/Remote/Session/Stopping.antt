-- ===== src/Remote/Session/Stopping.antt =====
-- `stop` of crates/notch-remote/src/session.rs where `close` answers with an error.
use llm_notch.Prelude.{◌≡◌, refl, none, some, false}
use llm_notch.Prelude.Int.{ℤ}
use llm_notch.Remote.Protocol.{ok, err}
use llm_notch.Remote.Reconnect.{ConnectionState}
use llm_notch.Remote.Transport.{TransportError, Reply, RemoteTransport}
use llm_notch.Remote.Session.{
  RelaySession, RelaySessionError, is_streaming, is_connecting, stopped, stop, tick_reconnect,
  receive, snapshot, view, map_or,
}

-- A streaming session that lost its connection: ticks do not reconnect, and receive is refused.
abbrev pub IsStuck : {C W : Type 0} → RemoteTransport C W → RelaySession C → W → Type 0
IsStuck t s w =
    (s.connection ≡ none)
    × ((snapshot t s w).0.state ≡ ConnectionState.streaming)
    × ((snapshot t s w).0.process_alive ≡ false)
    × ((jitter : ℤ) → tick_reconnect t s jitter w ≡ (ok false, s, w))
    × (receive t s w ≡ (err (RelaySessionError.not_active s.host.id), s, w))

module _ {C W : Type 0} (t : RemoteTransport C W) where
  stopped-IsStuck :
      (s : RelaySession C) (e : TransportError) (r : Reply W (Unit {0}))
      → r.0 ≡ err e
      → s.state ≡ ConnectionState.streaming
      → ((stopped s r).0 ≡ err (RelaySessionError.transport e))
        × IsStuck t (stopped s r).1 (stopped s r).2
  unfolding stopped snapshot view tick_reconnect receive map_or is_streaming is_connecting
  stopped-IsStuck s e (ok _, w) refused streaming = cc
  stopped-IsStuck s e (err e', w) refused streaming =
      (cc, (refl, streaming, refl, (λ jitter. simp streaming refl), refl))

  -- Where `close` refuses, `stop` of a streaming session answers with its error and leaves the
  -- session stuck: it has no connection, but its snapshot says that it streams, with no process
  -- alive; `tick_reconnect` answers `false` without trying to connect, and `receive` is refused.
  pub stop_refused :
      (s : RelaySession C) (c : C) (e : TransportError) (w : W)
      → s.connection ≡ some c
      → s.state ≡ ConnectionState.streaming
      → (t.close c w).0 ≡ err e
      → ((stop t s w).0 ≡ err (RelaySessionError.transport e))
        × IsStuck t (stop t s w).1 (stop t s w).2
  unfolding stop map_or
  stop_refused s c e w held streaming refused =
      simp held (stopped-IsStuck s e (t.close c w) refused streaming)
