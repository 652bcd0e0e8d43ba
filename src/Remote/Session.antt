-- ===== src/Remote/Session.antt =====
-- `RelaySession` of crates/notch-remote/src/session.rs. An operation answers and leaves the session
-- and the world of the transport. An error is kept as its data where the source formats it.
pub mod Calls
pub mod Kept
pub mod Soundness
pub mod Retries
pub mod Stopping
use llm_notch.Prelude.{
  ℕ, ◌+◌, String, min, max, Option, none, some, Bool, true, false, ◌&&◌, ◌||◌, ltb, leb,
  if◌then◌else◌,
}
use llm_notch.Prelude.Int.{ℤ}
use llm_notch.Remote.Protocol.{
  Result, ok, err, RemoteHostConfig, ResumeCursor, RelayHello, RelayFrame, RelayHookPayload,
}
use llm_notch.Remote.Reconnect.{ConnectionState, ReconnectPolicy, delay_ms, backoff}
use llm_notch.Remote.Transport.{TransportError, Reply, RemoteTransport}

pub data RelaySessionError : Type 0 where
  already_active not_active : String → RelaySessionError
  requires_restart : RelaySessionError
  transport : TransportError → RelaySessionError

pub record RelaySession (C : Type 0) : Type 0 where
  pub host : RemoteHostConfig
  pub reconnect : ReconnectPolicy
  pub connection : Option C
  pub state : ConnectionState
  pub resume : ResumeCursor
  pub last_error : Option TransportError
  -- of a `u16`
  pub attempt : ℕ

pub record RelaySessionSnapshot : Type 0 where
  pub host_id : String
  pub state : ConnectionState
  pub resume : ResumeCursor
  pub last_error : Option TransportError
  pub connection_nonce : Option String
  pub process_alive : Bool

unfoldable pub with_resume :
    {C : Type 0} → RemoteHostConfig → ReconnectPolicy → ResumeCursor → RelaySession C
with_resume host reconnect resume = record {
  host = host;
  reconnect = reconnect;
  connection = none;
  state = ConnectionState.disconnected;
  resume = resume;
  last_error = none;
  attempt = 0;
}

unfoldable pub is_streaming : ConnectionState → Bool
is_streaming ConnectionState.streaming = true
is_streaming _ = false

unfoldable pub is_connecting : ConnectionState → Bool
is_connecting ConnectionState.connecting = true
is_connecting _ = false

unfoldable pub is_failed : ConnectionState → Bool
is_failed ConnectionState.failed = true
is_failed _ = false

unfoldable pub is_held : {C : Type 0} → Option C → Bool
is_held none = false
is_held (some c) = true

-- `match` on an option.
unfoldable pub map_or : {A B : Type 0} → Option A → B → (A → B) → B
map_or none b f = b
map_or (some a) b f = f a

abbrev pub Answer : Type 0 → Type 0 → Type 0 → Type 0
Answer C W A = Result RelaySessionError A × RelaySession C × W

unfoldable pub advance : ResumeCursor → ℕ → ResumeCursor
advance cursor sequence =
    if ltb cursor.last_sequence sequence then record { last_sequence = sequence } else cursor

-- The writes of `Backoff` and of the attempt, and then of `Connecting`.
unfoldable pub attempting : {C : Type 0} → RelaySession C → ℕ → RelaySession C
attempting s delay =
    let waiting = record s {
      state = backoff s.attempt delay;
      attempt = min (s.attempt + 1) 65535;
    } in
    record waiting { state = ConnectionState.connecting }

unfoldable pub view : {C : Type 0} → RelaySession C → Bool → Option String → RelaySessionSnapshot
view s alive nonce = record {
  host_id = s.host.id;
  state = s.state;
  resume = s.resume;
  last_error = s.last_error;
  connection_nonce = nonce;
  process_alive = alive;
}

-- `is_alive().unwrap_or(false)`
unfoldable pub alive_or_false : {W : Type 0} → Reply W Bool → Bool × W
alive_or_false (ok alive, w) = (alive, w)
alive_or_false (err e, w) = (false, w)

module _ {C W : Type 0} where
  unfoldable pub answer_with :
      {A : Type 0} → Result RelaySessionError A → RelaySession C × W → Answer C W A
  answer_with r (s, w) = (r, s, w)

  unfoldable pub stopped : RelaySession C → Reply W (Unit {0}) → Answer C W (Unit {0})
  stopped s (err e, w) = (err (RelaySessionError.transport e), record s { connection = none }, w)
  stopped s (ok _, w) = (
    ok tt,
    record s {
      connection = none;
      state = ConnectionState.disconnected;
      attempt = 0;
      last_error = none;
    },
    w,
  )

  unfoldable pub acknowledged :
      RelaySession C → ResumeCursor → Reply W (Unit {0}) → Answer C W (Unit {0})
  unfolding advance
  acknowledged s cursor (err e, w) = (err (RelaySessionError.transport e), s, w)
  acknowledged s cursor (ok _, w) =
      (ok tt, record s { resume = advance s.resume cursor.last_sequence }, w)

  unfoldable pub injected : RelaySession C → Reply W (Unit {0}) → Answer C W (Unit {0})
  injected s (err e, w) = (err (RelaySessionError.transport e), s, w)
  injected s (ok _, w) = (ok tt, s, w)

module _ {C W : Type 0} (t : RemoteTransport C W) where
  -- `connection.take()`, with what `close` answers let go
  unfoldable pub close_held : Option C → W → W
  close_held none w = w
  close_held (some c) w = (t.close c w).1

  unfoldable pub handle_disconnect : RelaySession C → W → RelaySession C × W
  unfolding close_held
  handle_disconnect s w = (
    record s { connection = none; state = ConnectionState.disconnected },
    close_held s.connection w,
  )

  unfoldable pub fail : TransportError → RelaySession C → W → RelaySession C × W
  unfolding close_held
  fail e s w = (
    record s {
      connection = none;
      last_error = some e;
      state =
          if leb s.reconnect.max_attempts s.attempt
          then ConnectionState.failed
          else ConnectionState.disconnected;
    },
    close_held s.connection w,
  )

  -- The two arms after `transport.connect`.
  unfoldable pub connected : {A : Type 0} → A → RelaySession C → Reply W C → Answer C W A
  unfolding fail answer_with
  connected a s (ok c, w) = (
    ok a,
    record s {
      connection = some c;
      state = ConnectionState.streaming;
      attempt = 0;
      last_error = none;
    },
    w,
  )
  connected a s (err e, w) = answer_with (err (RelaySessionError.transport e)) (fail e s w)

  unfoldable pub start : RelaySession C → W → Answer C W (Unit {0})
  unfolding is_streaming is_held is_failed connected
  start s w =
      if is_streaming s.state && is_held s.connection
      then (err (RelaySessionError.already_active s.host.id), s, w)
      else if is_failed s.state
      then (err RelaySessionError.requires_restart, s, w)
      else connected tt (record s { state = ConnectionState.connecting; last_error = none })
          (t.connect s.host s.resume w)

  unfoldable pub stop : RelaySession C → W → Answer C W (Unit {0})
  unfolding stopped map_or
  stop s w = map_or s.connection (stopped s (ok tt, w)) (λ c. stopped s (t.close c w))

  unfoldable pub received :
      RelaySession C → Reply W (Option RelayFrame) → Answer C W (Option RelayFrame)
  unfolding handle_disconnect advance answer_with
  received s (err e, w) = (err (RelaySessionError.transport e), s, w)
  received s (ok none, w) = answer_with (ok none) (handle_disconnect s w)
  received s (ok (some frame), w) =
      (ok (some frame), record s { resume = advance s.resume frame.sequence }, w)

  unfoldable pub checked : RelaySession C → C → Reply W Bool → Answer C W (Option RelayFrame)
  unfolding received handle_disconnect answer_with
  checked s c (err e, w) = (err (RelaySessionError.transport e), s, w)
  checked s c (ok false, w) = answer_with (ok none) (handle_disconnect s w)
  checked s c (ok true, w) = received s (t.receive c w)

  unfoldable pub receive : RelaySession C → W → Answer C W (Option RelayFrame)
  unfolding checked map_or
  receive s w =
      map_or s.connection (err (RelaySessionError.not_active s.host.id), s, w)
        (λ c. checked s c (t.is_alive c w))

  unfoldable pub acknowledge : RelaySession C → ResumeCursor → W → Answer C W (Unit {0})
  unfolding acknowledged map_or
  acknowledge s cursor w =
      map_or s.connection (err (RelaySessionError.not_active s.host.id), s, w)
        (λ c. acknowledged s cursor (t.acknowledge c cursor w))

  unfoldable pub inject_hook : RelaySession C → RelayHookPayload → W → Answer C W (Unit {0})
  unfolding injected map_or
  inject_hook s payload w =
      map_or s.connection (err (RelaySessionError.not_active s.host.id), s, w)
        (λ c. injected s (t.inject_hook c payload w))

  unfoldable pub tick_reconnect : RelaySession C → ℤ → W → Answer C W Bool
  unfolding is_streaming is_connecting is_failed connected attempting delay_ms map_or
  tick_reconnect s jitter w =
      if is_streaming s.state || is_connecting s.state
      then (ok false, s, w)
      else if is_failed s.state
      then (err RelaySessionError.requires_restart, s, w)
      else map_or (delay_ms s.reconnect s.attempt jitter)
          (err RelaySessionError.requires_restart, s, w)
          (λ delay. connected true (attempting s delay) (t.connect s.host s.resume w))

  unfoldable pub seen : RelaySession C → C → Bool × W → RelaySessionSnapshot × RelaySession C × W
  unfolding view
  seen s c (true, w) = (view s true (some (t.hello c).connection_nonce), s, w)
  seen s c (false, w) =
      let s' : RelaySession C = record s {
        state = ConnectionState.disconnected;
        connection = none;
      } in
      (view s' false none, s', w)

  unfoldable pub snapshot : RelaySession C → W → RelaySessionSnapshot × RelaySession C × W
  unfolding seen view alive_or_false map_or
  snapshot s w =
      map_or s.connection (view s false none, s, w)
        (λ c. seen s c (alive_or_false (t.is_alive c w)))
