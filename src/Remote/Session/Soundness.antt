-- ===== src/Remote/Session/Soundness.antt =====
-- The operations of `RelaySession` of crates/notch-remote/src/session.rs in a row, whatever the
-- transport answers.
use llm_notch.Prelude.{
  ℕ, ◌≤◌, ◌≡◌, refl, sym, ap, ◌∙◌, Option, none, some, Bool, true, ◌&&◌, ◌||◌, List, [], ◌∷◌, arith,
  if_split,
}
use llm_notch.Prelude.Int.{ℤ}
use llm_notch.Remote.Protocol.{
  Result, ok, ResumeCursor, RelayFrame, RelayHookPayload, RemoteHostConfig,
}
use llm_notch.Remote.Reconnect.{ConnectionState, ReconnectPolicy, delay_ms}
use llm_notch.Remote.Transport.{RemoteTransport}
use llm_notch.Remote.Session.Calls.{Call, quiet, hears, takes, sequence_of, accepted, call, run}
use llm_notch.Remote.Session.{
  RelaySession, RelaySessionError, RelaySessionSnapshot, Answer, with_resume, is_streaming,
  is_connecting, is_failed, is_held, start, stop, receive, acknowledge, inject_hook, attempting,
  tick_reconnect, snapshot, alive_or_false,
}
use llm_notch.Remote.Session.Kept.{
  is_settled, IsSound, highest, highest-append, map_or_split, Keeps, connected-Keeps, stopped-Keeps,
  checked-Keeps, acknowledged-Keeps, injected-Keeps, seen-IsSound,
}

module _ {C W : Type 0} (t : RemoteTransport C W) where
  quiet-Keeps :
      {A : Type 0} (r : Result RelaySessionError A) (s : RelaySession C) (w : W)
      → IsSound s
      → Keeps s (quiet (r, s, w))
  unfolding quiet highest
  quiet-Keeps r s w sound = (sound, refl)

  start-Keeps : (s : RelaySession C) (w : W) → IsSound s → Keeps s (quiet (start t s w))
  unfolding start
  start-Keeps s w sound =
      if_split (is_streaming s.state && is_held s.connection)
        (λ (r : Answer C W (Unit {0})). Keeps s (quiet r)) (quiet-Keeps _ s w sound)
        (if_split (is_failed s.state) (λ (r : Answer C W (Unit {0})). Keeps s (quiet r))
          (quiet-Keeps _ s w sound)
          (connected-Keeps t tt (record s { state = ConnectionState.connecting; last_error = none })
            (t.connect s.host s.resume w) sound.retries))

  stop-Keeps : (s : RelaySession C) (w : W) → IsSound s → Keeps s (quiet (stop t s w))
  unfolding stop
  stop-Keeps s w sound =
      map_or_split s.connection (λ (r : Answer C W (Unit {0})). Keeps s (quiet r))
        (stopped-Keeps t s (ok tt, w) sound) (λ c e. stopped-Keeps t s (t.close c w) sound)

  receive-Keeps : (s : RelaySession C) (w : W) → IsSound s → Keeps s (hears (receive t s w))
  unfolding receive hears sequence_of highest
  receive-Keeps s w sound =
      map_or_split s.connection (λ (r : Answer C W (Option RelayFrame)). Keeps s (hears r))
        (sound, refl) (λ c e. checked-Keeps t s c (t.is_alive c w) sound)

  acknowledge-Keeps :
      (s : RelaySession C) (cursor : ResumeCursor) (w : W)
      → IsSound s
      → Keeps s (takes cursor.last_sequence (acknowledge t s cursor w))
  unfolding acknowledge takes accepted highest
  acknowledge-Keeps s cursor w sound =
      map_or_split s.connection
        (λ (r : Answer C W (Unit {0})). Keeps s (takes cursor.last_sequence r)) (sound, refl)
        (λ c e. acknowledged-Keeps t s cursor (t.acknowledge c cursor w) sound)

  inject_hook-Keeps :
      (s : RelaySession C) (payload : RelayHookPayload) (w : W)
      → IsSound s
      → Keeps s (quiet (inject_hook t s payload w))
  unfolding inject_hook
  inject_hook-Keeps s payload w sound =
      map_or_split s.connection (λ (r : Answer C W (Unit {0})). Keeps s (quiet r))
        (quiet-Keeps _ s w sound) (λ c e. injected-Keeps t s (t.inject_hook c payload w) sound)

  snapshot-Keeps :
      (s : RelaySession C) (w : W)
      → IsSound s
      → Keeps s ([], (snapshot t s w).1, (snapshot t s w).2)
  unfolding snapshot highest
  snapshot-Keeps s w sound =
      map_or_split s.connection
        (λ (r : RelaySessionSnapshot × RelaySession C × W). Keeps s ([], r.1, r.2)) (sound, refl)
        (λ c e. seen-IsSound t s c (alive_or_false (t.is_alive c w)) sound)

  attempting_small :
      (s : RelaySession C) (jitter : ℤ) (delay : ℕ)
      → delay_ms s.reconnect s.attempt jitter ≡ some delay
      → (attempting s delay).attempt ≤ s.reconnect.max_attempts
  unfolding attempting delay_ms
  attempting_small s jitter delay e = ground arith

  tick_reconnect-Keeps :
      (s : RelaySession C) (jitter : ℤ) (w : W)
      → IsSound s
      → Keeps s (quiet (tick_reconnect t s jitter w))
  unfolding tick_reconnect
  tick_reconnect-Keeps s jitter w sound =
      if_split (is_streaming s.state || is_connecting s.state)
        (λ (r : Answer C W Bool). Keeps s (quiet r)) (quiet-Keeps _ s w sound)
        (if_split (is_failed s.state) (λ (r : Answer C W Bool). Keeps s (quiet r))
          (quiet-Keeps _ s w sound)
          (map_or_split (delay_ms s.reconnect s.attempt jitter)
            (λ (r : Answer C W Bool). Keeps s (quiet r)) (quiet-Keeps _ s w sound)
            (λ delay e.
              connected-Keeps t true (attempting s delay) (t.connect s.host s.resume w)
                (attempting_small s jitter delay e))))

  call-Keeps : (c : Call) (s : RelaySession C) (w : W) → IsSound s → Keeps s (call t c s w)
  unfolding call
  call-Keeps Call.start s w sound = start-Keeps s w sound
  call-Keeps Call.stop s w sound = stop-Keeps s w sound
  call-Keeps Call.receive s w sound = receive-Keeps s w sound
  call-Keeps Call.snapshot s w sound = snapshot-Keeps s w sound
  call-Keeps (Call.acknowledge cursor) s w sound = acknowledge-Keeps s cursor w sound
  call-Keeps (Call.inject_hook payload) s w sound = inject_hook-Keeps s payload w sound
  call-Keeps (Call.tick_reconnect jitter) s w sound = tick_reconnect-Keeps s jitter w sound

  run-Keeps : (cs : List Call) (s : RelaySession C) (w : W) → IsSound s → Keeps s (run t cs s w)
  unfolding run
  run-Keeps [] s w sound = (sound, (unfold highest in refl))
  run-Keeps (c ∷ cs) s w sound =
      let one = call t c s w in
      let kept = call-Keeps c s w sound in
      let rest = run-Keeps cs one.1 one.2 kept.0 in
      (
        rest.0,
        rest.1
            ∙ ap (λ n. highest n (run t cs one.1 one.2).0) kept.1
            ∙ sym (highest-append s.resume.last_sequence one.0 (run t cs one.1 one.2).0),
      )

  -- Whatever the transport answers, after any calls on a new session: it is disconnected, streaming
  -- or failed, never connecting, authenticating or in backoff; a session that holds a connection is
  -- streaming; at most `max_attempts` retries were counted, and a failed session has counted them
  -- all. Its cursor is the highest among the one it began with, the sequences of the frames that it
  -- received, and the cursors that the relay took as acknowledged.
  pub run-IsSound :
      (host : RemoteHostConfig) (policy : ReconnectPolicy) (resume : ResumeCursor) (cs : List Call)
      (w : W)
      → IsSound (run t cs (with_resume host policy resume) w).1
        × ((run t cs (with_resume host policy resume) w).1.resume.last_sequence
            ≡ highest resume.last_sequence (run t cs (with_resume host policy resume) w).0)
  unfolding with_resume
  run-IsSound host policy resume cs w = run-Keeps cs (with_resume host policy resume) w (
      unfold is_settled is_held is_streaming is_failed in
      record { settled = refl; held_streams = λ h. cc; retries = omega arith; gave_up = λ h. cc })
