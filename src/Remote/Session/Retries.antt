-- ===== src/Remote/Session/Retries.antt =====
-- `tick_reconnect` of crates/notch-remote/src/session.rs while no connection can be opened.
use llm_notch.Prelude.{
  ℕ, ◌+◌, ◌≤◌, ◌<◌, ◌≡◌, refl, sym, ap, ◌∙◌, min, some, true, false, leb, if◌then◌else◌, List, [],
  ◌∷◌, map, length, inl, inr, arith, Bool-cases,
}
use llm_notch.Prelude.Int.{ℤ}
use llm_notch.Remote.Protocol.{ok, err, RemoteHostConfig, ResumeCursor}
use llm_notch.Remote.Reconnect.{ConnectionState, ReconnectPolicy, delay_ms}
use llm_notch.Remote.Transport.{TransportError, Reply, RemoteTransport}
use llm_notch.Remote.Session.{
  RelaySession, RelaySessionError, is_streaming, is_connecting, is_failed, fail, connected,
  attempting, tick_reconnect, map_or, answer_with,
}
use llm_notch.Remote.Session.Calls.{Call, call, run, quiet}

-- No call of `connect` succeeds.
abbrev pub IsUnreachable : {C W : Type 0} → RemoteTransport C W → Type 0
IsUnreachable {C} {W} t =
    (host : RemoteHostConfig) (cursor : ResumeCursor) (w : W)
    → (e : TransportError) × ((t.connect host cursor w).0 ≡ err e)

-- Failed once the retries are used up, and disconnected before.
abbrev pub state_of_attempts : ℕ → ReconnectPolicy → ConnectionState
state_of_attempts attempt policy =
    if leb policy.max_attempts attempt then ConnectionState.failed else ConnectionState.disconnected

delay_ms-some :
    (policy : ReconnectPolicy) (attempt : ℕ) (jitter : ℤ)
    → leb policy.max_attempts attempt ≡ false
    → (delay : ℕ) × (delay_ms policy attempt jitter ≡ some delay)
unfolding delay_ms
delay_ms-some policy attempt jitter left = rw left (_, refl)

module _ {C W : Type 0} (t : RemoteTransport C W) where
  abbrev IsTrying : RelaySession C → Type 0
  IsTrying s =
      (s.state ≡ state_of_attempts s.attempt s.reconnect) × (s.attempt ≤ s.reconnect.max_attempts)

  abbrev Ticked : RelaySession C → RelaySession C → Type 0
  Ticked s s' =
      (s'.attempt ≡ min (s.attempt + 1) s.reconnect.max_attempts)
      × (s'.state ≡ state_of_attempts s'.attempt s.reconnect)
      × (s'.reconnect ≡ s.reconnect)

  connected-Ticked :
      (s : RelaySession C) (delay : ℕ) (r : Reply W C) (e : TransportError)
      → r.0 ≡ err e
      → s.attempt < s.reconnect.max_attempts
      → s.reconnect.max_attempts ≤ 65535
      → Ticked s (connected t true (attempting s delay) r).1
  unfolding connected fail answer_with attempting
  connected-Ticked s delay (ok c, w) e refused some_left bounded = cc
  connected-Ticked s delay (err e', w) e refused some_left bounded = (ground arith, refl, refl)

  tick_reconnect-failed :
      (s : RelaySession C) (jitter : ℤ) (w : W)
      → s.state ≡ ConnectionState.failed
      → tick_reconnect t s jitter w ≡ (err RelaySessionError.requires_restart, s, w)
  unfolding tick_reconnect is_streaming is_connecting is_failed
  tick_reconnect-failed s jitter w e = simp e refl

  tick_reconnect-disconnected :
      (s : RelaySession C) (jitter : ℤ) (delay : ℕ) (w : W)
      → s.state ≡ ConnectionState.disconnected
      → delay_ms s.reconnect s.attempt jitter ≡ some delay
      → tick_reconnect t s jitter w
        ≡ connected t true (attempting s delay) (t.connect s.host s.resume w)
  unfolding tick_reconnect is_streaming is_connecting is_failed map_or
  tick_reconnect-disconnected s jitter delay w e d = simp (e, d) refl

  tick_reconnect_tries :
      (s : RelaySession C) (jitter : ℤ) (w : W)
      → IsUnreachable t
      → s.reconnect.max_attempts ≤ 65535
      → IsTrying s
      → Ticked s (tick_reconnect t s jitter w).1
  tick_reconnect_tries s jitter w unreachable bounded trying =
      elim (Bool-cases (leb s.reconnect.max_attempts s.attempt)) [
        | inl spent ↦
            rw (tick_reconnect-failed s jitter w (ground (arith, trying.0)))
              (ground (arith, trying), trying.0, refl)
        | inr left ↦
            let refusal = unreachable s.host s.resume w in
            let some_delay = delay_ms-some s.reconnect s.attempt jitter left in
            rw
              (tick_reconnect-disconnected s jitter some_delay.0 w (ground (arith, trying.0))
                some_delay.1)
              (connected-Ticked s some_delay.0 (t.connect s.host s.resume w) refusal.0 refusal.1
                (ground arith) bounded)
      ]

  ticks_try :
      (js : List ℤ) (s : RelaySession C) (w : W)
      → IsUnreachable t
      → s.reconnect.max_attempts ≤ 65535
      → IsTrying s
      → ((run t (map Call.tick_reconnect js) s w).1.attempt
          ≡ min (s.attempt + length js) s.reconnect.max_attempts)
        × ((run t (map Call.tick_reconnect js) s w).1.state
            ≡ state_of_attempts (run t (map Call.tick_reconnect js) s w).1.attempt s.reconnect)
  unfolding run call quiet
  ticks_try [] s w unreachable bounded trying = (omega (arith, trying.1), trying.0)
  ticks_try (j ∷ js) s w unreachable bounded trying =
      let next = (tick_reconnect t s j w).1 in
      let ticked = tick_reconnect_tries s j w unreachable bounded trying in
      let limit = ap (λ p. p.max_attempts) ticked.2 in
      let rest =
        ticks_try js next (tick_reconnect t s j w).2 unreachable (omega (arith, limit, bounded)) (
          ticked.1 ∙ ap (λ p. state_of_attempts next.attempt p) (sym ticked.2),
          omega (arith, ticked.0, limit),
        ) in
      let last = (run t (map Call.tick_reconnect js) next (tick_reconnect t s j w).2).1 in
      (
        omega (arith, rest.0, ticked.0, limit),
        rest.1 ∙ ap (λ p. state_of_attempts last.attempt p) ticked.2,
      )

  -- While no connection can be opened, a disconnected session that has counted fewer than
  -- `max_attempts` retries, a number of 16 bits, counts one for each `tick_reconnect`, up to that
  -- number. It is disconnected while the count is lower, and failed once it is reached, after any more
  -- ticks too: it gives up after exactly the retries that were left.
  pub ticks_give_up :
      (js : List ℤ) (s : RelaySession C) (w : W)
      → IsUnreachable t
      → s.reconnect.max_attempts ≤ 65535
      → s.state ≡ ConnectionState.disconnected
      → s.attempt < s.reconnect.max_attempts
      → ((run t (map Call.tick_reconnect js) s w).1.attempt
          ≡ min (s.attempt + length js) s.reconnect.max_attempts)
        × ((run t (map Call.tick_reconnect js) s w).1.state
            ≡ state_of_attempts (min (s.attempt + length js) s.reconnect.max_attempts) s.reconnect)
  ticks_give_up js s w unreachable bounded idle left =
      let tried = ticks_try js s w unreachable bounded (ground (arith, idle), omega arith) in
      (tried.0, tried.1 ∙ ap (λ n. state_of_attempts n s.reconnect) tried.0)
