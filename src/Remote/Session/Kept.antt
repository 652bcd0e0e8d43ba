-- ===== src/Remote/Session/Kept.antt =====
-- What a `RelaySession` of crates/notch-remote/src/session.rs keeps to between calls, and that each answer
-- of the transport leaves it so.
use llm_notch.Prelude.{
  ℕ, ◌≤◌, max, ◌≡◌, refl, Option, none, some, Bool, true, false, List, [], ◌∷◌, ◌++◌, arith,
}
use llm_notch.Remote.Protocol.{ok, err, ResumeCursor, RelayFrame}
use llm_notch.Remote.Reconnect.{ConnectionState}
use llm_notch.Remote.Transport.{Reply, RemoteTransport}
use llm_notch.Remote.Session.Calls.{quiet, hears, takes, sequence_of, accepted}
use llm_notch.Remote.Session.{
  RelaySession, is_streaming, is_failed, is_held, fail, handle_disconnect, connected, stopped,
  received, checked, acknowledged, injected, seen, advance, answer_with, map_or,
}

unfoldable pub is_settled : ConnectionState → Bool
is_settled ConnectionState.disconnected = true
is_settled ConnectionState.streaming = true
is_settled ConnectionState.failed = true
is_settled ConnectionState.connecting = false
is_settled ConnectionState.authenticating = false
is_settled (ConnectionState.backoff a d) = false

pub record IsSound {C : Type 0} (s : RelaySession C) : Type 0 where
  pub settled : is_settled s.state ≡ true
  pub held_streams : is_held s.connection ≡ true → is_streaming s.state ≡ true
  pub retries : s.attempt ≤ s.reconnect.max_attempts
  pub gave_up : is_failed s.state ≡ true → s.attempt ≡ s.reconnect.max_attempts

unfoldable pub highest : ℕ → List ℕ → ℕ
highest n [] = n
highest n (k ∷ ks) = highest (max n k) ks

pub highest-append : (n : ℕ) (ks ls : List ℕ) → highest n (ks ++ ls) ≡ highest (highest n ks) ls
unfolding highest
highest-append n [] ls = refl
highest-append n (k ∷ ks) ls = highest-append (max n k) ks ls

advance-highest :
    (cursor : ResumeCursor) (n : ℕ)
    → (advance cursor n).last_sequence ≡ highest cursor.last_sequence (n ∷ [])
unfolding advance highest
advance-highest cursor n = ground arith

pub map_or_split :
    {A B : Type 0} (o : Option A) {b : B} {f : A → B} (P : B → Type 0)
    → P b
    → ((a : A) → o ≡ some a → P (f a))
    → P (map_or o b f)
unfolding map_or
map_or_split none P pb pf = pb
map_or_split (some a) P pb pf = pf a refl

module _ {C W : Type 0} where
  abbrev pub Keeps : RelaySession C → List ℕ × RelaySession C × W → Type 0
  Keeps s r = IsSound r.1 × (r.1.resume.last_sequence ≡ highest s.resume.last_sequence r.0)

module _ {C W : Type 0} (t : RemoteTransport C W) where
  pub connected-Keeps :
      {A : Type 0} (a : A) (s : RelaySession C) (r : Reply W C)
      → s.attempt ≤ s.reconnect.max_attempts
      → Keeps s (quiet (connected t a s r))
  unfolding connected fail answer_with quiet is_settled is_held is_streaming is_failed highest
  connected-Keeps a s (ok c, w) small = (
    record { settled = refl; held_streams = λ h. refl; retries = omega arith; gave_up = λ h. cc },
    refl,
  )
  connected-Keeps a s (err e, w) small = (
    record {
      settled = ground arith;
      held_streams = λ h. cc;
      retries = small;
      gave_up = λ h. ground arith;
    },
    refl,
  )

  pub stopped-Keeps :
      (s : RelaySession C) (r : Reply W (Unit {0})) → IsSound s → Keeps s (quiet (stopped s r))
  unfolding stopped quiet is_settled is_held is_streaming is_failed highest
  stopped-Keeps s (ok _, w) sound = (
    record { settled = refl; held_streams = λ h. cc; retries = omega arith; gave_up = λ h. cc },
    refl,
  )
  stopped-Keeps s (err e, w) sound = (
    record {
      settled = sound.settled;
      held_streams = λ h. cc;
      retries = sound.retries;
      gave_up = sound.gave_up;
    },
    refl,
  )

  handle_disconnect-IsSound :
      (s : RelaySession C) (w : W) → IsSound s → IsSound (handle_disconnect t s w).0
  unfolding handle_disconnect is_settled is_held is_streaming is_failed
  handle_disconnect-IsSound s w sound = record {
    settled = refl;
    held_streams = λ h. cc;
    retries = sound.retries;
    gave_up = λ h. cc;
  }

  -- A write of the cursor alone.
  advanced-Keeps :
      (s : RelaySession C) (n : ℕ) (w : W)
      → IsSound s
      → Keeps s (n ∷ [], record s { resume = advance s.resume n }, w)
  advanced-Keeps s n w sound = (
    record {
      settled = sound.settled;
      held_streams = sound.held_streams;
      retries = sound.retries;
      gave_up = sound.gave_up;
    },
    advance-highest s.resume n,
  )

  received-Keeps :
      (s : RelaySession C) (r : Reply W (Option RelayFrame))
      → IsSound s
      → Keeps s (hears (received t s r))
  unfolding received hears sequence_of highest answer_with handle_disconnect
  received-Keeps s (err e, w) sound = (sound, refl)
  received-Keeps s (ok none, w) sound = (handle_disconnect-IsSound s w sound, refl)
  received-Keeps s (ok (some frame), w) sound = advanced-Keeps s frame.sequence w sound

  pub checked-Keeps :
      (s : RelaySession C) (c : C) (r : Reply W Bool)
      → IsSound s
      → Keeps s (hears (checked t s c r))
  unfolding checked hears sequence_of highest answer_with handle_disconnect
  checked-Keeps s c (err e, w) sound = (sound, refl)
  checked-Keeps s c (ok false, w) sound = (handle_disconnect-IsSound s w sound, refl)
  checked-Keeps s c (ok true, w) sound = received-Keeps s (t.receive c w) sound

  pub acknowledged-Keeps :
      (s : RelaySession C) (cursor : ResumeCursor) (r : Reply W (Unit {0}))
      → IsSound s
      → Keeps s (takes cursor.last_sequence (acknowledged s cursor r))
  unfolding acknowledged takes accepted highest
  acknowledged-Keeps s cursor (err e, w) sound = (sound, refl)
  acknowledged-Keeps s cursor (ok _, w) sound = advanced-Keeps s cursor.last_sequence w sound

  pub injected-Keeps :
      (s : RelaySession C) (r : Reply W (Unit {0})) → IsSound s → Keeps s (quiet (injected s r))
  unfolding injected quiet highest
  injected-Keeps s (ok _, w) sound = (sound, refl)
  injected-Keeps s (err e, w) sound = (sound, refl)

  pub seen-IsSound :
      (s : RelaySession C) (c : C) (r : Bool × W)
      → IsSound s
      → Keeps s ([], (seen t s c r).1, (seen t s c r).2)
  unfolding seen is_settled is_held is_streaming is_failed highest
  seen-IsSound s c (true, w) sound = (sound, refl)
  seen-IsSound s c (false, w) sound = (
    record { settled = refl; held_streams = λ h. cc; retries = sound.retries; gave_up = λ h. cc },
    refl,
  )
