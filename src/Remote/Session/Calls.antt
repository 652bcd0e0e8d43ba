-- ===== src/Remote/Session/Calls.antt =====
-- A client's calls on a `RelaySession` of crates/notch-remote/src/session.rs, one after the other.
use llm_notch.Prelude.{ℕ, Option, none, some, List, [], ◌∷◌, ◌++◌}
use llm_notch.Prelude.Int.{ℤ}
use llm_notch.Remote.Protocol.{Result, ok, err, ResumeCursor, RelayFrame, RelayHookPayload}
use llm_notch.Remote.Transport.{RemoteTransport}
use llm_notch.Remote.Session
use llm_notch.Remote.Session.{RelaySession, RelaySessionError, Answer}

-- The operations.
pub data Call : Type 0 where
  start stop receive snapshot : Call
  acknowledge : ResumeCursor → Call
  inject_hook : RelayHookPayload → Call
  tick_reconnect : ℤ → Call

-- The sequence of a frame that was received, and one that the relay took as acknowledged.
unfoldable pub sequence_of : Result RelaySessionError (Option RelayFrame) → List ℕ
sequence_of (ok (some frame)) = frame.sequence ∷ []
sequence_of (ok none) = []
sequence_of (err e) = []

unfoldable pub accepted : ℕ → Result RelaySessionError (Unit {0}) → List ℕ
accepted n (ok _) = n ∷ []
accepted n (err e) = []

module _ {C W : Type 0} where
  unfoldable pub quiet : {A : Type 0} → Answer C W A → List ℕ × RelaySession C × W
  quiet (r, s, w) = ([], s, w)

  unfoldable pub hears : Answer C W (Option RelayFrame) → List ℕ × RelaySession C × W
  unfolding sequence_of
  hears (r, s, w) = (sequence_of r, s, w)

  unfoldable pub takes : ℕ → Answer C W (Unit {0}) → List ℕ × RelaySession C × W
  unfolding accepted
  takes n (r, s, w) = (accepted n r, s, w)

module _ {C W : Type 0} (t : RemoteTransport C W) where
  -- The sequences that a call acknowledges or receives, and what it leaves.
  unfoldable pub call : Call → RelaySession C → W → List ℕ × RelaySession C × W
  unfolding quiet hears takes
  call Call.start s w = quiet (Session.start t s w)
  call Call.stop s w = quiet (Session.stop t s w)
  call Call.receive s w = hears (Session.receive t s w)
  call Call.snapshot s w = ([], (Session.snapshot t s w).1, (Session.snapshot t s w).2)
  call (Call.acknowledge cursor) s w = takes cursor.last_sequence (Session.acknowledge t s cursor w)
  call (Call.inject_hook payload) s w = quiet (Session.inject_hook t s payload w)
  call (Call.tick_reconnect jitter) s w = quiet (Session.tick_reconnect t s jitter w)

  unfoldable pub run : List Call → RelaySession C → W → List ℕ × RelaySession C × W
  unfolding call
  run [] s w = ([], s, w)
  run (c ∷ cs) s w =
      let one = call c s w in let rest = run cs one.1 one.2 in (one.0 ++ rest.0, rest.1, rest.2)
