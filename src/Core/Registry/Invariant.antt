-- ===== src/Core/Registry/Invariant.antt =====
-- What the registry keeps: its maps agree with one another, and stay within their limits.
pub mod Writes
pub mod Removal
pub mod Updates
pub mod Windows
pub mod Operations
pub mod Reachable
use llm_notch.Prelude.{ℕ, ◌≤◌, String, ◌≡◌, true, List, [], ◌∷◌, Option, some, length, text_key}
use llm_notch.HashMap
use llm_notch.Protocol.{AgentSession, SessionEvent, max_sessions, max_events_per_session}
use llm_notch.Core.Registry.{SessionRegistry, external_key, next_u64}

-- Each event follows the one before it.
abbrev pub Consecutive : List SessionEvent → Type 0
Consecutive [] = Unit
Consecutive (x ∷ []) = Unit
Consecutive (x ∷ y ∷ ys) = (y.sequence ≡ next_u64 x.sequence) × Consecutive (y ∷ ys)

pub record IsWindow (es : List SessionEvent) : Type 0 where
  pub consecutive : Consecutive es
  pub bounded : length es ≤ max_events_per_session

abbrev pub key_of : AgentSession → String
key_of s = external_key s.source s.external_session_id

pub record IsWellFormed (r : SessionRegistry) : Type 0 where
  -- A session is stored under its id, and found by its external key.
  pub own_id : (k : String) (s : AgentSession) → HashMap.get r.sessions k ≡ some s → s.id ≡ k
  pub indexed :
      (k : String) (s : AgentSession)
      → HashMap.get r.sessions k ≡ some s
      → HashMap.get r.external_index (key_of s) ≡ some k
  -- The index leads to a session that has the key.
  pub resolved :
      (key id : String)
      → HashMap.get r.external_index key ≡ some id
      → HashMap.contains_key r.sessions id ≡ true
  pub matching :
      (key id : String) (s : AgentSession)
      → HashMap.get r.external_index key ≡ some id
      → HashMap.get r.sessions id ≡ some s
      → key_of s ≡ key
  -- Events belong to a session, and form a window.
  pub owned :
      (k : String) (es : List SessionEvent)
      → HashMap.get r.events k ≡ some es
      → HashMap.contains_key r.sessions k ≡ true
  pub windows :
      (k : String) (es : List SessionEvent) → HashMap.get r.events k ≡ some es → IsWindow es
  pub distinct : HashMap.Distinct r.sessions
  pub bounded : HashMap.size r.sessions ≤ max_sessions
