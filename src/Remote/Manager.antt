-- ===== src/Remote/Manager.antt =====
-- `RemoteRelayManager` of crates/notch-remote/src/session.rs: one session for each host.
pub mod RoundTrip
use llm_notch.Prelude.{
  String, ◌≡◌, ◌≢◌, refl, Option, none, some, Bool, true, false, if◌then◌else◌, ◌==◌, text_key,
  List, [], ◌∷◌, ◌++◌, any_of, Pairwise, arith, eq_iff,
}
use llm_notch.Remote.Protocol.{Result, ok, err}
use llm_notch.Remote.Transport.{RemoteTransport}
use llm_notch.Remote.Session.{
  RelaySession, RelaySessionError, RelaySessionSnapshot, stop, snapshot, map_or,
}

pub record RemoteRelayManager (C : Type 0) : Type 0 where
  pub sessions : List (RelaySession C)

unfoldable pub has_host : {C : Type 0} → String → RelaySession C → Bool
has_host host_id s = s.host.id == host_id

module _ {C : Type 0} where
  unfoldable pub register :
      RemoteRelayManager C
      → RelaySession C
      → Result RelaySessionError (Unit {0}) × RemoteRelayManager C
  unfolding has_host any_of
  register m s =
      if any_of (has_host s.host.id) m.sessions
      then (err (RelaySessionError.already_active s.host.id), m)
      else (ok tt, record { sessions = m.sessions ++ (s ∷ []) })

  -- `iter().find(…)`
  unfoldable pub find : String → List (RelaySession C) → Option (RelaySession C)
  unfolding has_host
  find host_id [] = none
  find host_id (s ∷ ss) = if has_host host_id s then some s else find host_id ss

  unfoldable pub get : RemoteRelayManager C → String → Option (RelaySession C)
  unfolding find
  get m host_id = find host_id m.sessions

  -- `position`, and `remove` at it
  unfoldable pub without_first : String → List (RelaySession C) → List (RelaySession C)
  unfolding has_host
  without_first host_id [] = []
  without_first host_id (s ∷ ss) = if has_host host_id s then ss else s ∷ without_first host_id ss

module _ {C W : Type 0} (t : RemoteTransport C W) where
  unfoldable pub remove :
      RemoteRelayManager C
      → String
      → W
      → Result RelaySessionError (Unit {0}) × RemoteRelayManager C × W
  unfolding find without_first stop map_or
  remove m host_id w =
      map_or (find host_id m.sessions) (err (RelaySessionError.not_active host_id), m, w)
        (λ s.
          let left = stop t s w in
          (left.0, record { sessions = without_first host_id m.sessions }, left.2))

  unfoldable pub snapshot_each :
      List (RelaySession C) → W → List RelaySessionSnapshot × List (RelaySession C) × W
  unfolding snapshot
  snapshot_each [] w = ([], [], w)
  snapshot_each (s ∷ ss) w =
      let one = snapshot t s w in
      let rest = snapshot_each ss one.2 in (one.0 ∷ rest.0, one.1 ∷ rest.1, rest.2)

  unfoldable pub snapshots :
      RemoteRelayManager C → W → List RelaySessionSnapshot × RemoteRelayManager C × W
  unfolding snapshot_each
  snapshots m w =
      let all = snapshot_each m.sessions w in (all.0, record { sessions = all.1 }, all.2)
