-- ===== src/Core/Transitions.antt =====
-- crates/notch-core/src/domain/transitions.rs: the lifecycle of a session.
pub mod Paths
use llm_notch.Prelude.{
  ℕ, Bool, true, false, ◌↔◌, ◌≡◌, refl, if◌then◌else◌, PartialEq, ◌==◌, nat_beq, arith,
}
use llm_notch.Protocol.{SessionStatus}
use llm_notch.Protocol.SessionStatus.{starting, running, waiting, paused, completed, failed, stale}
use llm_notch.Core.Error.{CoreResult, ok, err, invalid_transition}

abbrev status_rank : SessionStatus → ℕ
status_rank starting = 0
status_rank running = 1
status_rank waiting = 2
status_rank paused = 3
status_rank completed = 4
status_rank failed = 5
status_rank stale = 6

abbrev pub status_beq : SessionStatus → SessionStatus → Bool
status_beq a b = nat_beq (status_rank a) (status_rank b)

pub status_beq_iff : (a b : SessionStatus) → (status_beq a b ≡ true) ↔ (a ≡ b)
status_beq_iff a b = ground arith

instance abbrev pub status_eq : PartialEq SessionStatus
status_eq = record { eq = status_beq; eq_law = status_beq_iff }

-- The `match` on the two statuses; the last clause of each group is its `_`.
abbrev is_legal_step : SessionStatus → SessionStatus → Bool
is_legal_step starting running = true
is_legal_step starting failed = true
is_legal_step starting stale = true
is_legal_step running waiting = true
is_legal_step running paused = true
is_legal_step running completed = true
is_legal_step running failed = true
is_legal_step running stale = true
is_legal_step waiting running = true
is_legal_step waiting paused = true
is_legal_step waiting completed = true
is_legal_step waiting failed = true
is_legal_step waiting stale = true
is_legal_step paused running = true
is_legal_step paused waiting = true
is_legal_step paused completed = true
is_legal_step paused failed = true
is_legal_step paused stale = true
is_legal_step completed stale = true
is_legal_step failed stale = true
is_legal_step stale stale = true
is_legal_step _ _ = false

unfoldable pub is_valid_transition : SessionStatus → SessionStatus → Bool
is_valid_transition from to = if from == to then true else is_legal_step from to

unfoldable pub validate_transition : SessionStatus → SessionStatus → CoreResult (Unit {0})
unfolding is_valid_transition
validate_transition from to =
    if is_valid_transition from to then ok tt else err (invalid_transition from to)

unfoldable pub is_terminal : SessionStatus → Bool
is_terminal completed = true
is_terminal failed = true
is_terminal stale = true
is_terminal _ = false
