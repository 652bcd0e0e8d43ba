-- ===== src/Remote/Reconnect.antt =====
-- crates/notch-remote/src/reconnect.rs. The jitter is a signed number of basis points.
pub mod Bounds
use llm_notch.Prelude.{
  ℕ, ◌+◌, ◌-◌, ◌*◌, ◌/◌, ◌%◌, ◌^◌, ◌≤◌, ◌<◌, min, ◌≡◌, ◌↔◌, Option, none, some, leb, if◌then◌else◌,
  arith,
}
use llm_notch.Prelude.Int.{ℤ, pos, negsuc}

pub data ConnectionState : Type 0 where
  disconnected connecting authenticating streaming : ConnectionState
  -- the attempt, and the delay in milliseconds
  backoff : ℕ → ℕ → ConnectionState
  failed : ConnectionState

pub record ReconnectPolicy : Type 0 where
  pub base_delay_ms : ℕ
  pub max_delay_ms : ℕ
  pub max_attempts : ℕ

abbrev pub default_policy : ReconnectPolicy
default_policy = record { base_delay_ms = 500; max_delay_ms = 30000; max_attempts = 12 }

-- `10_000 + jitter`, with the jitter held between -2500 and 2500
unfoldable pub basis_points : ℤ → ℕ
basis_points (pos n) = 10000 + min n 2500
basis_points (negsuc n) = 10000 - min (n + 1) 2500

-- A shift by at most 20 does not overflow; the product saturates.
unfoldable pub raw_delay : ReconnectPolicy → ℕ → ℕ
raw_delay policy attempt =
    min (min (policy.base_delay_ms * 2 ^ min attempt 20) (2 ^ 64 - 1)) policy.max_delay_ms

-- `as u64` keeps the low 64 bits.
unfoldable pub delay_ms : ReconnectPolicy → ℕ → ℤ → Option ℕ
unfolding raw_delay basis_points
delay_ms policy attempt jitter =
    if leb policy.max_attempts attempt
    then none
    else some
        (min (raw_delay policy attempt * basis_points jitter / 10000 % 2 ^ 64) policy.max_delay_ms)
