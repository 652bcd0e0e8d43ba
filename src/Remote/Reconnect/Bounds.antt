-- ===== src/Remote/Reconnect/Bounds.antt =====
-- The delays of crates/notch-remote/src/reconnect.rs.
use llm_notch.Prelude.{
  ℕ, ◌+◌, ◌*◌, ◌/◌, ◌%◌, ◌^◌, ◌≤◌, ◌<◌, min, Option, none, some, leb, arith, inl, inr, Bool-cases,
}
use llm_notch.Prelude.Int.{ℤ, pos, negsuc}
use native.Mathlib.Nat.{mul-le-mul_left}
use llm_notch.Remote.Reconnect.{ReconnectPolicy, basis_points, raw_delay, delay_ms}

basis_points_bounds : (jitter : ℤ) → (7500 ≤ basis_points jitter) × (basis_points jitter ≤ 12500)
unfolding basis_points
basis_points_bounds (pos n) = (omega arith, omega arith)
basis_points_bounds (negsuc n) = (omega arith, omega arith)

raw_delay_bound :
    (policy : ReconnectPolicy) (attempt : ℕ) → raw_delay policy attempt ≤ policy.max_delay_ms
unfolding raw_delay
raw_delay_bound policy attempt = omega arith

-- A quarter less or more, where the product does not wrap.
adjusted_bounds :
    (raw b : ℕ)
    → raw < 2 ^ 63
    → 7500 ≤ b
    → b ≤ 12500
    → (3 * raw ≤ 4 * (raw * b / 10000 % 2 ^ 64) + 3) × (4 * (raw * b / 10000 % 2 ^ 64) ≤ 5 * raw)
adjusted_bounds raw b small low high =
    let below : raw * 7500 ≤ raw * b = mul-le-mul_left raw low in
    let above : raw * b ≤ raw * 12500 = mul-le-mul_left raw high in
    (omega (arith, below, above), omega (arith, below, above))

-- No delay from `max_attempts` on; before, one within a quarter of the capped exponential delay, up to
-- the rounding, and at most `max_delay_ms`.
abbrev pub IsWithin : ReconnectPolicy → ℕ → Option ℕ → Type 0
IsWithin policy attempt none = policy.max_attempts ≤ attempt
IsWithin policy attempt (some delay) =
    (attempt < policy.max_attempts)
    × (delay ≤ policy.max_delay_ms)
    × (4 * delay ≤ 5 * raw_delay policy attempt)
    × (3 * raw_delay policy attempt ≤ 4 * delay + 3)

within :
    (policy : ReconnectPolicy) (attempt adjusted : ℕ)
    → attempt < policy.max_attempts
    → raw_delay policy attempt ≤ policy.max_delay_ms
    → (3 * raw_delay policy attempt ≤ 4 * adjusted + 3)
      × (4 * adjusted ≤ 5 * raw_delay policy attempt)
    → IsWithin policy attempt (some (min adjusted policy.max_delay_ms))
within policy attempt adjusted left bound near = omega (arith, near)

-- For a policy whose longest delay is less than 2 ^ 63, whatever the jitter: `delay_ms` gives no delay
-- exactly from `max_attempts` on. A delay that it gives is at most `max_delay_ms`, at most a quarter
-- above the capped exponential delay, and at most a quarter below it, up to the rounding.
pub delay_ms_bounds :
    (policy : ReconnectPolicy) (attempt : ℕ) (jitter : ℤ)
    → policy.max_delay_ms < 2 ^ 63
    → IsWithin policy attempt (delay_ms policy attempt jitter)
unfolding delay_ms
delay_ms_bounds policy attempt jitter small =
    let basis = basis_points_bounds jitter in
    let raw_bound = raw_delay_bound policy attempt in
    let adjusted =
      adjusted_bounds (raw_delay policy attempt) (basis_points jitter)
        (omega (arith, raw_bound, small)) basis.0 basis.1 in
    elim (Bool-cases (leb policy.max_attempts attempt)) [
      | inl spent ↦ rw spent (ground arith)
      | inr left ↦ rw left (
          within policy attempt (raw_delay policy attempt * basis_points jitter / 10000 % 2 ^ 64)
            (ground arith) raw_bound adjusted)
    ]
