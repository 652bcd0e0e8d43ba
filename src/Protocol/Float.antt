-- ===== src/Protocol/Float.antt =====
-- `f64` as its IEEE 754 bit pattern, with the operations that the core applies to it.
use llm_notch.Prelude.{
  ℕ, zero, suc, ◌+◌, ◌*◌, ◌/◌, ◌%◌, ◌^◌, Bool, true, false, ltb, leb, if◌then◌else◌, ◌==◌,
  number_key, ◌||◌,
}

pub record F64 : Type 0 where
  pub bits : ℕ

-- Exponent bits all set and a mantissa that is not zero.
unfoldable pub is_nan : F64 → Bool
is_nan x = ltb (0x7ff * 2 ^ 52) (x.bits % 2 ^ 63)

unfoldable pub is_negative : F64 → Bool
is_negative x = leb (2 ^ 63) (x.bits % 2 ^ 64)

-- `a >= b`: false if either is not a number; the two zeros are equal; otherwise the order of the
-- magnitudes, turned round below zero.
unfoldable pub ge : F64 → F64 → Bool
unfolding is_nan is_negative
ge a b =
    let ma = a.bits % 2 ^ 63 in
    let mb = b.bits % 2 ^ 63 in
    if is_nan a || is_nan b
    then false
    else if is_negative a
    then (if is_negative b then leb ma mb else ma + mb == 0)
    else if is_negative b
    then true
    else leb mb ma

-- `n as f64`, as the integer that the nearest double stands for: 53 significant bits, ties to the
-- even neighbour. A `u64` loses at most 11 bits.
abbrev round_at : ℕ → ℕ → ℕ
round_at unit n =
    let low = n % unit in
    let down = n / unit in
    if ltb (unit / 2) low
    then (down + 1) * unit
    else if low == unit / 2
    then (down + down % 2) * unit
    else down * unit

round_from : ℕ → ℕ → ℕ → ℕ
round_from zero unit n = round_at unit n
round_from (suc fuel) unit n =
    let wider = round_from fuel (unit * 2) n in
    if ltb n (2 ^ 53 * unit) then (if unit == 1 then n else round_at unit n) else wider

unfoldable pub round_to_f64 : ℕ → ℕ
unfolding round_from
round_to_f64 n = round_from 11 1 n

-- `(n as f64 * 0.25) as u64`: the product with a power of two is exact, the cast truncates.
unfoldable pub quarter_as_u64 : ℕ → ℕ
unfolding round_to_f64
quarter_as_u64 n = round_to_f64 n / 4
