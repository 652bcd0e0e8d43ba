-- ===== src/Metrics/Arithmetic.antt =====
-- `f64` sums, quotients by a whole number and `clamp`, on the bit patterns of IEEE 754.
use llm_notch.Prelude.{
  ℕ, zero, suc, ◌+◌, ◌-◌, ◌*◌, ◌/◌, ◌%◌, ◌^◌, Bool, true, false, if◌then◌else◌, ltb, leb, ◌==◌,
  number_key, ◌&&◌, ◌||◌,
}
use llm_notch.Protocol.{F64, is_nan, is_negative, ge}

abbrev pub f64_zero : F64
f64_zero = record { bits = 0 }

-- 100.0
abbrev pub f64_hundred : F64
f64_hundred = record { bits = 0x4059000000000000 }

abbrev nan : F64
nan = record { bits = 0x7ff8000000000000 }

-- The pattern of infinity.
abbrev infinite : ℕ
infinite = 0x7ff0000000000000

abbrev magnitude : F64 → ℕ
magnitude x = x.bits % 2 ^ 63

-- A finite magnitude in units of the least subnormal number.
abbrev units : ℕ → ℕ
units m = if leb 1 (m / 2 ^ 52) then (2 ^ 52 + m % 2 ^ 52) * 2 ^ (m / 2 ^ 52 - 1) else m

-- The quotient by `d`, to the nearest; a tie goes to the even one.
abbrev nearest_even : ℕ → ℕ → ℕ
nearest_even n d =
    let q = n / d in let r = n % d * 2 in if ltb d r || ((r == d) && (q % 2 == 1)) then q + 1 else q

-- The least shift, from `k` on, that leaves at most 53 bits.
shift_from : ℕ → ℕ → ℕ → ℕ
shift_from zero k n = k
shift_from (suc fuel) k n =
    let further = shift_from fuel (suc k) n in if ltb n (2 ^ (53 + k)) then k else further

-- The pattern nearest to `n` units divided by `2 ^ extra`; infinity past the greatest number. The
-- greatest sum has 2099 bits.
unfoldable pub encode : ℕ → ℕ → ℕ
unfolding shift_from
encode extra n =
    let k = shift_from 2100 extra n in
    let bits = (k - extra) * 2 ^ 52 + nearest_even n (2 ^ k) in
    if leb infinite bits then infinite else bits

abbrev with_sign : Bool → ℕ → F64
with_sign negative bits = record { bits = if negative then 2 ^ 63 + bits else bits }

abbrev differ : Bool → Bool → Bool
differ true b = if b then false else true
differ false b = b

-- Finite numbers of one sign, or of two.
unfoldable pub add_finite : F64 → F64 → F64
unfolding encode is_negative
add_finite a b =
    let na = is_negative a in
    let nb = is_negative b in
    let ua = units (magnitude a) in
    let ub = units (magnitude b) in
    if differ na nb
    then (if ua == ub
        then f64_zero
        else if ltb ub ua
        then with_sign na (encode 0 (ua - ub))
        else with_sign nb (encode 0 (ub - ua)))
    else with_sign na (encode 0 (ua + ub))

unfoldable pub add : F64 → F64 → F64
unfolding add_finite is_nan is_negative
add a b =
    let ia = magnitude a == infinite in
    let ib = magnitude b == infinite in
    if is_nan a || is_nan b
    then nan
    else if ia
    then (if ib && differ (is_negative a) (is_negative b) then nan else a)
    else if ib
    then b
    else add_finite a b

-- The quotient by a whole number that is not zero: 64 more bits than the units have, with a last
-- bit for what is left over.
unfoldable pub div_whole : F64 → ℕ → F64
unfolding encode is_nan is_negative
div_whole a c =
    let u = units (magnitude a) * 2 ^ 64 in
    let rest = if u % c == 0 then 0 else 1 in
    if is_nan a
    then nan
    else if magnitude a == infinite
    then a
    else with_sign (is_negative a) (encode 65 (u / c * 2 + rest))

-- `clamp(0.0, 100.0)`
unfoldable pub clamp_percent : F64 → F64
unfolding is_nan ge
clamp_percent x =
    if is_nan x
    then x
    else if ge x f64_zero
    then (if ge f64_hundred x then x else f64_hundred)
    else f64_zero
