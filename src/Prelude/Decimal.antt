-- ===== src/Prelude/Decimal.antt =====
-- `{}` on a `u64`: its decimal digits. A `u64` has at most 20 of them.
use Prim.Native.Nat.{ℕ, zero, suc, ◌/◌, ◌%◌}
use Prim.Native.String.{String, ◌++◌ as str_append}
use llm_notch.Prelude.Tests.{ltb, if◌then◌else◌, ◌==◌, number_key}

digit : ℕ → String
digit n =
    if n == 0
    then "0"
    else if n == 1
    then "1"
    else if n == 2
    then "2"
    else if n == 3
    then "3"
    else if n == 4
    then "4"
    else if n == 5
    then "5"
    else if n == 6
    then "6"
    else if n == 7
    then "7"
    else if n == 8
    then "8"
    else "9"

show_digits : ℕ → ℕ → String
unfolding digit
show_digits zero n = digit (n % 10)
show_digits (suc fuel) n =
    let more = show_digits fuel (n / 10) in
    if ltb n 10 then digit n else str_append more (digit (n % 10))

unfoldable pub show_u64 : ℕ → String
unfolding show_digits
show_u64 n = show_digits 20 n
