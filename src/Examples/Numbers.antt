-- ===== src/Examples/Numbers.antt =====
-- Sums and quotients of `f64`, against the patterns that a machine gives.
use llm_notch.Prelude.{◌≡◌, refl}
use llm_notch.Metrics.Arithmetic.{add, div_whole, clamp_percent}

-- 0.1 + 0.2
add_tenths :
    (add (record { bits = 0x3FB999999999999A }) (record { bits = 0x3FC999999999999A })).bits
    ≡ 0x3FD3333333333334
unfolding add
add_tenths = refl

-- 1.0 - 0.1
add_negative :
    (add (record { bits = 0x3FF0000000000000 }) (record { bits = 0xBFB999999999999A })).bits
    ≡ 0x3FECCCCCCCCCCCCD
unfolding add
add_negative = refl

-- 1.0 / 3
div_third : (div_whole (record { bits = 0x3FF0000000000000 }) 3).bits ≡ 0x3FD5555555555555
unfolding div_whole
div_third = refl

clamp_double :
    (clamp_percent (div_whole (record { bits = 0x4089000000000000 }) 4)).bits ≡ 0x4059000000000000
unfolding clamp_percent div_whole
clamp_double = refl
