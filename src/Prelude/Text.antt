-- ===== src/Prelude/Text.antt =====
-- Texts by their characters: the operations of `str` that the program uses.
use Prim.Native.String.{String, ◌∷◌ as char_cons, [] as no_text}
use Prim.Native.Char.{Char, code}
use Prim.Native.Nat.{ℕ, zero, suc, ◌+◌, ◌-◌, ◌*◌, ◌^◌}
use mathlib.Core.Bool.{Bool, ◌&&◌, ◌||◌}
use mathlib.Core.List.{List, [], ◌∷◌}
use mathlib.Core.Option.{Option, none, some}
use llm_notch.Prelude.Tests.{leb, if◌then◌else◌, ◌==◌, number_key}

-- `chars().take(n)`
unfoldable pub take_chars : ℕ → String → String
take_chars zero s = no_text
take_chars (suc n) no_text = no_text
take_chars (suc n) (char_cons c s) = char_cons c (take_chars n s)

-- `char::is_whitespace`, the characters with the property White_Space.
unfoldable pub is_whitespace : Char → Bool
is_whitespace c =
    let n = code c in
    (leb 9 n && leb n 13)
    || ((n == 32)
        || ((n == 0x85)
            || ((n == 0xa0)
                || ((n == 0x1680)
                    || ((leb 0x2000 n && leb n 0x200a)
                        || ((n == 0x2028)
                            || ((n == 0x2029)
                                || ((n == 0x202f) || ((n == 0x205f) || (n == 0x3000))))))))))

unfoldable pub is_ascii_digit : Char → Bool
is_ascii_digit c = leb 48 (code c) && leb (code c) 57

-- `trim_start_matches`
unfoldable pub trim_start_by : (Char → Bool) → String → String
trim_start_by p no_text = no_text
trim_start_by p (char_cons c s) =
    let rest = trim_start_by p s in if p c then rest else char_cons c s

abbrev keep_unless_blank : (Char → Bool) → Char → String → String
keep_unless_blank p c no_text = if p c then no_text else char_cons c no_text
keep_unless_blank p c (char_cons d s) = char_cons c (char_cons d s)

-- `trim_end_matches`
unfoldable pub trim_end_by : (Char → Bool) → String → String
trim_end_by p no_text = no_text
trim_end_by p (char_cons c s) = keep_unless_blank p c (trim_end_by p s)

unfoldable pub trim : String → String
unfolding trim_start_by trim_end_by is_whitespace
trim s = trim_end_by is_whitespace (trim_start_by is_whitespace s)

unfoldable pub strip_prefix : String → String → Option String
strip_prefix no_text s = some s
strip_prefix (char_cons p ps) no_text = none
strip_prefix (char_cons p ps) (char_cons c s) =
    let rest = strip_prefix ps s in if code p == code c then rest else none

abbrev grow_first : Char → List String → List String
grow_first c [] = char_cons c no_text ∷ []
grow_first c (part ∷ parts) = char_cons c part ∷ parts

-- `split` by one character, of which the number is given.
unfoldable pub split : ℕ → String → List String
split at no_text = no_text ∷ []
split at (char_cons c s) =
    let parts = split at s in if code c == at then no_text ∷ parts else grow_first c parts

-- The number that the digits continue; none where another character stands or 64 bits are left.
unfoldable pub parse_digits : ℕ → String → Option ℕ
unfolding is_ascii_digit
parse_digits n no_text = some n
parse_digits n (char_cons c s) =
    let m = n * 10 + (code c - 48) in
    let rest = parse_digits m s in if is_ascii_digit c && leb m (2 ^ 64 - 1) then rest else none

-- Digits, of which there is at least one.
abbrev parse_some : String → Option ℕ
unfolding parse_digits
parse_some no_text = none
parse_some (char_cons c s) = parse_digits 0 (char_cons c s)

-- `parse::<u64>`, with or without a plus sign.
unfoldable pub parse_u64 : String → Option ℕ
unfolding parse_digits
parse_u64 no_text = none
parse_u64 (char_cons c s) = if code c == 43 then parse_some s else parse_some (char_cons c s)
