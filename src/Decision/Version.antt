-- ===== src/Decision/Version.antt =====
-- crates/notch-adapters/claude-code/src/version.rs: which versions of Claude Code are known.
use llm_notch.Prelude.{
  ℕ, String, Bool, false, List, [], ◌∷◌, Option, none, some, if◌then◌else◌, ltb, leb, ◌==◌,
  number_key, len, ◌&&◌, ◌||◌, not,
}
use llm_notch.Prelude.Text.{trim, trim_end_by, is_ascii_digit, strip_prefix, split, parse_u64}

pub data ClaudeVersionProfile : Type 0 where
  known : String → ClaudeVersionProfile
  unknown : Option String → ClaudeVersionProfile

abbrev known_min_major : ℕ
known_min_major = 2

abbrev known_min_minor : ℕ
known_min_minor = 1

abbrev known_min_patch : ℕ
known_min_patch = 0

abbrev or_text : Option String → Option String → Option String
or_text none other = other
or_text (some t) other = some t

abbrev or_raw : Option String → String → String
or_raw none raw = raw
or_raw (some t) raw = t

unfoldable pub strip_version_prefix : String → String
unfolding strip_prefix trim
strip_version_prefix raw =
    trim (or_raw (or_text (strip_prefix "Claude Code " raw) (strip_prefix "claude-code " raw)) raw)

-- The first part of the text, and of what follows it.
abbrev first_part : List String → Option ℕ
unfolding parse_u64
first_part [] = none
first_part (part ∷ parts) = parse_u64 part

abbrev next_parts : List String → List String
next_parts [] = []
next_parts (part ∷ parts) = parts

abbrev or_zero : Option ℕ → ℕ
or_zero none = 0
or_zero (some n) = n

-- What follows the last digit of the third part does not count; a part that is no number is 0.
abbrev patch_of : List String → ℕ
unfolding parse_u64 trim_end_by is_ascii_digit
patch_of [] = 0
patch_of (part ∷ parts) = or_zero (parse_u64 (trim_end_by (λ c. not (is_ascii_digit c)) part))

-- The order of the triples.
unfoldable pub at_least_known : ℕ → ℕ → ℕ → Bool
at_least_known major minor patch =
    ltb known_min_major major
    || ((major == known_min_major)
        && (ltb known_min_minor minor || ((minor == known_min_minor) && leb known_min_patch patch)))

abbrev known_triple : Option ℕ → Option ℕ → ℕ → Bool
unfolding at_least_known
known_triple (some major) (some minor) patch = at_least_known major minor patch
known_triple _ _ patch = false

-- The full stop is character 46.
unfoldable pub is_known_claude_semver : String → Bool
unfolding split first_part patch_of at_least_known known_triple
is_known_claude_semver raw =
    let parts = split 46 raw in
    known_triple (first_part parts) (first_part (next_parts parts))
      (patch_of (next_parts (next_parts parts)))

abbrev detect_trimmed : String → ClaudeVersionProfile
unfolding strip_version_prefix is_known_claude_semver
detect_trimmed raw =
    let normalized = strip_version_prefix raw in
    if len raw == 0
    then unknown none
    else if is_known_claude_semver normalized
    then known normalized
    else unknown (some normalized)

unfoldable pub detect_version : Option String → ClaudeVersionProfile
unfolding detect_trimmed trim
detect_version none = unknown none
detect_version (some raw) = detect_trimmed (trim raw)
