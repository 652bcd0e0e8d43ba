-- ===== src/Ipc/TerminalId.antt =====
-- `validate_terminal_id_field` of crates/notch-ipc/src/collector.rs, and the characters of a request.
use Prim.Native.String.{◌∷◌ as char_cons, [] as no_text}
use Prim.Native.Char.{code}
use llm_notch.Prelude.{
  ℕ, String, len, Bool, true, false, ◌&&◌, ◌||◌, not, ltb, leb, if◌then◌else◌, ◌==◌, number_key,
  List, [], ◌∷◌, any_of,
}
use llm_notch.Ipc.Error.{IpcResult, ok, err, IpcError, Rejection}

abbrev pub max_terminal_id_len : ℕ
max_terminal_id_len = 128

unfoldable pub is_ascii_alphanumeric : ℕ → Bool
is_ascii_alphanumeric n =
    (leb 48 n && leb n 57) || ((leb 65 n && leb n 90) || (leb 97 n && leb n 122))

unfoldable pub is_char_of : List ℕ → ℕ → Bool
unfolding any_of
is_char_of codes n = any_of (λ k. n == k) codes

unfoldable pub all_chars : (ℕ → Bool) → String → Bool
all_chars p no_text = true
all_chars p (char_cons c s) = let rest = all_chars p s in p (code c) && rest

-- `contains("..")`
unfoldable pub has_two_dots : String → Bool
has_two_dots no_text = false
has_two_dots (char_cons c no_text) = false
has_two_dots (char_cons c (char_cons d s)) =
    let rest = has_two_dots (char_cons d s) in (code c == 46 && code d == 46) || rest

-- `"`, `'`, the backquote, `$`, `;`, `|`, `&`, `<`, `>` and the ends of lines
unfoldable pub is_unsafe_shell_char : ℕ → Bool
unfolding is_char_of
is_unsafe_shell_char = is_char_of (34 ∷ 39 ∷ 96 ∷ 36 ∷ 59 ∷ 124 ∷ 38 ∷ 60 ∷ 62 ∷ 10 ∷ 13 ∷ [])

-- Letters, digits, the space, `-`, `_`, `.` and `%`.
unfoldable pub is_terminal_id_char : ℕ → Bool
unfolding is_char_of is_ascii_alphanumeric
is_terminal_id_char n = is_ascii_alphanumeric n || is_char_of (32 ∷ 45 ∷ 95 ∷ 46 ∷ 37 ∷ []) n

unfoldable pub is_slash : ℕ → Bool
unfolding is_char_of
is_slash = is_char_of (47 ∷ 92 ∷ [])

unfoldable pub validate_terminal_id_field : String → String → IpcResult (Unit {0})
unfolding all_chars has_two_dots is_unsafe_shell_char is_terminal_id_char is_slash
validate_terminal_id_field value field =
    let bad : IpcResult (Unit {0}) = err (IpcError.frame_rejected (Rejection.bad_field field)) in
    if len value == 0 || ltb max_terminal_id_len (len value)
    then bad
    else if has_two_dots value || not (all_chars (λ n. not (is_slash n)) value)
    then bad
    else if not (all_chars (λ n. not (is_unsafe_shell_char n)) value)
    then bad
    else if not (all_chars is_terminal_id_char value)
    then bad
    else ok tt

unfoldable pub is_request_id_char : ℕ → Bool
unfolding is_char_of is_ascii_alphanumeric
is_request_id_char n = is_ascii_alphanumeric n || is_char_of (45 ∷ 95 ∷ []) n
