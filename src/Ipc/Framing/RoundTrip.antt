-- ===== src/Ipc/Framing/RoundTrip.antt =====
-- Messages written and read back through the frames of crates/notch-ipc/src/wire.rs and framing.rs.
use mathlib.Core.List.{append_assoc}
use llm_notch.Prelude.{
  ℕ, ◌+◌, ◌/◌, ◌%◌, ◌^◌, ◌≤◌, ◌<◌, ◌≡◌, refl, ap, ◌∙◌, Option, none, some, ltb, true, false, ◌==◌,
  number_key, List, [], ◌∷◌, ◌++◌, length, take, drop, length-append, arith,
}
use llm_notch.Ipc.Error.{bind-ok, ok, max_frame_bytes}
use llm_notch.Ipc.Message.{WireMessage}
use llm_notch.Ipc.Wire.{validate_wire_message}
use llm_notch.Ipc.Framing.{
  Bytes, Json, to_be_bytes, from_be_bytes, read_exact, framed, encode_message, parsed,
  decode_frame_bytes, declared_length, read_body, read_frame, write_all, read_all,
}

-- What the printer gives, the parser reads as the same message.
abbrev pub IsRoundTrip : Json → Type 0
IsRoundTrip json =
    (message : WireMessage) (body : Bytes)
    → json.to_vec message ≡ some body
    → json.from_slice body ≡ some message

from_be_bytes-to_be_bytes :
    (n : ℕ)
    → n < 2 ^ 32
    → from_be_bytes (n / 2 ^ 24 % 256) (n / 2 ^ 16 % 256) (n / 2 ^ 8 % 256) (n % 256) ≡ n
unfolding from_be_bytes
from_be_bytes-to_be_bytes n small = omega arith

take_append : (xs ys : Bytes) → take (length xs) (xs ++ ys) ≡ xs
take_append [] [] = refl
take_append [] (y ∷ ys) = refl
take_append (x ∷ xs) ys = ap (λ r. x ∷ r) (take_append xs ys)

drop_append : (xs ys : Bytes) → drop (length xs) (xs ++ ys) ≡ ys
drop_append [] ys = refl
drop_append (x ∷ xs) ys = drop_append xs ys

read_exact-append : (xs ys : Bytes) → read_exact (length xs) (xs ++ ys) ≡ ok (xs, ys)
unfolding read_exact
read_exact-append xs ys =
    let all : ltb (length (xs ++ ys)) (length xs) ≡ false = ground (arith, length-append xs ys) in
    rw all (rw (take_append xs ys) (rw (drop_append xs ys) refl))

module _ (json : Json) where
  abbrev pub IsEncoded : WireMessage → Bytes → Bytes → Type 0
  IsEncoded message frame body =
      (validate_wire_message message ≡ ok tt)
      × (json.to_vec message ≡ some body)
      × (length body ≤ max_frame_bytes)
      × (frame ≡ to_be_bytes (length body) ++ body)

  framed-ok :
      (printed : Option Bytes) (frame : Bytes)
      → framed json printed ≡ ok frame
      → (body : Bytes) × (printed ≡ some body)
        × (length body ≤ max_frame_bytes)
        × (frame ≡ to_be_bytes (length body) ++ body)
  unfolding framed
  framed-ok none frame e = cc
  framed-ok (some body) frame e = (body, refl, ground (arith, e), ground (arith, e))

  pub encode_message-ok :
      (message : WireMessage) (frame : Bytes)
      → encode_message json message ≡ ok frame
      → (body : Bytes) × IsEncoded message frame body
  unfolding encode_message
  encode_message-ok message frame e =
      let checked =
        bind-ok (validate_wire_message message) (λ _. framed json (json.to_vec message)) frame e in
      let body = framed-ok (json.to_vec message) frame checked.2 in
      (body.0, (checked.1, body.1, body.2, body.3))

  parsed-valid :
      (message : WireMessage)
      → validate_wire_message message ≡ ok tt
      → parsed json (some message) ≡ ok message
  unfolding parsed
  parsed-valid message valid = rw valid refl

  fits : (body : Bytes) → length body ≤ max_frame_bytes → ltb max_frame_bytes (length body) ≡ false
  fits body small = ground (arith, small)

  decode-declared :
      (a b c d : ℕ) (message : WireMessage) (body : Bytes)
      → from_be_bytes a b c d ≡ length body
      → length body ≤ max_frame_bytes
      → decode_frame_bytes json (a ∷ b ∷ c ∷ d ∷ body) ≡ parsed json (json.from_slice body)
  unfolding decode_frame_bytes
  decode-declared a b c d message body declared small =
      let sized : (length (a ∷ b ∷ c ∷ d ∷ body) == 4 + length body) ≡ true = ground arith in
      rw declared (rw (fits body small) (rw sized refl))

  decode-framed :
      (message : WireMessage) (body : Bytes)
      → IsRoundTrip json
      → validate_wire_message message ≡ ok tt
      → json.to_vec message ≡ some body
      → length body ≤ max_frame_bytes
      → decode_frame_bytes json (to_be_bytes (length body) ++ body) ≡ ok message
  unfolding to_be_bytes
  decode-framed message body round valid printed small =
      decode-declared _ _ _ _ message body
        (from_be_bytes-to_be_bytes (length body) (omega (arith, small))) small
      ∙ ap (λ o. parsed json o) (round message body printed)
      ∙ parsed-valid message valid

  read_body-declared :
      (prefix : Bytes) (message : WireMessage) (body rest : Bytes)
      → declared_length json prefix ≡ length body
      → length body ≤ max_frame_bytes
      → decode_frame_bytes json (prefix ++ body) ≡ ok message
      → read_body json prefix (body ++ rest) ≡ ok (message, rest)
  unfolding read_body
  read_body-declared prefix message body rest declared small decoded =
      rw declared (rw (fits body small) (rw (read_exact-append body rest) (rw decoded refl)))

  declared_length-to_be_bytes : (n : ℕ) → n < 2 ^ 32 → declared_length json (to_be_bytes n) ≡ n
  unfolding declared_length to_be_bytes
  declared_length-to_be_bytes n small = from_be_bytes-to_be_bytes n small

  read_frame-framed :
      (message : WireMessage) (body rest : Bytes)
      → IsRoundTrip json
      → validate_wire_message message ≡ ok tt
      → json.to_vec message ≡ some body
      → length body ≤ max_frame_bytes
      → read_frame json (to_be_bytes (length body) ++ (body ++ rest)) ≡ ok (message, rest)
  unfolding read_frame to_be_bytes
  read_frame-framed message body rest round valid printed small =
      rw (read_exact-append (to_be_bytes (length body)) (body ++ rest)) (
        read_body-declared (to_be_bytes (length body)) message body rest
          (declared_length-to_be_bytes (length body) (omega (arith, small))) small
          (decode-framed message body round valid printed small))

  -- A frame that was written is read as its message, and what follows it is left.
  read_frame-encode :
      (message : WireMessage) (frame rest : Bytes)
      → IsRoundTrip json
      → encode_message json message ≡ ok frame
      → read_frame json (frame ++ rest) ≡ ok (message, rest)
  read_frame-encode message frame rest round e =
      let encoded = encode_message-ok message frame e in
      let body = encoded.0 in
      ap (λ f. read_frame json (f ++ rest)) encoded.1.3
      ∙ ap (λ f. read_frame json f) (append_assoc (to_be_bytes (length body)) body rest)
      ∙ read_frame-framed message body rest round encoded.1.0 encoded.1.1 encoded.1.2

  -- Messages that were written one after the other are read back as they were, and what follows them
  -- is left, provided that the parser reads what the printer gives as the same message.
  pub read_all-write_all :
      (messages : List WireMessage) (frames rest : Bytes)
      → IsRoundTrip json
      → write_all json messages ≡ ok frames
      → read_all json (length messages) (frames ++ rest) ≡ ok (messages, rest)
  unfolding write_all read_all
  read_all-write_all [] frames rest round e =
      let empty : frames ≡ [] = cc in ap (λ f. ok ([], f ++ rest)) empty
  read_all-write_all (m ∷ ms) frames rest round e =
      let first = bind-ok (encode_message json m) _ frames e in
      let later = bind-ok (write_all json ms) _ frames first.2 in
      let whole : frames ≡ first.0 ++ later.0 = cc in
      let split = ap (λ f. f ++ rest) whole ∙ append_assoc first.0 later.0 rest in
      rw split (
        rw (read_frame-encode m first.0 (later.0 ++ rest) round first.1)
          (rw (read_all-write_all ms later.0 rest round later.1) refl))
