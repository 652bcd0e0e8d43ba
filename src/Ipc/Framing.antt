-- ===== src/Ipc/Framing.antt =====
-- The frames of crates/notch-ipc/src/wire.rs and framing.rs: a length in four bytes, the highest
-- first, and a body. A reader is the bytes that it gives until its end; waits, time limits and failing
-- devices are left out. The printer and the parser of JSON are arguments.
pub mod RoundTrip
use llm_notch.Prelude.{
  ℕ, zero, suc, ◌+◌, ◌*◌, ◌/◌, ◌%◌, ◌^◌, Option, none, some, not, ltb, if◌then◌else◌, ◌==◌,
  number_key, List, [], ◌∷◌, ◌++◌, length, take, drop,
}
use llm_notch.Ipc.Error.{IpcResult, ok, err, ◌>>=◌, IpcError, Rejection, max_frame_bytes}
use llm_notch.Ipc.Message.{WireMessage}
use llm_notch.Ipc.Wire.{validate_wire_message}

abbrev pub Bytes : Type 0
Bytes = List ℕ

-- `serde_json::to_vec` and `from_str`; the parser also refuses what is not UTF-8.
pub record Json : Type 0 where
  pub to_vec : WireMessage → Option Bytes
  pub from_slice : Bytes → Option WireMessage

-- `(len as u32).to_be_bytes()`
unfoldable pub to_be_bytes : ℕ → Bytes
to_be_bytes n = n / 2 ^ 24 % 256 ∷ n / 2 ^ 16 % 256 ∷ n / 2 ^ 8 % 256 ∷ n % 256 ∷ []

unfoldable pub from_be_bytes : ℕ → ℕ → ℕ → ℕ → ℕ
from_be_bytes a b c d = a * 2 ^ 24 + b * 2 ^ 16 + c * 2 ^ 8 + d

-- `read_exact`: the bytes asked for, and those after them.
unfoldable pub read_exact : ℕ → Bytes → IpcResult (Bytes × Bytes)
read_exact n bytes =
    if ltb (length bytes) n then err IpcError.connection_closed else ok (take n bytes, drop n bytes)

module _ (json : Json) where
  unfoldable pub framed : Option Bytes → IpcResult Bytes
  unfolding to_be_bytes
  framed none = err IpcError.other
  framed (some body) =
      if ltb max_frame_bytes (length body)
      then err (IpcError.frame_rejected Rejection.too_large)
      else ok (to_be_bytes (length body) ++ body)

  unfoldable pub encode_message : WireMessage → IpcResult Bytes
  unfolding framed validate_wire_message
  encode_message message = do _ ← validate_wire_message message; framed (json.to_vec message)

  unfoldable pub parsed : Option WireMessage → IpcResult WireMessage
  unfolding validate_wire_message
  parsed none = err (IpcError.frame_rejected Rejection.invalid_body)
  parsed (some message) = do _ ← validate_wire_message message; ok message

  unfoldable pub decode_frame_bytes : Bytes → IpcResult WireMessage
  unfolding from_be_bytes parsed
  decode_frame_bytes (a ∷ b ∷ c ∷ d ∷ body) =
      let declared = from_be_bytes a b c d in
      if ltb max_frame_bytes declared
      then err (IpcError.frame_rejected Rejection.too_large)
      else if not (length (a ∷ b ∷ c ∷ d ∷ body) == 4 + declared)
      then err (
          IpcError.frame_rejected
            (Rejection.size_mismatch (length (a ∷ b ∷ c ∷ d ∷ body)) (4 + declared)))
      else parsed (json.from_slice body)
  decode_frame_bytes (a ∷ b ∷ c ∷ []) = err (IpcError.frame_rejected Rejection.no_prefix)
  decode_frame_bytes (a ∷ b ∷ []) = err (IpcError.frame_rejected Rejection.no_prefix)
  decode_frame_bytes (a ∷ []) = err (IpcError.frame_rejected Rejection.no_prefix)
  decode_frame_bytes [] = err (IpcError.frame_rejected Rejection.no_prefix)

  -- The length that a prefix declares; a prefix that was read has four bytes.
  unfoldable pub declared_length : Bytes → ℕ
  unfolding from_be_bytes
  declared_length (a ∷ b ∷ c ∷ d ∷ []) = from_be_bytes a b c d
  declared_length _ = 0

  unfoldable pub read_body : Bytes → Bytes → IpcResult (WireMessage × Bytes)
  unfolding read_exact decode_frame_bytes declared_length
  read_body prefix bytes =
      if ltb max_frame_bytes (declared_length prefix)
      then err (IpcError.frame_rejected Rejection.too_large)
      else do
        (body, rest) ← read_exact (declared_length prefix) bytes
        message ← decode_frame_bytes (prefix ++ body)
        ok (message, rest)

  unfoldable pub read_frame : Bytes → IpcResult (WireMessage × Bytes)
  unfolding read_exact read_body
  read_frame bytes = do (prefix, rest) ← read_exact 4 bytes; read_body prefix rest

  -- Messages written one after the other.
  unfoldable pub write_all : List WireMessage → IpcResult Bytes
  unfolding encode_message
  write_all [] = ok []
  write_all (m ∷ ms) = do frame ← encode_message m; frames ← write_all ms; ok (frame ++ frames)

  -- As many messages as are asked for.
  unfoldable pub read_all : ℕ → Bytes → IpcResult (List WireMessage × Bytes)
  unfolding read_frame
  read_all zero bytes = ok ([], bytes)
  read_all (suc n) bytes = do
    (message, rest) ← read_frame bytes
    (messages, last) ← read_all n rest
    ok (message ∷ messages, last)
