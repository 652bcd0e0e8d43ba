-- ===== src/Examples/Ipc.antt =====
-- Messages, their frames, and a spool.
use llm_notch.Prelude.{
  ℕ, String, ◌+◌, ◌≤◌, ◌<◌, ◌≡◌, refl, Option, none, some, ◌&&◌, if◌then◌else◌, ◌==◌, number_key,
  text_key, List, [], ◌∷◌, ◌++◌, length, arith, eq_iff, Pairwise,
}
use llm_notch.Prelude.Int.{pos}
use llm_notch.Ipc.Error.{ok, max_spool_files, max_spool_bytes, max_frame_bytes}
use llm_notch.Ipc.Message.{WireMessage}
use llm_notch.Ipc.Framing.{Bytes, Json, encode_message, write_all, read_all}
use llm_notch.Ipc.Framing.RoundTrip.{IsRoundTrip, read_all-write_all}
use llm_notch.Ipc.Spool.{
  same_stem, SpoolFile, Moment, stem_of, add_file, total_bytes, spool_message,
}
use llm_notch.Ipc.Spool.Limits.{Differ, newest, spool_message_lem}

abbrev an_ack : WireMessage
an_ack = WireMessage.ack 1 "abc"

-- A printer of one message.
abbrev print_ack : WireMessage → Option Bytes
print_ack (WireMessage.ack v request) =
    if v == 1 && request == "abc" then some (123 ∷ 125 ∷ []) else none
print_ack (WireMessage.auth v request token) = none
print_ack (WireMessage.ingest v request payload) = none
print_ack (WireMessage.error v request code message) = none
print_ack (WireMessage.decision_wait v request fields) = none
print_ack (WireMessage.decision_reply v request stdout state) = none

abbrev one_message : Json
one_message = record {
  to_vec = print_ack;
  from_slice = λ body. if length body == 2 then some an_ack else none;
}

one_message_ack :
    (v : ℕ) (request : String) (body : Bytes)
    → print_ack (WireMessage.ack v request) ≡ some body
    → one_message.from_slice body ≡ some (WireMessage.ack v request)
one_message_ack v request body e = ground (arith, e, eq_iff request "abc")

one_message-IsRoundTrip : IsRoundTrip one_message
one_message-IsRoundTrip (WireMessage.ack v request) body e = one_message_ack v request body e
one_message-IsRoundTrip (WireMessage.auth v request token) body e = cc
one_message-IsRoundTrip (WireMessage.ingest v request payload) body e = cc
one_message-IsRoundTrip (WireMessage.error v request code message) body e = cc
one_message-IsRoundTrip (WireMessage.decision_wait v request fields) body e = cc
one_message-IsRoundTrip (WireMessage.decision_reply v request stdout state) body e = cc

abbrev ack_frame : Bytes
ack_frame = 0 ∷ 0 ∷ 0 ∷ 2 ∷ 123 ∷ 125 ∷ []

acks_written : write_all one_message (an_ack ∷ an_ack ∷ []) ≡ ok (ack_frame ++ ack_frame)
unfolding write_all
acks_written = refl

read_all-write_all_example :
    read_all one_message 2 ((ack_frame ++ ack_frame) ++ (7 ∷ []))
    ≡ ok (an_ack ∷ an_ack ∷ [], 7 ∷ [])
read_all-write_all_example =
    read_all-write_all one_message (an_ack ∷ an_ack ∷ []) (ack_frame ++ ack_frame) (7 ∷ [])
      one_message-IsRoundTrip acks_written

ack_encoded : encode_message one_message an_ack ≡ ok ack_frame
unfolding encode_message
ack_encoded = refl

abbrev a_file : ℕ → SpoolFile
a_file at = record {
  stem = record { occurred_at_ms = at; tie_breaker = 0; counter = at; id = at };
  frame = ack_frame;
}

abbrev two_files : List SpoolFile
two_files = a_file 1 ∷ a_file 3 ∷ []

two_files-Differ : Pairwise Differ two_files
two_files-Differ = ((unfold same_stem in refl, tt), (tt, tt))

abbrev a_moment : Moment
a_moment = record { now_ms = pos 2; nanos = 5; counter = 9; id = 11 }

abbrev a_new_file : SpoolFile
a_new_file = record { stem = stem_of an_ack a_moment; frame = ack_frame }

spool_message_lem_example :
    (spool_message one_message an_ack a_moment two_files
      ≡ some (ok (stem_of an_ack a_moment), add_file a_new_file (newest two_files)))
    × (length (add_file a_new_file (newest two_files)) ≤ max_spool_files)
    × (total_bytes (add_file a_new_file (newest two_files)) < max_spool_bytes + 4 + max_frame_bytes)
spool_message_lem_example =
    spool_message_lem one_message an_ack a_moment two_files ack_frame two_files-Differ ack_encoded
