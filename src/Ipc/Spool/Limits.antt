-- ===== src/Ipc/Spool/Limits.antt =====
-- What the spool of crates/notch-ipc/src/spool.rs keeps.
use llm_notch.Prelude.{
  ℕ, suc, ◌+◌, ◌≤◌, ◌<◌, ◌≡◌, refl, ap, ◌∙◌, some, true, false, not, if◌then◌else◌, number_key,
  List, [], ◌∷◌, length, retain, All, Pairwise, arith, inl, inr, Bool-cases,
}
use llm_notch.Ipc.Error.{ok, max_spool_files, max_spool_bytes, max_frame_bytes}
use llm_notch.Ipc.Message.{WireMessage}
use llm_notch.Ipc.Framing.{Bytes, Json, encode_message, to_be_bytes}
use llm_notch.Ipc.Framing.RoundTrip.{encode_message-ok}
use llm_notch.Ipc.Spool.{
  Stem, SpoolFile, same_stem, add_file, remove, total_bytes, is_within, enforce_limits, Moment,
  stem_of, add_written, written_after, spool_message,
}

-- The longest end of the directory that is within the limits.
unfoldable pub newest : List SpoolFile → List SpoolFile
newest [] = []
newest (f ∷ fs) = let rest = newest fs in if is_within (f ∷ fs) then f ∷ fs else rest

abbrev pub Differ : SpoolFile → SpoolFile → Type 0
Differ a b = same_stem a.stem b.stem ≡ false

same_stem_refl : (a : Stem) → same_stem a a ≡ true
unfolding same_stem
same_stem_refl a = ground arith

retain-All :
    (f : SpoolFile) (fs : List SpoolFile)
    → All (Differ f) fs
    → retain (λ g. not (same_stem f.stem g.stem)) fs ≡ fs
retain-All f [] h = refl
retain-All f (g ∷ gs) h = ground (arith, h.0, retain-All f gs h.1)

remove_first :
    (f : SpoolFile) (fs : List SpoolFile) → All (Differ f) fs → remove f.stem (f ∷ fs) ≡ fs
unfolding remove
remove_first f fs h = ground (arith, same_stem_refl f.stem, retain-All f fs h)

enforce_limits-eq-newest :
    (files : List SpoolFile)
    → Pairwise Differ files
    → enforce_limits (suc (length files)) files ≡ some (newest files)
unfolding enforce_limits newest
enforce_limits-eq-newest [] distinct = refl
enforce_limits-eq-newest (f ∷ fs) distinct =
    let later =
      ap (λ r. enforce_limits (suc (length fs)) r) (remove_first f fs distinct.0)
      ∙ enforce_limits-eq-newest fs distinct.1 in
    elim (Bool-cases (is_within (f ∷ fs))) [
      | inl within ↦ rw within refl
      | inr beyond ↦ rw beyond later
    ]

newest_within : (files : List SpoolFile) → is_within (newest files) ≡ true
unfolding newest
newest_within [] = unfold is_within total_bytes in refl
newest_within (f ∷ fs) = elim (Bool-cases (is_within (f ∷ fs))) [
  | inl within ↦ rw within within
  | inr beyond ↦ rw beyond (newest_within fs)
]

length-add_file : (f : SpoolFile) (fs : List SpoolFile) → length (add_file f fs) ≡ suc (length fs)
unfolding add_file
length-add_file f [] = refl
length-add_file f (g ∷ gs) = ground (arith, length-add_file f gs)

total_bytes-add_file :
    (f : SpoolFile) (fs : List SpoolFile)
    → total_bytes (add_file f fs) ≡ length f.frame + total_bytes fs
unfolding add_file total_bytes
total_bytes-add_file f [] = refl
total_bytes-add_file f (g ∷ gs) = ground (arith, total_bytes-add_file f gs)

within_bounds :
    (files : List SpoolFile)
    → is_within files ≡ true
    → (length files < max_spool_files) × (total_bytes files < max_spool_bytes)
unfolding is_within
within_bounds files h = ground (arith, h)

encoded_length :
    (json : Json) (message : WireMessage) (frame : Bytes)
    → encode_message json message ≡ ok frame
    → length frame ≤ 4 + max_frame_bytes
unfolding to_be_bytes
encoded_length json message frame e =
    let encoded = encode_message-ok json message frame e in
    let size = ap (length {A = ℕ}) encoded.1.3 in omega (arith, size, encoded.1.2)

-- The files of a directory have different names. A message whose encoding succeeds is spooled: the loop
-- that evicts ends, the directory is left with its newest files, as many as are within both limits,
-- and with a file of the message at its place in their order. At most `MAX_SPOOL_FILES` files are
-- there then, and they have fewer bytes than the limit and one whole frame together.
pub spool_message_lem :
    (json : Json) (message : WireMessage) (at : Moment) (files : List SpoolFile) (frame : Bytes)
    → Pairwise Differ files
    → encode_message json message ≡ ok frame
    → let file : SpoolFile = record { stem = stem_of message at; frame = frame } in
      (spool_message json message at files
        ≡ some (ok (stem_of message at), add_file file (newest files)))
      × (length (add_file file (newest files)) ≤ max_spool_files)
      × (total_bytes (add_file file (newest files)) < max_spool_bytes + 4 + max_frame_bytes)
unfolding spool_message add_written written_after
spool_message_lem json message at files frame distinct e =
    let file : SpoolFile = record { stem = stem_of message at; frame = frame } in
    let kept = enforce_limits-eq-newest files distinct in
    let bounds = within_bounds (newest files) (newest_within files) in
    let size = encoded_length json message frame e in
    (
      rw kept (rw e refl),
      omega (arith, bounds, length-add_file file (newest files)),
      omega (arith, bounds, size, total_bytes-add_file file (newest files)),
    )
