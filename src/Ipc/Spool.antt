-- ===== src/Ipc/Spool.antt =====
-- crates/notch-ipc/src/spool.rs. A directory is the list of its frames in the order of `list_frames`,
-- which sorts them by their names; a name is the numbers in it, padded to one width. Files that cannot
-- be read or written are left out.
pub mod Limits
use llm_notch.Prelude.{
  ℕ, zero, suc, ◌+◌, Option, none, some, Bool, true, false, ◌&&◌, ◌||◌, not, ltb, if◌then◌else◌,
  ◌==◌, number_key, List, [], ◌∷◌, length, retain,
}
use llm_notch.Prelude.Int.{ℤ, pos, negsuc}
use llm_notch.Ipc.Error.{IpcResult, ok, err, max_spool_files, max_spool_bytes}
use llm_notch.Ipc.Message.{WireMessage}
use llm_notch.Ipc.Framing.{Bytes, Json, encode_message}

pub record Stem : Type 0 where
  pub occurred_at_ms : ℕ
  pub tie_breaker : ℕ
  pub counter : ℕ
  -- a UUID
  pub id : ℕ

pub record SpoolFile : Type 0 where
  pub stem : Stem
  pub frame : Bytes

unfoldable pub same_stem : Stem → Stem → Bool
same_stem a b =
    a.occurred_at_ms == b.occurred_at_ms
    && (a.tie_breaker == b.tie_breaker && (a.counter == b.counter && a.id == b.id))

unfoldable pub is_before : Stem → Stem → Bool
is_before a b =
    ltb a.occurred_at_ms b.occurred_at_ms
    || (a.occurred_at_ms == b.occurred_at_ms
        && (ltb a.tie_breaker b.tie_breaker
            || (a.tie_breaker == b.tie_breaker
                && (ltb a.counter b.counter || (a.counter == b.counter && ltb a.id b.id)))))

-- Where `list_frames`, which sorts what it reads of the directory, finds a new file: the list of files
-- is kept in that order and not sorted again.
unfoldable pub add_file : SpoolFile → List SpoolFile → List SpoolFile
unfolding is_before
add_file file [] = file ∷ []
add_file file (f ∷ fs) =
    let rest = add_file file fs in if is_before file.stem f.stem then file ∷ f ∷ fs else f ∷ rest

unfoldable pub remove : Stem → List SpoolFile → List SpoolFile
unfolding same_stem
remove stem files = retain (λ f. not (same_stem stem f.stem)) files

unfoldable pub total_bytes : List SpoolFile → ℕ
total_bytes [] = 0
total_bytes (f ∷ fs) = length f.frame + total_bytes fs

unfoldable pub is_within : List SpoolFile → Bool
unfolding total_bytes
is_within files = ltb (length files) max_spool_files && ltb (total_bytes files) max_spool_bytes

-- `none` where the fuel runs out.
unfoldable pub enforce_limits : ℕ → List SpoolFile → Option (List SpoolFile)
unfolding is_within remove
enforce_limits zero files = none
enforce_limits (suc fuel) [] = some []
enforce_limits (suc fuel) (oldest ∷ files) =
    let rest = enforce_limits fuel (remove oldest.stem (oldest ∷ files)) in
    if is_within (oldest ∷ files) then some (oldest ∷ files) else rest

-- The clocks, the counter of the process and the UUID at a call.
pub record Moment : Type 0 where
  pub now_ms : ℤ
  pub nanos : ℕ
  pub counter : ℕ
  pub id : ℕ

unfoldable pub occurred_at : WireMessage → ℤ → ℤ
occurred_at (WireMessage.ingest v request payload) now = elim payload.occurred_at_ms [
  | none ↦ now
  | some at ↦ at
]
occurred_at (WireMessage.auth v request token) now = now
occurred_at (WireMessage.ack v request) now = now
occurred_at (WireMessage.error v request code message) now = now
occurred_at (WireMessage.decision_wait v request fields) now = now
occurred_at (WireMessage.decision_reply v request stdout state) now = now

-- `.max(0) as u64`
unfoldable pub not_negative : ℤ → ℕ
not_negative (pos n) = n
not_negative (negsuc n) = 0

unfoldable pub stem_of : WireMessage → Moment → Stem
unfolding occurred_at not_negative
stem_of message at = record {
  occurred_at_ms = not_negative (occurred_at message at.now_ms);
  tie_breaker = at.nanos;
  counter = at.counter;
  id = at.id;
}

unfoldable pub add_written :
    IpcResult Bytes → Stem → List SpoolFile → IpcResult Stem × List SpoolFile
unfolding add_file
add_written (err e) stem files = (err e, files)
add_written (ok frame) stem files =
    (ok stem, add_file (record { stem = stem; frame = frame }) files)

unfoldable pub written_after :
    IpcResult Bytes → Stem → Option (List SpoolFile) → Option (IpcResult Stem × List SpoolFile)
unfolding add_written
written_after encoded stem none = none
written_after encoded stem (some kept) = some (add_written encoded stem kept)

-- The directory is cut to its limits before the message is checked.
unfoldable pub spool_message :
    Json → WireMessage → Moment → List SpoolFile → Option (IpcResult Stem × List SpoolFile)
unfolding enforce_limits encode_message stem_of written_after
spool_message json message at files =
    written_after (encode_message json message) (stem_of message at)
      (enforce_limits (suc (length files)) files)
