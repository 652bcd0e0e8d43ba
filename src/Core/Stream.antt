-- ===== src/Core/Stream.antt =====
-- crates/notch-core/src/stream.rs: the coalescer of payloads and the replay buffer of frames.
pub mod Replay
pub mod Coalesce
use llm_notch.Prelude.{
  ℕ, ◌-◌, String, Bool, true, false, List, [], ◌∷◌, ◌++◌, Option, none, some, if◌then◌else◌, ltb,
  text_key, ◌&&◌, length, drop, get_last?, retain, map,
}
use llm_notch.HashMap
use llm_notch.HashMap.{HashMap}
use llm_notch.Protocol.{
  AgentSession, MetricsFrame, StreamPayload, StreamFrame, stream_replay_capacity,
}

pub record StreamCoalescer : Type 0 where
  pub pending_session_upserts : HashMap String StreamPayload
  pub pending_metrics : Option MetricsFrame
  pub pending_other : List StreamPayload

abbrev pub new : StreamCoalescer
new = record { pending_session_upserts = []; pending_metrics = none; pending_other = [] }

unfoldable pub push : StreamCoalescer → StreamPayload → StreamCoalescer
push c (StreamPayload.session_upsert session) = record c {
  pending_session_upserts =
      HashMap.insert c.pending_session_upserts session.id (StreamPayload.session_upsert session);
}
push c (StreamPayload.metrics frame) = record c { pending_metrics = some frame }
push c other = record c { pending_other = c.pending_other ++ other ∷ [] }

abbrev pub metrics_last : Option MetricsFrame → List StreamPayload
metrics_last none = []
metrics_last (some frame) = StreamPayload.metrics frame ∷ []

-- The other payloads, the sessions in the order of the map, and the metrics.
unfoldable pub drain : StreamCoalescer → List StreamPayload × StreamCoalescer
drain c = (
  c.pending_other ++ (HashMap.values c.pending_session_upserts ++ metrics_last c.pending_metrics),
  new,
)

abbrev is_nil {ℓ} : {A : Type ℓ} → List A → Bool
is_nil [] = true
is_nil (x ∷ xs) = false

abbrev is_absent {ℓ} : {A : Type ℓ} → Option A → Bool
is_absent none = true
is_absent (some a) = false

unfoldable pub is_empty : StreamCoalescer → Bool
is_empty c =
    is_nil c.pending_other && (is_nil c.pending_session_upserts && is_absent c.pending_metrics)

-- `StreamReplayBuffer`, by its one field.
pub record StreamReplayBuffer : Type 0 where
  pub frames : List StreamFrame

abbrev pub new_buffer : StreamReplayBuffer
new_buffer = record { frames = [] }

unfoldable pub push_frame : StreamReplayBuffer → StreamFrame → StreamReplayBuffer
push_frame b frame =
    let all = b.frames ++ frame ∷ [] in
    record {
      frames =
          if ltb stream_replay_capacity (length all)
          then drop (length all - stream_replay_capacity) all
          else all;
    }

unfoldable pub since : StreamReplayBuffer → ℕ → List StreamFrame
since b sequence = retain (λ f. ltb sequence f.sequence) b.frames

unfoldable pub latest_sequence : StreamReplayBuffer → ℕ
latest_sequence b = elim (get_last? b.frames) [ none ↦ 0 | some f ↦ f.sequence ]
