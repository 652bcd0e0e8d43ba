-- ===== src/Core/Stream/Replay.antt =====
-- A renderer that asks for the frames since a sequence.
use mathlib.Core.List.{append-nil, append_assoc}
use llm_notch.Prelude.{
  drop-nil, drop-drop, subst, max, ℕ, zero, suc, ◌+◌, ◌-◌, ◌≡◌, refl, sym, ap, ◌∙◌, Bool, List, [],
  ◌∷◌, ◌++◌, arith, inl, inr, Bool-cases, ltb, length, drop, last_n, last_n-last_n-append, retain,
}
use llm_notch.Protocol.{StreamFrame, stream_replay_capacity}
use llm_notch.Core.Stream.{StreamReplayBuffer, new_buffer, push_frame, since}

-- The buffer after a run of frames.
pub push_all : StreamReplayBuffer → List StreamFrame → StreamReplayBuffer
unfolding push_frame
push_all b [] = b
push_all b (f ∷ fs) = push_all (push_frame b f) fs

-- The sequences count on from `n`.
abbrev pub CountsFrom : ℕ → List StreamFrame → Type 0
CountsFrom n [] = Unit
CountsFrom n (f ∷ fs) = (f.sequence ≡ n) × CountsFrom (suc n) fs

frames-push_frame :
    (b : StreamReplayBuffer) (f : StreamFrame)
    → (push_frame b f).frames ≡ last_n stream_replay_capacity (b.frames ++ f ∷ [])
unfolding push_frame last_n
frames-push_frame b f =
    elim (Bool-cases (ltb stream_replay_capacity (length (b.frames ++ f ∷ [])))) [
      | inl long ↦ rw long
      | inr short ↦
          let e : length (b.frames ++ f ∷ []) - stream_replay_capacity ≡ 0 = ground arith in
          rw short (sym (ap (λ n. drop n (b.frames ++ f ∷ [])) e))
    ]

-- The buffer is a window on all the frames that were ever pushed.
frames-push_all :
    (b : StreamReplayBuffer) (log fs : List StreamFrame)
    → b.frames ≡ last_n stream_replay_capacity log
    → (push_all b fs).frames ≡ last_n stream_replay_capacity (log ++ fs)
unfolding push_all
frames-push_all b log [] w = rw (append-nil log) w
frames-push_all b log (f ∷ fs) w =
    let moved : (push_frame b f).frames ≡ last_n stream_replay_capacity (log ++ f ∷ []) =
      frames-push_frame b f ∙ rw w (last_n-last_n-append stream_replay_capacity log f) in
    frames-push_all (push_frame b f) (log ++ f ∷ []) fs moved
    ∙ ap (last_n stream_replay_capacity) (append_assoc log (f ∷ []) fs)

CountsFrom-drop :
    (k n : ℕ) (fs : List StreamFrame) → CountsFrom n fs → CountsFrom (n + k) (drop k fs)
CountsFrom-drop zero n fs c = let e : n ≡ n + zero = omega arith in subst (λ m. CountsFrom m fs) e c
CountsFrom-drop (suc k) n [] c = tt
CountsFrom-drop (suc k) n (f ∷ fs) c =
    let e : suc n + k ≡ n + suc k = omega arith in
    subst (λ m. CountsFrom m (drop k fs)) e (CountsFrom-drop k (suc n) fs c.1)

newer : ℕ → StreamFrame → Bool
newer n f = ltb n f.sequence

retain-newer :
    (n k : ℕ) (fs : List StreamFrame)
    → CountsFrom (suc k) fs
    → retain (newer n) fs ≡ drop (n - k) fs
unfolding newer
retain-newer n k [] c = sym (drop-nil (n - k))
retain-newer n k (f ∷ fs) c = elim (Bool-cases (ltb n f.sequence)) [
  | inl new ↦
      let e : n - suc k ≡ 0 = ground (arith, c.0) in
      let e' : n - k ≡ 0 = ground (arith, c.0) in
      rw (new, retain)
        (ap (◌∷◌ f) (retain-newer n (suc k) fs c.1 ∙ ap (λ m. drop m fs) e)
          ∙ sym (ap (λ m. drop m (f ∷ fs)) e'))
  | inr old ↦
      let e : n - k ≡ suc (n - suc k) = ground (arith, c.0) in
      rw (old, retain) (retain-newer n (suc k) fs c.1 ∙ sym (ap (λ m. drop m (f ∷ fs)) e))
]

-- After any run of frames numbered from 1, a renderer that has seen the first `n` gets back, in
-- order, every frame after them that is among the latest 1024, and no other.
pub since-push_all :
    (fs : List StreamFrame) (n : ℕ)
    → CountsFrom 1 fs
    → since (push_all new_buffer fs) n ≡ drop (max n (length fs - stream_replay_capacity)) fs
unfolding since newer last_n
since-push_all fs n c =
    let k : ℕ = length fs - stream_replay_capacity in
    let window : (push_all new_buffer fs).frames ≡ drop k fs =
      frames-push_all new_buffer [] fs refl in
    let counts : CountsFrom (suc k) (drop k fs) =
      (let e : 1 + k ≡ suc k = omega arith in
        subst (λ m. CountsFrom m (drop k fs)) e (CountsFrom-drop k 1 fs c)) in
    let e : k + (n - k) ≡ max n k = omega arith in
    ap (retain (newer n)) window
    ∙ retain-newer n k (drop k fs) counts
    ∙ drop-drop (n - k) k fs
    ∙ ap (λ m. drop m fs) e
