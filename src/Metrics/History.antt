-- ===== src/Metrics/History.antt =====
-- crates/notch-metrics/src/history.rs: `SessionHistory`, by its one field.
use mathlib.Core.List.{append-nil, append_assoc}
use llm_notch.Prelude.{
  ℕ, ◌≤◌, ◌≡◌, sym, ap, ◌∙◌, List, [], ◌∷◌, ◌++◌, Option, if◌then◌else◌, leb, length, drop,
  get_last?, arith, last_n, last_n-last_n-append, length-append, inl, inr, Bool-cases,
  length-last_n-le, ◌-◌, drop-append,
}
use llm_notch.Protocol.{MetricSample}
use llm_notch.Metrics.Model.{max_history_samples_per_session}

pub record SessionHistory : Type 0 where
  pub samples : List MetricSample

abbrev pub empty_history : SessionHistory
empty_history = record { samples = [] }

unfoldable pub push_sample : SessionHistory → MetricSample → SessionHistory
push_sample h sample = record {
  samples =
      (if leb max_history_samples_per_session (length h.samples)
        then drop 1 h.samples
        else h.samples)
      ++ sample ∷ [];
}

unfoldable pub latest : SessionHistory → Option MetricSample
latest h = get_last? h.samples

-- Samples pushed one after the other.
abbrev pub push_each : SessionHistory → List MetricSample → SessionHistory
unfolding push_sample
push_each h [] = h
push_each h (s ∷ rest) = push_each (push_sample h s) rest

module _ (n : ℕ) where
  window_last :
      (xs : List MetricSample) (x : MetricSample)
      → 1 ≤ n
      → length xs ≤ n
      → (if leb n (length xs) then drop 1 xs else xs) ++ x ∷ [] ≡ last_n n (xs ++ x ∷ [])
  unfolding last_n
  window_last xs x positive bound = elim (Bool-cases (leb n (length xs))) [
    | inl full ↦
        let e : length (xs ++ x ∷ []) - n ≡ 1 = ground (arith, length-append xs (x ∷ [])) in
        rw full (sym (ap (λ k. drop k (xs ++ x ∷ [])) e ∙ drop-append 1 xs (x ∷ []) (ground arith)))
    | inr room ↦
        let e : length (xs ++ x ∷ []) - n ≡ 0 = ground (arith, length-append xs (x ∷ [])) in
        rw room (sym (ap (λ k. drop k (xs ++ x ∷ [])) e))
  ]

push_each_from :
    (all samples : List MetricSample)
    → push_each (record { samples = last_n max_history_samples_per_session all }) samples
      ≡ record { samples = last_n max_history_samples_per_session (all ++ samples) }
unfolding push_sample
push_each_from all [] =
    ap (λ xs. record { samples = last_n max_history_samples_per_session xs }) (sym (append-nil all))
push_each_from all (s ∷ rest) =
    let step =
      window_last max_history_samples_per_session (last_n max_history_samples_per_session all) s
        (omega arith) (length-last_n-le max_history_samples_per_session all)
      ∙ last_n-last_n-append max_history_samples_per_session all s in
    ap (λ xs. push_each (record { samples = xs }) rest) step
    ∙ push_each_from (all ++ s ∷ []) rest
    ∙ ap (λ xs. record { samples = last_n max_history_samples_per_session xs })
        (append_assoc all (s ∷ []) rest)

-- After any pushes to a new history, it holds the last 900 samples in their order.
pub push_each_last :
    (samples : List MetricSample)
    → (push_each empty_history samples).samples ≡ last_n max_history_samples_per_session samples
unfolding last_n
push_each_last samples = ap (λ h. h.samples) (push_each_from [] samples)
