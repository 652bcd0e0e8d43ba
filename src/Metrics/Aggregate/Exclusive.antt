-- ===== src/Metrics/Aggregate/Exclusive.antt =====
-- crates/notch-metrics/src/aggregate.rs: no process is counted for two sessions.
use llm_notch.Prelude.{
  ℕ, zero, suc, ◌+◌, ◌≤◌, ◌≡◌, String, List, [], ◌∷◌, if◌then◌else◌, ltb, leb, number_key, ◌&&◌,
  length, arith, inl, inr, Option-cases,
}
use llm_notch.HashMap
use llm_notch.BTreeMap
use llm_notch.BTreeMap.{BTreeMap}
use llm_notch.Metrics.Model.{ProcessNode, RegisteredSession}
use llm_notch.Metrics.Graph.{own_each, nearest_registered_owner, assign_process_owners, valid_roots}
use llm_notch.Metrics.Aggregate.{
  TreeMetrics, Refresh, owned_by, session_metrics, insert_text, metrics_from,
  compute_session_metrics,
}

-- The processes counted in a map of figures.
abbrev pub counted : List (String × TreeMetrics) → ℕ
counted [] = 0
counted ((k, tree) ∷ metrics) = tree.process_count + counted metrics

size-insert-le :
    (m : BTreeMap ℕ) (k i : ℕ) → HashMap.size (BTreeMap.insert m k i) ≤ suc (HashMap.size m)
unfolding BTreeMap.insert
size-insert-le [] k i = omega arith
size-insert-le ((j, w) ∷ m) k i = ground (arith, size-insert-le m k i)

size-own_each :
    (roots : List (ℕ × ℕ)) (processes entries : BTreeMap ProcessNode) (owners : BTreeMap ℕ)
    → HashMap.size (own_each roots processes entries owners)
      ≤ HashMap.size entries + HashMap.size owners
unfolding own_each
size-own_each roots processes [] owners = omega arith
size-own_each roots processes ((pid, node) ∷ rest) owners =
    elim (Option-cases (nearest_registered_owner pid roots processes)) [
      | inl e ↦ ground (arith, e, size-own_each roots processes rest owners)
      | inr (i, e) ↦ ground (
        arith,
        e,
        size-own_each roots processes rest (BTreeMap.insert owners pid i),
        size-insert-le owners pid i,
      )
    ]

-- What the owners from `from` on own, for `n` of them.
owned_total : BTreeMap ℕ → ℕ → ℕ → ℕ
owned_total owners from zero = 0
owned_total owners from (suc n) = length (owned_by owners from) + owned_total owners (suc from) n

owned_total-cons :
    (pid owner : ℕ) (owners : BTreeMap ℕ) (from n : ℕ)
    → owned_total ((pid, owner) ∷ owners) from n
      ≡ (if leb from owner && ltb owner (from + n) then 1 else 0) + owned_total owners from n
unfolding owned_total owned_by
owned_total-cons pid owner owners from zero = ground arith
owned_total-cons pid owner owners from (suc n) =
    ground (arith, owned_total-cons pid owner owners (suc from) n)

owned_total-le :
    (owners : BTreeMap ℕ) (from n : ℕ) → owned_total owners from n ≤ HashMap.size owners
unfolding owned_total owned_by
owned_total-le [] from zero = omega arith
owned_total-le [] from (suc n) = omega (arith, owned_total-le [] (suc from) n)
owned_total-le ((pid, owner) ∷ owners) from n =
    ground (arith, owned_total-cons pid owner owners from n, owned_total-le owners from n)

counted-insert_text :
    (m : List (String × TreeMetrics)) (k : String) (tree : TreeMetrics)
    → counted (insert_text m k tree) ≤ counted m + tree.process_count
unfolding insert_text
counted-insert_text [] k tree = omega arith
counted-insert_text ((j, w) ∷ m) k tree = ground (arith, counted-insert_text m k tree)

process_count-le :
    (w : Refresh) (owners : BTreeMap ℕ) (i : ℕ) (session : RegisteredSession)
    → (session_metrics w owners i session).process_count ≤ length (owned_by owners i)
unfolding session_metrics
process_count-le w owners i session = omega arith

counted-metrics_from :
    (w : Refresh) (owners : BTreeMap ℕ) (i : ℕ) (sessions : List RegisteredSession)
    (m : List (String × TreeMetrics))
    → counted (metrics_from w owners i sessions m)
      ≤ counted m + owned_total owners i (length sessions)
unfolding metrics_from owned_total
counted-metrics_from w owners i [] m = omega arith
counted-metrics_from w owners i (s ∷ sessions) m = omega (
  arith,
  counted-metrics_from w owners (suc i) sessions
      (insert_text m s.session_id (session_metrics w owners i s)),
  counted-insert_text m s.session_id (session_metrics w owners i s),
  process_count-le w owners i s,
)

-- However the roots of the sessions nest, their process counts together are at most the number of
-- processes in the snapshot: a process that several trees contain is counted once.
pub compute_session_metrics-counted :
    (sessions : List RegisteredSession) (w : Refresh)
    → counted (compute_session_metrics sessions w).0 ≤ HashMap.size w.processes
unfolding compute_session_metrics assign_process_owners
compute_session_metrics-counted sessions w =
    let owners = assign_process_owners sessions w.processes in
    omega (
      arith,
      counted-metrics_from w owners 0 sessions [],
      owned_total-le owners 0 (length sessions),
      size-own_each (valid_roots w.processes 0 sessions) w.processes w.processes [],
    )
