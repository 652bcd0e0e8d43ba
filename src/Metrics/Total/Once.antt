-- ===== src/Metrics/Total/Once.antt =====
-- crates/notch-metrics/src/aggregate.rs: the total of the processes.
use llm_notch.Prelude.{ℕ, ◌+◌, ◌≤◌, String, List, [], ◌∷◌, arith}
use llm_notch.Prelude.Int.{ℤ}
use llm_notch.HashMap
use llm_notch.Protocol.{IoQuality}
use llm_notch.Metrics.Model.{RegisteredSession}
use llm_notch.Metrics.Aggregate.{TreeMetrics, Refresh, compute_session_metrics}
use llm_notch.Metrics.Aggregate.Exclusive.{counted, compute_session_metrics-counted}
use llm_notch.Metrics.Total.{Totals, no_totals, add_tree, add_trees, compute_aggregate}

add_tree-count :
    (t : Totals) (tree : TreeMetrics)
    → (add_tree t tree).process_count ≤ t.process_count + tree.process_count
unfolding add_tree
add_tree-count t tree = ground arith

add_trees-count :
    (t : Totals) (trees : List (String × TreeMetrics))
    → (add_trees t trees).process_count ≤ t.process_count + counted trees
unfolding add_trees
add_trees-count t [] = omega arith
add_trees-count t ((k, tree) ∷ trees) =
    omega (arith, add_trees-count (add_tree t tree) trees, add_tree-count t tree)

-- However the roots of the sessions nest, the aggregate counts at most as many processes as the
-- snapshot has: one that lies in the trees of several sessions is counted once.
pub compute_aggregate-once :
    (sessions : List RegisteredSession) (w : Refresh) (at_ms : ℤ)
    (logical_cores active attention : ℕ) (io_quality : IoQuality)
    → (compute_aggregate
        (compute_session_metrics sessions w).0
        at_ms
        logical_cores
        active
        attention
        io_quality).process_count
      ≤ HashMap.size w.processes
unfolding compute_aggregate
compute_aggregate-once sessions w at_ms logical_cores active attention io_quality = omega (
  arith,
  add_trees-count (no_totals io_quality) (compute_session_metrics sessions w).0,
  compute_session_metrics-counted sessions w,
)
