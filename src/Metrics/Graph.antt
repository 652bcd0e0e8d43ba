-- ===== src/Metrics/Graph.antt =====
-- crates/notch-metrics/src/graph.rs: the process tree of a snapshot and the owners of its processes.
pub mod Descendants
pub mod Roots
pub mod WalkUp
pub mod Owners
use llm_notch.Prelude.{
  ℕ, zero, suc, ◌+◌, Bool, true, false, List, [], ◌∷◌, ◌++◌, Option, none, some, if◌then◌else◌, ltb,
  leb, ◌==◌, number_key, not, ◌&&◌, length, any_of, retain,
}
use llm_notch.Prelude.Int.{ℤ, ◌-ℤ◌, pos_part, neg_part}
use llm_notch.Prelude.Sorting.{sort_by}
use llm_notch.HashMap
use llm_notch.BTreeMap
use llm_notch.BTreeMap.{BTreeMap, BTreeSet}
use llm_notch.Protocol.{ProcessIdentity}
use llm_notch.Metrics.Model.{
  ProcessNode, RegisteredSession, RootStatus, valid, missing, pid_reused, max_parent_walk_depth,
}

-- A difference of less than a second, either way.
unfoldable pub start_times_match : ℤ → ℤ → Bool
start_times_match expected_ms observed_ms =
    let d = expected_ms -ℤ observed_ms in ltb (pos_part d + neg_part d) 1000

unfoldable pub verify_root : ProcessIdentity → BTreeMap ProcessNode → RootStatus
unfolding start_times_match HashMap.get
verify_root identity processes = elim (HashMap.get processes identity.pid) [
  | none ↦ missing
  | some node ↦
      if start_times_match identity.started_at_ms node.started_at_ms then valid else pid_reused
]

abbrev or_default : Option (List ℕ) → List ℕ
or_default none = []
or_default (some pids) = pids

abbrev add_child : BTreeMap (List ℕ) → Option ℕ → ℕ → BTreeMap (List ℕ)
unfolding BTreeMap.insert HashMap.get
add_child children none pid = children
add_child children (some parent) pid =
    BTreeMap.insert children parent (or_default (HashMap.get children parent) ++ pid ∷ [])

unfoldable pub add_children : BTreeMap (List ℕ) → List (ℕ × ProcessNode) → BTreeMap (List ℕ)
unfolding BTreeMap.insert HashMap.get
add_children children [] = children
add_children children ((k, node) ∷ rest) =
    add_children (add_child children node.parent_pid node.pid) rest

unfoldable pub children_index : BTreeMap ProcessNode → BTreeMap (List ℕ)
unfolding add_children sort_by HashMap.map_values
children_index processes = HashMap.map_values (sort_by leb) (add_children [] processes)

-- The children that the snapshot knows, pushed one after the other.
unfoldable pub push_known : BTreeMap ProcessNode → List ℕ → List ℕ → List ℕ
unfolding HashMap.contains_key
push_known processes [] stack = stack
push_known processes (kid ∷ kids) stack =
    push_known processes kids (if HashMap.contains_key processes kid then kid ∷ stack else stack)

unfoldable pub kids_of : BTreeMap (List ℕ) → ℕ → List ℕ
unfolding HashMap.get
kids_of children pid = or_default (HashMap.get children pid)

-- The loop over the stack, whose head is its top. `none`: out of fuel.
unfoldable pub walk :
    BTreeMap ProcessNode → BTreeMap (List ℕ) → ℕ → List ℕ → BTreeSet → Option BTreeSet
unfolding push_known kids_of HashMap.contains_key BTreeMap.insert
walk processes children fuel [] seen = some seen
walk processes children zero (pid ∷ stack) seen = none
walk processes children (suc fuel) (pid ∷ stack) seen =
    let again = walk processes children fuel stack seen in
    let onward =
      walk processes children fuel (push_known processes (kids_of children pid) stack)
        (BTreeMap.insert seen pid tt) in
    if HashMap.contains_key seen pid then again else onward

-- The entries of the index, counted.
unfoldable pub edges : BTreeMap (List ℕ) → ℕ
edges [] = 0
edges ((k, kids) ∷ rest) = length kids + edges rest

abbrev or_empty : Option BTreeSet → BTreeSet
or_empty none = []
or_empty (some s) = s

unfoldable pub collect_descendants : ℕ → BTreeMap ProcessNode → BTreeMap (List ℕ) → BTreeSet
unfolding walk edges
collect_descendants root_pid processes children =
    or_empty (walk processes children (suc (edges children)) (root_pid ∷ []) [])

unfoldable pub valid_roots : BTreeMap ProcessNode → ℕ → List RegisteredSession → List (ℕ × ℕ)
unfolding verify_root
valid_roots processes index [] = []
valid_roots processes index (session ∷ sessions) =
    let rest = valid_roots processes (suc index) sessions in
    elim (verify_root session.root processes) [
      | valid ↦ (index, session.root.pid) ∷ rest
      | _ ↦ rest
    ]

unfoldable pub find_root : List (ℕ × ℕ) → ℕ → Option ℕ
find_root [] pid = none
find_root ((index, root_pid) ∷ roots) pid =
    let later = find_root roots pid in if root_pid == pid then some index else later

abbrev parent_of : Option ProcessNode → Option ℕ
parent_of none = none
parent_of (some node) = node.parent_pid

-- `processes.get(&current)?.parent_pid?`
unfoldable pub parent : BTreeMap ProcessNode → ℕ → Option ℕ
unfolding HashMap.get
parent processes pid = parent_of (HashMap.get processes pid)

-- `hops` of the loop are left.
unfoldable pub walk_up : List (ℕ × ℕ) → BTreeMap ProcessNode → ℕ → ℕ → Option ℕ
unfolding find_root parent
walk_up roots processes zero current = none
walk_up roots processes (suc hops) current = elim (find_root roots current) [
  | some index ↦ some index
  | none ↦ elim (parent processes current) [
    | none ↦ none
    | some next ↦ walk_up roots processes hops next
  ]
]

unfoldable pub nearest_registered_owner : ℕ → List (ℕ × ℕ) → BTreeMap ProcessNode → Option ℕ
unfolding walk_up
nearest_registered_owner pid roots processes = walk_up roots processes max_parent_walk_depth pid

unfoldable pub own_each :
    List (ℕ × ℕ) → BTreeMap ProcessNode → List (ℕ × ProcessNode) → BTreeMap ℕ → BTreeMap ℕ
unfolding nearest_registered_owner BTreeMap.insert
own_each roots processes [] owners = owners
own_each roots processes ((pid, node) ∷ rest) owners =
    elim (nearest_registered_owner pid roots processes) [
      | none ↦ own_each roots processes rest owners
      | some index ↦ own_each roots processes rest (BTreeMap.insert owners pid index)
    ]

unfoldable pub assign_process_owners : List RegisteredSession → BTreeMap ProcessNode → BTreeMap ℕ
unfolding own_each valid_roots
assign_process_owners sessions processes =
    own_each (valid_roots processes 0 sessions) processes processes []

abbrev owned_by_other : ℕ → Option ℕ → Bool
owned_by_other session_idx none = false
owned_by_other session_idx (some owner) = not (owner == session_idx)

unfoldable pub tree_has_overlap :
    ℕ → ℕ → BTreeMap ℕ → BTreeMap ProcessNode → BTreeMap (List ℕ) → Bool
unfolding any_of collect_descendants HashMap.get
tree_has_overlap session_idx root_pid owners processes children =
    any_of (λ e. not (e.0 == root_pid) && owned_by_other session_idx (HashMap.get owners e.0))
      (collect_descendants root_pid processes children)

-- The inner loop: a hop that is missing is a gap. Where the root is met or the hops end there is none.
unfoldable pub chain_has_gap : ℕ → BTreeMap ProcessNode → ℕ → ℕ → Bool
unfolding parent
chain_has_gap root_pid processes zero current = false
chain_has_gap root_pid processes (suc hops) current = elim (parent processes current) [
  | none ↦ true
  | some next ↦
      let rest = chain_has_gap root_pid processes hops next in
      if next == root_pid then false else rest
]

unfoldable pub tree_has_parent_gaps : ℕ → BTreeSet → BTreeMap ProcessNode → Bool
unfolding any_of chain_has_gap
tree_has_parent_gaps root_pid owned_pids processes =
    any_of
      (λ e. not (e.0 == root_pid) && chain_has_gap root_pid processes max_parent_walk_depth e.0)
      owned_pids
