-- ===== src/Metrics/Graph/Descendants/Fuel.antt =====
-- crates/notch-metrics/src/graph.rs: the loop of `collect_descendants` ends within its fuel.
use llm_notch.Prelude.{
  ℕ, zero, suc, ◌+◌, ◌≤◌, ◌≡◌, refl, Bool, false, List, [], ◌∷◌, some, if◌then◌else◌, ◌==◌,
  number_key, nat_beq_iff, ◌&&◌, ◌||◌, length, any_of, arith, inl, inr, Bool-cases,
}
use llm_notch.HashMap
use llm_notch.BTreeMap
use llm_notch.BTreeMap.{BTreeMap, BTreeSet, contains_key-insert}
use llm_notch.Metrics.Model.{ProcessNode}
use llm_notch.Metrics.Graph.{push_known, kids_of, walk, edges}

abbrev pub has : ℕ → List ℕ → Bool
has k = any_of (λ x. x == k)

pub has-push_known :
    (processes : BTreeMap ProcessNode) (kids stack : List ℕ) (k : ℕ)
    → has k (push_known processes kids stack)
      ≡ (has k stack || (has k kids && HashMap.contains_key processes k))
unfolding push_known any_of
has-push_known processes [] stack k = ground arith
has-push_known processes (kid ∷ kids) stack k = ground (
  arith,
  has-push_known processes kids stack k,
  has-push_known processes kids (kid ∷ stack) k,
  nat_beq_iff kid k,
)

length-push_known :
    (processes : BTreeMap ProcessNode) (kids stack : List ℕ)
    → length (push_known processes kids stack) ≤ length kids + length stack
unfolding push_known
length-push_known processes [] stack = omega arith
length-push_known processes (kid ∷ kids) stack =
    ground (
      arith,
      length-push_known processes kids stack,
      length-push_known processes kids (kid ∷ stack),
    )

-- The children of the processes that are not seen yet.
weight : BTreeMap (List ℕ) → BTreeSet → ℕ
weight [] seen = 0
weight ((k, kids) ∷ rest) seen =
    if HashMap.contains_key seen k then weight rest seen else length kids + weight rest seen

weight-insert-le :
    (children : BTreeMap (List ℕ)) (seen : BTreeSet) (pid : ℕ)
    → weight children (BTreeMap.insert seen pid tt) ≤ weight children seen
unfolding weight
weight-insert-le [] seen pid = omega arith
weight-insert-le ((k, kids) ∷ rest) seen pid =
    ground (arith, weight-insert-le rest seen pid, contains_key-insert seen pid tt k)

weight-insert :
    (children : BTreeMap (List ℕ)) (seen : BTreeSet) (pid : ℕ)
    → HashMap.contains_key seen pid ≡ false
    → weight children (BTreeMap.insert seen pid tt) + length (kids_of children pid)
      ≤ weight children seen
unfolding weight kids_of HashMap.get
weight-insert [] seen pid new = omega arith
weight-insert ((k, kids) ∷ rest) seen pid new = ground (
  arith,
  weight-insert rest seen pid new,
  weight-insert-le rest seen pid,
  contains_key-insert seen pid tt k,
  nat_beq_iff pid k,
  nat_beq_iff k pid,
)

weight-nil : (children : BTreeMap (List ℕ)) → weight children [] ≡ edges children
unfolding weight edges HashMap.contains_key HashMap.get
weight-nil [] = refl
weight-nil ((k, kids) ∷ rest) = ground (arith, weight-nil rest)

walk_within :
    (processes : BTreeMap ProcessNode) (children : BTreeMap (List ℕ)) (fuel : ℕ) (stack : List ℕ)
    (seen : BTreeSet)
    → length stack + weight children seen ≤ fuel
    → (result : BTreeSet) × (walk processes children fuel stack seen ≡ some result)
unfolding walk
walk_within processes children fuel [] seen h = (seen, refl)
walk_within processes children zero (pid ∷ stack) seen h = absurd (omega arith)
walk_within processes children (suc fuel) (pid ∷ stack) seen h =
    elim (Bool-cases (HashMap.contains_key seen pid)) [
      | inl old ↦
          let r = walk_within processes children fuel stack seen (omega arith) in
          (r.0, rw (old) r.1)
      | inr new ↦
          let r =
            walk_within processes children fuel (push_known processes (kids_of children pid) stack)
              (BTreeMap.insert seen pid tt)
              (omega (
                arith,
                weight-insert children seen pid new,
                length-push_known processes (kids_of children pid) stack,
              )) in
          (r.0, rw (new) r.1)
    ]

pub walk_ends :
    (processes : BTreeMap ProcessNode) (children : BTreeMap (List ℕ)) (root : ℕ)
    → (result : BTreeSet) × (walk processes children (suc (edges children)) (root ∷ []) []
        ≡ some result)
walk_ends processes children root =
    walk_within processes children (suc (edges children)) (root ∷ []) []
      (omega (arith, weight-nil children))
