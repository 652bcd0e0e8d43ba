-- ===== src/Metrics/Graph/WalkUp.antt =====
-- crates/notch-metrics/src/graph.rs: the walk from a process to its parents.
use llm_notch.Prelude.{
  ℕ, zero, suc, ◌<◌, ◌≡◌, refl, subst, List, Option, none, some, number_key, arith, inl, inr,
  Option-cases,
}
use llm_notch.BTreeMap.{BTreeMap}
use llm_notch.Metrics.Model.{ProcessNode}
use llm_notch.Metrics.Graph.{find_root, parent, walk_up}

-- The process that is `n` parents up.
abbrev pub ancestor : BTreeMap ProcessNode → ℕ → ℕ → Option ℕ
ancestor processes zero pid = some pid
ancestor processes (suc n) pid = elim (parent processes pid) [
  | none ↦ none
  | some up ↦ ancestor processes n up
]

-- The first root met on the way up is the ancestor `n` parents up, and it belongs to the session.
pub record IsMet (roots : List (ℕ × ℕ)) (processes : BTreeMap ProcessNode) (hops pid index : ℕ)
    : Type 0 where
  pub up : ℕ
  pub within : up < hops
  pub root : ℕ
  pub reached : ancestor processes up pid ≡ some root
  pub registered : find_root roots root ≡ some index
  pub nearest :
      (m other : ℕ) → m < up → ancestor processes m pid ≡ some other → find_root roots other ≡ none

nearer :
    (roots : List (ℕ × ℕ)) (processes : BTreeMap ProcessNode) (pid next up : ℕ)
    → parent processes pid ≡ some next
    → find_root roots pid ≡ none
    → ((m other : ℕ)
        → m < up
        → ancestor processes m next ≡ some other
        → find_root roots other ≡ none)
    → (m other : ℕ) → m < suc up
    → ancestor processes m pid ≡ some other
    → find_root roots other ≡ none
nearer roots processes pid next up step free h zero other lt e =
    let q : pid ≡ other = cc in subst (λ x. find_root roots x ≡ none) q free
nearer roots processes pid next up step free h (suc m) other lt e =
    h m other (omega arith) (ground (arith, step, e))

pub walk_up_sound :
    (roots : List (ℕ × ℕ)) (processes : BTreeMap ProcessNode) (hops pid index : ℕ)
    → walk_up roots processes hops pid ≡ some index
    → IsMet roots processes hops pid index
unfolding walk_up
walk_up_sound roots processes zero pid index h = absurd (ground arith)
walk_up_sound roots processes (suc hops) pid index h = elim (Option-cases (find_root roots pid)) [
  | inr (i, found) ↦ record {
    up = 0;
    within = omega arith;
    root = pid;
    reached = refl;
    registered = ground (arith, found);
    nearest = λ m other lt e. absurd (omega arith);
  }
  | inl free ↦ elim (Option-cases (parent processes pid)) [
    | inl top ↦ absurd (ground (arith, free, top))
    | inr (next, step) ↦
        let r = walk_up_sound roots processes hops next index (ground (arith, free, step)) in
        record {
          up = suc r.up;
          within = omega (arith, r.within);
          root = r.root;
          reached = rw (step, ancestor) r.reached;
          registered = r.registered;
          nearest =
              λ m other lt e. nearer roots processes pid next r.up step free r.nearest m other lt e;
        }
  ]
]

pub walk_up_complete :
    (roots : List (ℕ × ℕ)) (processes : BTreeMap ProcessNode) (hops pid index up root : ℕ)
    → up < hops
    → ancestor processes up pid ≡ some root
    → find_root roots root ≡ some index
    → ((m other : ℕ)
        → m < up
        → ancestor processes m pid ≡ some other
        → find_root roots other ≡ none)
    → walk_up roots processes hops pid ≡ some index
unfolding walk_up
walk_up_complete roots processes zero pid index up root lt e found h = absurd (omega arith)
walk_up_complete roots processes (suc hops) pid index zero root lt e found h =
    ground (arith, found, e)
walk_up_complete roots processes (suc hops) pid index (suc up) root lt e found h =
    let free : find_root roots pid ≡ none = h 0 pid (omega arith) refl in
    elim (Option-cases (parent processes pid)) [
      | inl top ↦ absurd (ground (arith, top, e))
      | inr (next, step) ↦
          let rest : walk_up roots processes hops next ≡ some index =
            walk_up_complete roots processes hops next index up root (omega arith)
              (ground (arith, step, e)) found
              (λ m other less q. h (suc m) other (omega arith) (rw (step, ancestor) q)) in
          ground (arith, free, step, rest)
    ]
