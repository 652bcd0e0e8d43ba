-- ===== src/Metrics/Graph/Owners.antt =====
-- crates/notch-metrics/src/graph.rs: whom a process belongs to.
use llm_notch.Prelude.{
  ℕ, ◌<◌, ◌≡◌, refl, sym, ap, ◌∙◌, subst, true, List, [], ◌∷◌, Option, none, some, if◌then◌else◌,
  number_key, nat_beq_iff, ◌↔◌, arith, inl, inr, Bool-cases, Option-cases,
}
use llm_notch.HashMap
use llm_notch.BTreeMap
use llm_notch.BTreeMap.{BTreeMap, get-insert}
use llm_notch.Metrics.Model.{ProcessNode, RegisteredSession, max_parent_walk_depth}
use llm_notch.Metrics.Graph.{
  walk_up, nearest_registered_owner, own_each, valid_roots, assign_process_owners,
}
use llm_notch.Metrics.Graph.Roots.{IsFirstRoot, IsFree}
use llm_notch.Metrics.Graph.Roots.Found.{find_root_iff, find_root-none_iff}
use llm_notch.Metrics.Graph.WalkUp.{ancestor, walk_up_sound, walk_up_complete}

abbrev or_else : Option ℕ → Option ℕ → Option ℕ
or_else none other = other
or_else (some i) other = some i

get-own_each :
    (roots : List (ℕ × ℕ)) (processes entries : BTreeMap ProcessNode) (owners : BTreeMap ℕ)
    (pid : ℕ)
    → HashMap.get (own_each roots processes entries owners) pid ≡ (
        if HashMap.contains_key entries pid
        then or_else (nearest_registered_owner pid roots processes) (HashMap.get owners pid)
        else HashMap.get owners pid)
unfolding own_each HashMap.contains_key HashMap.get
get-own_each roots processes [] owners pid = refl
get-own_each roots processes ((k, node) ∷ rest) owners pid =
    elim (Option-cases (nearest_registered_owner k roots processes)) [
      | inl e ↦ ground (arith, e, nat_beq_iff k pid, get-own_each roots processes rest owners pid)
      | inr (i, e) ↦ ground (
        arith,
        e,
        nat_beq_iff k pid,
        get-own_each roots processes rest (BTreeMap.insert owners k i) pid,
        get-insert owners k i pid,
      )
    ]

or_else-none : (o : Option ℕ) → or_else o none ≡ o
or_else-none none = refl
or_else-none (some i) = refl

get-assign_process_owners :
    (sessions : List RegisteredSession) (processes : BTreeMap ProcessNode) (pid : ℕ)
    → HashMap.get (assign_process_owners sessions processes) pid ≡ (
        if HashMap.contains_key processes pid
        then nearest_registered_owner pid (valid_roots processes 0 sessions) processes
        else none)
unfolding assign_process_owners HashMap.get
get-assign_process_owners sessions processes pid =
    let roots = valid_roots processes 0 sessions in
    get-own_each roots processes processes [] pid
    ∙ ap (λ o. if HashMap.contains_key processes pid then o else none)
        (or_else-none (nearest_registered_owner pid roots processes))

-- `up` parents up, fewer than `hops`, is a process that is the root of the session at `index`, the
-- first such session of the list, and no process below it is the root of any session.
pub record IsNearest (sessions : List RegisteredSession) (processes : BTreeMap ProcessNode)
    (hops pid index : ℕ) : Type 0 where
  pub up : ℕ
  pub within : up < hops
  pub root : ℕ
  pub reached : ancestor processes up pid ≡ some root
  pub registered : IsFirstRoot processes sessions root index
  pub nearest :
      (m other : ℕ)
      → m < up
      → ancestor processes m pid ≡ some other
      → IsFree processes sessions other

walk_up_iff :
    (sessions : List RegisteredSession) (processes : BTreeMap ProcessNode) (hops pid index : ℕ)
    → (walk_up (valid_roots processes 0 sessions) processes hops pid ≡ some index)
      ↔ IsNearest sessions processes hops pid index
walk_up_iff sessions processes hops pid index =
    let roots = valid_roots processes 0 sessions in
    (
      λ h.
          let met = walk_up_sound roots processes hops pid index h in
          record {
            up = met.up;
            within = met.within;
            root = met.root;
            reached = met.reached;
            registered = (find_root_iff processes sessions met.root index).0 met.registered;
            nearest = λ m other lt e.
                (find_root-none_iff processes sessions other).0 (met.nearest m other lt e);
          },
      λ r.
          walk_up_complete roots processes hops pid index r.up r.root r.within r.reached
            ((find_root_iff processes sessions r.root index).1 r.registered)
            (λ m other lt e.
              (find_root-none_iff processes sessions other).1 (r.nearest m other lt e)),
    )

-- A process of the snapshot belongs to a session exactly when, at most 255 parents up from it, the
-- first process met that is the root of any session is a root of that session, the first in the list
-- where several share it. It is a root only while the snapshot has it with a start less than a second
-- from the one that was registered. Nothing else has an owner.
pub assign_process_owners_iff :
    (sessions : List RegisteredSession) (processes : BTreeMap ProcessNode) (pid index : ℕ)
    → (HashMap.get (assign_process_owners sessions processes) pid ≡ some index) ↔ (
        (HashMap.contains_key processes pid ≡ true)
        × IsNearest sessions processes max_parent_walk_depth pid index)
unfolding nearest_registered_owner
assign_process_owners_iff sessions processes pid index =
    let e = get-assign_process_owners sessions processes pid in
    let near = walk_up_iff sessions processes max_parent_walk_depth pid index in
    let owner = nearest_registered_owner pid (valid_roots processes 0 sessions) processes in
    (
      λ h. elim (Bool-cases (HashMap.contains_key processes pid)) [
        | inl known ↦ (
          known,
          near.0 (subst (λ t. (if t then owner else none) ≡ some index) known (sym e ∙ h)),
        )
        | inr unknown ↦
            let gone : none ≡ some index =
              subst (λ t. (if t then owner else none) ≡ some index) unknown (sym e ∙ h) in
            absurd (cc)
      ],
      λ (known, r). e ∙ rw known (near.1 r),
    )
