-- ===== src/Metrics/Graph/Descendants.antt =====
-- crates/notch-metrics/src/graph.rs: `collect_descendants` against reachability.
pub mod Fuel
use llm_notch.Prelude.{
  ℕ, zero, suc, ◌+◌, ◌≤◌, ◌≡◌, refl, sym, ap, ◌∙◌, subst, Bool, true, false, List, [], ◌∷◌, ◌++◌,
  Option, none, some, if◌then◌else◌, ◌==◌, number_key, nat_beq_iff, ◌&&◌, ◌||◌, ◌↔◌, ◌⊎◌, length,
  any_of, arith, inl, inr, Bool-cases, Option-cases,
}
use llm_notch.HashMap
use llm_notch.BTreeMap
use llm_notch.BTreeMap.{BTreeMap, BTreeSet, contains_key-insert}
use llm_notch.Metrics.Model.{ProcessNode}
use llm_notch.Metrics.Graph.{push_known, kids_of, walk, edges, collect_descendants}
use llm_notch.Metrics.Graph.Descendants.Fuel.{has, has-push_known, walk_ends}

module _ (processes : BTreeMap ProcessNode) (children : BTreeMap (List ℕ)) where
  -- Below the root by any number of steps to a child that the snapshot knows.
  pub data Descends (root : ℕ) : ℕ → Type 0 where
    itself : Descends root root
    below :
        {pid kid : ℕ}
        → Descends root pid
        → has kid (kids_of children pid) ≡ true
        → HashMap.contains_key processes kid ≡ true
        → Descends root kid

  abbrev AllDescend : ℕ → (ℕ → Bool) → Type 0
  AllDescend root test = (pid : ℕ) → test pid ≡ true → Descends root pid

  walk_sound :
      (root fuel : ℕ) (stack : List ℕ) (seen result : BTreeSet)
      → walk processes children fuel stack seen ≡ some result
      → AllDescend root (λ p. has p stack)
      → AllDescend root (HashMap.contains_key seen)
      → AllDescend root (HashMap.contains_key result)
  unfolding walk any_of
  walk_sound root fuel [] seen result e hs h =
      let q : seen ≡ result = cc in subst (λ s. AllDescend root (HashMap.contains_key s)) q h
  walk_sound root zero (pid ∷ stack) seen result e hs h = absurd (ground arith)
  walk_sound root (suc fuel) (pid ∷ stack) seen result e hs h =
      elim (Bool-cases (HashMap.contains_key seen pid)) [
        | inl old ↦
            walk_sound root fuel stack seen result (ground arith) (λ p m. hs p (ground arith)) h
        | inr new ↦
            walk_sound root fuel (push_known processes (kids_of children pid) stack)
              (BTreeMap.insert seen pid tt) result (ground arith)
              (λ p m. elim (Bool-cases (has p stack)) [
                | inl there ↦ hs p (ground arith)
                | inr pushed ↦
                    below (hs pid (ground (arith, nat_beq_iff pid pid)))
                      (ground (arith, has-push_known processes (kids_of children pid) stack p))
                      (ground (arith, has-push_known processes (kids_of children pid) stack p))
              ])
              (λ p m. elim (Bool-cases (pid == p)) [
                | inl same ↦
                    let q : pid ≡ p = ground (arith, nat_beq_iff pid p) in
                    subst (Descends root) q (hs pid (ground (arith, nat_beq_iff pid pid)))
                | inr other ↦ h p (ground (arith, contains_key-insert seen pid tt p))
              ])
      ]

  -- What is seen has its known children seen or on the stack.
  abbrev IsClosed : List ℕ → BTreeSet → Type 0
  IsClosed stack seen =
      (pid kid : ℕ)
      → HashMap.contains_key seen pid ≡ true
      → has kid (kids_of children pid) ≡ true
      → HashMap.contains_key processes kid ≡ true
      → (HashMap.contains_key seen kid || has kid stack) ≡ true

  walk-IsClosed :
      (fuel : ℕ) (stack : List ℕ) (seen result : BTreeSet)
      → walk processes children fuel stack seen ≡ some result
      → IsClosed stack seen
      → IsClosed [] result
        × ((p : ℕ)
            → (HashMap.contains_key seen p || has p stack) ≡ true
            → HashMap.contains_key result p ≡ true)
  unfolding walk any_of
  walk-IsClosed fuel [] seen result e h =
      let q : seen ≡ result = cc in
      (
        subst (IsClosed []) q h,
        λ p m. subst (λ s. HashMap.contains_key s p ≡ true) q (ground arith),
      )
  walk-IsClosed zero (pid ∷ stack) seen result e h = absurd (ground arith)
  walk-IsClosed (suc fuel) (pid ∷ stack) seen result e h =
      elim (Bool-cases (HashMap.contains_key seen pid)) [
        | inl old ↦
            let r =
              walk-IsClosed fuel stack seen result (ground arith)
                (λ p k m hk known. ground (arith, h p k, nat_beq_iff pid k)) in
            (r.0, λ p m. r.1 p (ground (arith, nat_beq_iff pid p)))
        | inr new ↦
            let r =
              walk-IsClosed fuel (push_known processes (kids_of children pid) stack)
                (BTreeMap.insert seen pid tt) result (ground arith)
                (λ p k m hk known. ground (
                  arith,
                  h p k,
                  nat_beq_iff pid k,
                  nat_beq_iff pid p,
                  contains_key-insert seen pid tt p,
                  contains_key-insert seen pid tt k,
                  has-push_known processes (kids_of children pid) stack k,
                )) in
            (
              r.0,
              λ p m. r.1 p (
                  ground (
                    arith,
                    nat_beq_iff pid p,
                    contains_key-insert seen pid tt p,
                    has-push_known processes (kids_of children pid) stack p,
                  )),
            )
      ]

  complete :
      (root : ℕ) (result : BTreeSet)
      → IsClosed [] result
      → HashMap.contains_key result root ≡ true
      → (pid : ℕ) → Descends root pid
      → HashMap.contains_key result pid ≡ true
  unfolding any_of
  complete root result closed top pid itself = top
  complete root result closed top pid (below {pid = p} d hk known) =
      ground (arith, closed p pid (complete root result closed top p d) hk known)

  -- The walk below a root always ends, and finds exactly the processes that are reached from the
  -- root by steps to a child in the index that the snapshot knows, whatever cycles the index has.
  pub collect_descendants_iff :
      (root pid : ℕ)
      → (HashMap.contains_key (collect_descendants root processes children) pid ≡ true)
        ↔ Descends root pid
  unfolding collect_descendants any_of HashMap.contains_key HashMap.get
  collect_descendants_iff root pid =
      let (result, ends) = walk_ends processes children root in
      let same : collect_descendants root processes children ≡ result =
        rw (ends, collect_descendants) refl in
      let sound =
        walk_sound root (suc (edges children)) (root ∷ []) [] result ends
          (λ p m.
            let q : root ≡ p = ground (arith, nat_beq_iff root p) in subst (Descends root) q itself)
          (λ p m. absurd (ground arith)) in
      let (closed, kept) =
        walk-IsClosed (suc (edges children)) (root ∷ []) [] result ends
          (λ p k m hk known. absurd (ground arith)) in
      (
        λ m. sound pid (subst (λ s. HashMap.contains_key s pid ≡ true) same m),
        λ d.
            subst (λ s. HashMap.contains_key s pid ≡ true) (sym same)
              (complete root result closed (kept root (ground (arith, nat_beq_iff root root))) pid
                d),
      )
