-- ===== src/Metrics/Graph/Roots.antt =====
-- crates/notch-metrics/src/graph.rs: the session whose root a process is.
pub mod Found
use llm_notch.Prelude.{
  ℕ, zero, suc, ◌+◌, ◌<◌, ◌≡◌, refl, sym, ap, ◌∙◌, subst, Bool, true, false, List, [], ◌∷◌, Option,
  none, some, ◌⊎◌, ◌↔◌, ◌==◌, number_key, nat_beq_iff, arith, inl, inr, Bool-cases, Option-cases,
}
use llm_notch.Prelude.Int.{ℤ, pos, ◌+ℤ◌, ◌-ℤ◌, ◌<ℤ◌}
use llm_notch.HashMap
use llm_notch.BTreeMap.{BTreeMap}
use llm_notch.Protocol.{ProcessIdentity}
use llm_notch.Metrics.Model.{ProcessNode, RegisteredSession, RootStatus, valid, missing, pid_reused}
use llm_notch.Metrics.Graph.{start_times_match, verify_root, find_root, valid_roots}

-- The session at a position of the list.
abbrev pub session_at : List RegisteredSession → ℕ → Option RegisteredSession
session_at [] i = none
session_at (s ∷ ss) zero = some s
session_at (s ∷ ss) (suc i) = session_at ss i

-- The process is the root of the session and is still the one that was registered: the snapshot
-- has it, and its start lies less than a second from the start that was registered.
pub record IsRoot (processes : BTreeMap ProcessNode) (pid : ℕ) (session : RegisteredSession)
    : Type 0 where
  pub root : session.root.pid ≡ pid
  pub node : ProcessNode
  pub there : HashMap.get processes pid ≡ some node
  pub not_earlier : session.root.started_at_ms <ℤ node.started_at_ms +ℤ pos 1000
  pub not_later : node.started_at_ms <ℤ session.root.started_at_ms +ℤ pos 1000

-- No session has the process as its root.
abbrev pub IsFree : BTreeMap ProcessNode → List RegisteredSession → ℕ → Type 0
IsFree processes sessions pid =
    (i : ℕ) (s : RegisteredSession) → session_at sessions i ≡ some s → ¬ IsRoot processes pid s

-- The first session of the list that has it as its root is at `index`.
pub record IsFirstRoot (processes : BTreeMap ProcessNode) (sessions : List RegisteredSession)
    (pid index : ℕ) : Type 0 where
  pub session : RegisteredSession
  pub at : session_at sessions index ≡ some session
  pub is_root : IsRoot processes pid session
  pub first :
      (i : ℕ) (s : RegisteredSession)
      → i < index
      → session_at sessions i ≡ some s
      → ¬ IsRoot processes pid s

start_times_match_sound :
    (a b : ℤ) → start_times_match a b ≡ true → (a <ℤ b +ℤ pos 1000) × (b <ℤ a +ℤ pos 1000)
unfolding start_times_match ◌-ℤ◌ ◌+ℤ◌
start_times_match_sound a b h = ground arith

start_times_match_complete :
    (a b : ℤ) → a <ℤ b +ℤ pos 1000 → b <ℤ a +ℤ pos 1000 → start_times_match a b ≡ true
unfolding start_times_match ◌-ℤ◌ ◌+ℤ◌
start_times_match_complete a b before after = ground arith

verify_root_sound :
    (processes : BTreeMap ProcessNode) (s : RegisteredSession)
    → verify_root s.root processes ≡ valid
    → IsRoot processes s.root.pid s
unfolding verify_root
verify_root_sound processes s h = elim (Option-cases (HashMap.get processes s.root.pid)) [
  | inl gone ↦ absurd (ground (arith, gone))
  | inr (node, there) ↦
      let same : start_times_match s.root.started_at_ms node.started_at_ms ≡ true =
        ground (arith, there) in
      let near = start_times_match_sound s.root.started_at_ms node.started_at_ms same in
      record { root = refl; node = node; there = there; not_earlier = near.0; not_later = near.1 }
]

verify_root_complete :
    (processes : BTreeMap ProcessNode) (s : RegisteredSession)
    → IsRoot processes s.root.pid s
    → verify_root s.root processes ≡ valid
unfolding verify_root
verify_root_complete processes s r =
    rw (r.there, verify_root)
      (rw
        (start_times_match_complete s.root.started_at_ms r.node.started_at_ms r.not_earlier
          r.not_later)
        refl)

status_cases : (s : RootStatus) → (s ≡ valid) ⊎ (¬ (s ≡ valid))
status_cases valid = inl refl
status_cases missing = inr (λ e. ground (arith, e))
status_cases pid_reused = inr (λ e. ground (arith, e))

-- The first session of a list is the root that is found, or it is passed over.
module _ (processes : BTreeMap ProcessNode) (pid n : ℕ) (s : RegisteredSession)
    (ss : List RegisteredSession) where
  abbrev Found : Type 0
  Found = IsRoot processes pid s × (find_root (valid_roots processes n (s ∷ ss)) pid ≡ some n)

  abbrev PassedOver : Type 0
  PassedOver =
      (¬ IsRoot processes pid s)
      × (find_root (valid_roots processes n (s ∷ ss)) pid
          ≡ find_root (valid_roots processes (suc n) ss) pid)

  not_verified :
      (status : RootStatus)
      → verify_root s.root processes ≡ status
      → ¬ (status ≡ valid)
      → PassedOver
  unfolding valid_roots
  not_verified valid e other = absurd (other refl)
  not_verified missing e other = (
    λ r. other (
        sym e
        ∙ verify_root_complete processes s (subst (λ p. IsRoot processes p s) (sym r.root) r)),
    rw (e, valid_roots) refl,
  )
  not_verified pid_reused e other = (
    λ r. other (
        sym e
        ∙ verify_root_complete processes s (subst (λ p. IsRoot processes p s) (sym r.root) r)),
    rw (e, valid_roots) refl,
  )

  verified : verify_root s.root processes ≡ valid → Found ⊎ PassedOver
  unfolding valid_roots find_root
  verified e = elim (Bool-cases (s.root.pid == pid)) [
    | inl same ↦
        let q : s.root.pid ≡ pid = ground (arith, nat_beq_iff s.root.pid pid, same) in
        inl (
          subst (λ p. IsRoot processes p s) q (verify_root_sound processes s e),
          rw (e, valid_roots) (rw (same, find_root) refl),
        )
    | inr other ↦ inr (
      λ r. ground (arith, nat_beq_iff s.root.pid pid, r.root, other),
      rw (e, valid_roots) (rw (other, find_root) refl),
    )
  ]

  pub found_or_passed_over : Found ⊎ PassedOver
  found_or_passed_over = elim (status_cases (verify_root s.root processes)) [
    | inl e ↦ verified e
    | inr other ↦ inr (not_verified (verify_root s.root processes) refl other)
  ]
