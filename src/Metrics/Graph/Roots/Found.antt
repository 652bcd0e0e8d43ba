-- ===== src/Metrics/Graph/Roots/Found.antt =====
-- crates/notch-metrics/src/graph.rs: the search for the session whose root a process is.
use llm_notch.Prelude.{
  ℕ, zero, suc, ◌+◌, ◌<◌, ◌≡◌, refl, sym, ap, ◌∙◌, subst, List, [], ◌∷◌, Option, none, some, ◌↔◌,
  arith, inl, inr,
}
use llm_notch.BTreeMap.{BTreeMap}
use llm_notch.Metrics.Model.{ProcessNode, RegisteredSession}
use llm_notch.Metrics.Graph.{find_root, valid_roots}
use llm_notch.Metrics.Graph.Roots.{session_at, IsRoot, IsFree, IsFirstRoot, found_or_passed_over}

first_now :
    (processes : BTreeMap ProcessNode) (pid : ℕ) (s : RegisteredSession)
    (ss : List RegisteredSession)
    → IsRoot processes pid s
    → IsFirstRoot processes (s ∷ ss) pid 0
first_now processes pid s ss r = record {
  session = s;
  at = refl;
  is_root = r;
  first = λ i t lt e. absurd (omega arith);
}

passes :
    (processes : BTreeMap ProcessNode) (pid k : ℕ) (s : RegisteredSession)
    (ss : List RegisteredSession)
    → ¬ IsRoot processes pid s
    → ((i : ℕ) (t : RegisteredSession)
        → i < k
        → session_at ss i ≡ some t
        → ¬ IsRoot processes pid t)
    → (i : ℕ) (t : RegisteredSession) → i < suc k
    → session_at (s ∷ ss) i ≡ some t
    → ¬ IsRoot processes pid t
passes processes pid k s ss other h zero t lt e r =
    let q : s ≡ t = cc in other (subst (IsRoot processes pid) (sym q) r)
passes processes pid k s ss other h (suc i) t lt e r = h i t (omega arith) e r

first_later :
    (processes : BTreeMap ProcessNode) (pid k : ℕ) (s : RegisteredSession)
    (ss : List RegisteredSession)
    → ¬ IsRoot processes pid s
    → IsFirstRoot processes ss pid k
    → IsFirstRoot processes (s ∷ ss) pid (suc k)
first_later processes pid k s ss other f = record {
  session = f.session;
  at = f.at;
  is_root = f.is_root;
  first = passes processes pid k s ss other f.first;
}

IsFree-cons :
    (processes : BTreeMap ProcessNode) (pid : ℕ) (s : RegisteredSession)
    (ss : List RegisteredSession)
    → ¬ IsRoot processes pid s
    → IsFree processes ss pid
    → IsFree processes (s ∷ ss) pid
IsFree-cons processes pid s ss other f i t e r =
    passes processes pid i s ss other (λ j u lt at. f j u at) i t (omega arith) e r

-- What a search among the sessions from position `n` on comes to.
data Search (processes : BTreeMap ProcessNode) (pid n : ℕ) (ss : List RegisteredSession)
    (found : Option ℕ) : Type 0 where
  at_position :
      (k : ℕ)
      → found ≡ some (n + k)
      → IsFirstRoot processes ss pid k
      → Search processes pid n ss found
  nowhere : found ≡ none → IsFree processes ss pid → Search processes pid n ss found

Search-find_root :
    (processes : BTreeMap ProcessNode) (pid n : ℕ) (ss : List RegisteredSession)
    → Search processes pid n ss (find_root (valid_roots processes n ss) pid)
unfolding find_root valid_roots
Search-find_root processes pid n [] = nowhere refl (λ i t e r. absurd (ground (arith, e)))
Search-find_root processes pid n (s ∷ ss) = elim (found_or_passed_over processes pid n s ss) [
  | inl (r, e) ↦ at_position 0 (e ∙ ap some (omega arith)) (first_now processes pid s ss r)
  | inr (other, e) ↦ elim (Search-find_root processes pid (suc n) ss) [
    | at_position k q f ↦
        at_position (suc k) (e ∙ q ∙ ap some (omega arith))
          (first_later processes pid k s ss other f)
    | nowhere q f ↦ nowhere (e ∙ q) (IsFree-cons processes pid s ss other f)
  ]
]

one_first :
    (processes : BTreeMap ProcessNode) (ss : List RegisteredSession) (pid i j : ℕ)
    → IsFirstRoot processes ss pid i
    → IsFirstRoot processes ss pid j
    → ¬ (i < j)
one_first processes ss pid i j f g lt = g.first i f.session lt f.at f.is_root

pub find_root_iff :
    (processes : BTreeMap ProcessNode) (ss : List RegisteredSession) (pid i : ℕ)
    → (find_root (valid_roots processes 0 ss) pid ≡ some i) ↔ IsFirstRoot processes ss pid i
find_root_iff processes ss pid i = elim (Search-find_root processes pid 0 ss) [
  | at_position k q f ↦ (
    λ e.
        let same : k ≡ i = ground (arith, sym q ∙ e) in subst (IsFirstRoot processes ss pid) same f,
    λ g.
        q
        ∙ ap some
            (omega (arith, one_first processes ss pid i k g f, one_first processes ss pid k i f g)),
  )
  | nowhere q f ↦
      (λ e. absurd (ground (arith, sym q ∙ e)), λ g. absurd (f i g.session g.at g.is_root))
]

pub find_root-none_iff :
    (processes : BTreeMap ProcessNode) (ss : List RegisteredSession) (pid : ℕ)
    → (find_root (valid_roots processes 0 ss) pid ≡ none) ↔ IsFree processes ss pid
find_root-none_iff processes ss pid = elim (Search-find_root processes pid 0 ss) [
  | at_position k q f ↦
      (λ e. absurd (ground (arith, sym q ∙ e)), λ g. absurd (g k f.session f.at f.is_root))
  | nowhere q f ↦ (λ e. f, λ g. q)
]
