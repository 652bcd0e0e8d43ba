-- ===== src/Decision/Answers/Pending.antt =====
-- crates/notch-decision/src/broker.rs: `list_pending`.
use llm_notch.Prelude.{
  String, ◌≡◌, refl, sym, ◌∙◌, subst, Bool, true, false, List, [], ◌∷◌, ◌++◌, ◌==◌, text_key, arith,
  inl, inr, Bool-cases, any_of, any_of-append, All,
}
use llm_notch.Prelude.Int.{ℤ, leb_ℤ}
use llm_notch.Prelude.Sorting.{sort_by, IsSorted, IsSorted-sort_by, any_of-sort_by}
use llm_notch.HashMap
use llm_notch.HashMap.{HashMap, HashSet}
use llm_notch.HashMap.Laws.{contains_key-insert, beq_refl}
use llm_notch.Protocol.{DecisionRequest}
use llm_notch.Decision.Types.{ActiveDecision, ok}
use llm_notch.Decision.Store.{list_pending_requests, created_before}
use llm_notch.Decision.Broker.{DecisionBroker}
use llm_notch.Decision.Answers.{is_pending, add_active, set_of, list_pending}

abbrev pub has_id : String → List DecisionRequest → Bool
has_id id = any_of (λ q. q.id == id)

add_active-keeps :
    (now : ℤ) (seen : HashSet String) (requests : List DecisionRequest)
    (entries : List (String × ActiveDecision)) (id : String)
    → has_id id requests ≡ true
    → has_id id (add_active now seen requests entries) ≡ true
unfolding add_active
add_active-keeps now seen requests [] id h = h
add_active-keeps now seen requests ((k, a) ∷ rest) id h = ground (
  arith,
  any_of-append (λ q. q.id == id) requests a.request,
  add_active-keeps now seen requests rest id h,
  add_active-keeps now (HashMap.insert seen a.request.id tt) (requests ++ a.request ∷ []) rest id,
)

-- An entry that waits and has not expired is among the requests.
abbrev pub IsShown : ℤ → List DecisionRequest → String × ActiveDecision → Type 0
IsShown now requests (k, a) =
    is_pending a.internal_state ≡ true
    → leb_ℤ a.expires_at_ms now ≡ false
    → has_id a.request.id requests ≡ true

add_active-shows :
    (now : ℤ) (seen : HashSet String) (requests : List DecisionRequest)
    (entries : List (String × ActiveDecision))
    → ((id : String) → HashMap.contains_key seen id ≡ true → has_id id requests ≡ true)
    → All (IsShown now (add_active now seen requests entries)) entries
unfolding add_active
add_active-shows now seen requests [] h = tt
add_active-shows now seen requests ((k, a) ∷ rest) h =
    let to_rest : (r : List DecisionRequest)
        → add_active now seen requests ((k, a) ∷ rest) ≡ r
        → IsShown now r (k, a)
        → All (IsShown now r) rest
        → All (IsShown now (add_active now seen requests ((k, a) ∷ rest))) ((k, a) ∷ rest) =
      λ r e first others.
        subst (λ q. All (IsShown now q) ((k, a) ∷ rest)) (sym e) (first, others) in
    let ih = add_active-shows now seen requests rest h in
    let skipped = add_active now seen requests rest in
    elim (Bool-cases (is_pending a.internal_state)) [
      | inr other ↦ to_rest skipped (rw other refl) (λ p u. absurd (ground arith)) ih
      | inl live ↦ elim (Bool-cases (leb_ℤ a.expires_at_ms now)) [
        | inl late ↦ to_rest skipped (rw live (rw late refl)) (λ p u. absurd (ground arith)) ih
        | inr early ↦ elim (Bool-cases (HashMap.contains_key seen a.request.id)) [
          | inl known ↦
              to_rest skipped (rw live (rw early (rw known refl)))
                (λ p u. add_active-keeps now seen requests rest a.request.id (h a.request.id known))
                ih
          | inr new ↦
              let seen' = HashMap.insert seen a.request.id tt in
              let requests' = requests ++ a.request ∷ [] in
              let there : has_id a.request.id requests' ≡ true = ground (
                arith,
                any_of-append (λ q. q.id == a.request.id) requests a.request,
                beq_refl a.request.id,
              ) in
              to_rest (add_active now seen' requests' rest) (rw live (rw early (rw new refl)))
                (λ p u. add_active-keeps now seen' requests' rest a.request.id there)
                (add_active-shows now seen' requests' rest (λ id c. ground (
                  arith,
                  contains_key-insert seen a.request.id tt id,
                  any_of-append (λ q. q.id == id) requests a.request,
                  h id,
                )))
        ]
      ]
    ]

set_of-shows :
    (requests : List DecisionRequest) (id : String)
    → HashMap.contains_key (set_of requests) id ≡ true
    → has_id id requests ≡ true
unfolding set_of any_of HashMap.contains_key HashMap.get
set_of-shows [] id h = ground arith
set_of-shows (q ∷ requests) id h =
    ground (arith, contains_key-insert (set_of requests) q.id tt id, set_of-shows requests id)

IsShown-sorted :
    (now : ℤ) (requests : List DecisionRequest) (entries : List (String × ActiveDecision))
    → All (IsShown now requests) entries
    → All (IsShown now (sort_by created_before requests)) entries
IsShown-sorted now requests [] h = tt
IsShown-sorted now requests ((k, a) ∷ rest) h = (
  λ p u. any_of-sort_by created_before (λ q. q.id == a.request.id) requests ∙ h.0 p u,
  IsShown-sorted now requests rest h.1,
)

created_before_total :
    (a b : DecisionRequest) → created_before a b ≡ false → created_before b a ≡ true
created_before_total a b h = ground arith

-- Where the table can be read, the list of pending decisions is in the order of their creation, and
-- every decision in memory that waits and has not expired is in it.
pub list_pending_lem :
    (b : DecisionBroker) (now : ℤ) (rows : List DecisionRequest)
    → list_pending_requests b.store now ≡ ok rows
    → (shown : List DecisionRequest) × (list_pending b now ≡ ok shown)
      × IsSorted created_before shown
      × All (IsShown now shown) b.active
unfolding list_pending
list_pending_lem b now rows h =
    let all = add_active now (set_of rows) rows b.active in
    (
      sort_by created_before all,
      rw (h, list_pending) refl,
      IsSorted-sort_by created_before created_before_total all,
      IsShown-sorted now all b.active
          (add_active-shows now (set_of rows) rows b.active (set_of-shows rows)),
    )
