-- ===== src/Core/Registry/Bootstrap/Bounded.antt =====
-- The size and the order of the bootstrap events, and that none occurs twice.
use llm_notch.Prelude.{
  ℕ, suc, ◌≤◌, ◌≡◌, ◌≢◌, refl, sym, ◌∙◌, Bool, true, false, List, [], ◌∷◌, arith, inl, inr,
  Bool-cases, leb, ◌==◌, number_key, text_key, length, length-append, All, Pairwise,
  Pairwise-append, any_of, any_of-append,
}
use llm_notch.Prelude.Sorting.{
  sort_by, length-sort_by, IsSorted, IsSorted-sort_by, Pairwise-sort_by,
}
use llm_notch.HashMap
use llm_notch.HashMap.Laws.{contains_key-insert}
use llm_notch.Protocol.{AgentSession, SessionEvent, bootstrap_max_events}
use llm_notch.Core.Registry.{SessionRegistry}
use llm_notch.Core.Registry.Bootstrap.{
  Selection, select, select_all, select_active, earlier, active_sessions, bootstrap_events, concat,
  latest_first, latest_of,
}

abbrev pub has_id : ℕ → List SessionEvent → Bool
has_id i es = any_of (λ e. e.id == i) es

abbrev pub DifferentIds : SessionEvent → SessionEvent → Type 0
DifferentIds a b = a.id ≢ b.id

-- What the two loops keep of the selection.
pub record IsSelection (s : Selection) : Type 0 where
  pub bounded : length s.selected ≤ bootstrap_max_events
  pub agrees : (i : ℕ) → HashMap.contains_key s.selected_ids i ≡ has_id i s.selected
  pub different : Pairwise DifferentIds s.selected

different_from : (i : ℕ) (es : List SessionEvent) → has_id i es ≡ false → All (λ e. e.id ≢ i) es
unfolding any_of
different_from i [] h = tt
different_from i (e ∷ es) h = elim (Bool-cases (e.id == i)) [
  | inl same ↦ absurd (ground arith)
  | inr other ↦ ((λ p. ground arith), different_from i es (ground arith))
]

pub select-IsSelection :
    (s : Selection) (e : SessionEvent)
    → suc (length s.selected) ≤ bootstrap_max_events
    → IsSelection s
    → IsSelection (select s e)
unfolding select
select-IsSelection s e room h = elim (Bool-cases (HashMap.contains_key s.selected_ids e.id)) [
  | inl known ↦ rw (known, select) h
  | inr new ↦
      rw (new, select)
        (record {
          bounded = omega (arith, length-append s.selected (e ∷ []));
          agrees = λ i.
              contains_key-insert s.selected_ids e.id tt i
              ∙ rw (any_of-append (λ f. f.id == i) s.selected e) (ground (arith, h.agrees i));
          different =
              Pairwise-append DifferentIds s.selected e h.different
                (different_from e.id s.selected (ground (arith, h.agrees e.id)));
        })
]

pub select_all-IsSelection :
    (s : Selection) (es : List SessionEvent) → IsSelection s → IsSelection (select_all s es)
unfolding select_all
select_all-IsSelection s [] h = h
select_all-IsSelection s (e ∷ es) h =
    elim (Bool-cases (leb bootstrap_max_events (length s.selected))) [
      | inl full ↦ rw full h
      | inr room ↦
          rw room (select_all-IsSelection (select s e) es (select-IsSelection s e (ground arith) h))
    ]

pub select_active-IsSelection :
    (r : SessionRegistry) (s : Selection) (sessions : List AgentSession)
    → IsSelection s
    → IsSelection (select_active r s sessions)
unfolding select_active
select_active-IsSelection r s [] h = h
select_active-IsSelection r s (session ∷ sessions) h =
    select_active-IsSelection r (select_all s (latest_of r session)) sessions
      (select_all-IsSelection s (latest_of r session) h)

abbrev pub nothing : Selection
nothing = record { selected = []; selected_ids = [] }

pub nothing-IsSelection : IsSelection nothing
unfolding HashMap.contains_key HashMap.get any_of
nothing-IsSelection = record { bounded = omega arith; agrees = λ i. refl; different = tt }

earlier-total : (a b : SessionEvent) → earlier a b ≡ false → earlier b a ≡ true
unfolding earlier
earlier-total a b h = ground arith

-- Whatever the registry holds, a renderer starts with at most 256 events, in the order of their time
-- and sequence, and never with the same event twice.
pub bootstrap_events_lem :
    (r : SessionRegistry)
    → (length (bootstrap_events r) ≤ bootstrap_max_events)
      × IsSorted earlier (bootstrap_events r)
      × Pairwise DifferentIds (bootstrap_events r)
unfolding bootstrap_events
bootstrap_events_lem r =
    let h =
      select_all-IsSelection (select_active r nothing (active_sessions r))
        (sort_by latest_first (concat (HashMap.values r.events)))
        (select_active-IsSelection r nothing (active_sessions r) nothing-IsSelection) in
    (
      omega (arith, length-sort_by earlier _, h.bounded),
      IsSorted-sort_by earlier earlier-total _,
      Pairwise-sort_by earlier DifferentIds (λ a b p q. p (sym q)) _ h.different,
    )
