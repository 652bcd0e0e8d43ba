-- ===== src/HashMap.antt =====
-- `std::collections::HashMap`: an association list with one entry for each key. The order of the
-- entries stands for the iteration order, which the program must not rely on.
pub mod Laws
use llm_notch.Prelude.{
  ℕ, ◌≡◌, List, [], ◌∷◌, map, Option, none, some, Bool, true, false, if◌then◌else◌, PartialEq, ◌==◌,
  length,
}

abbrev pub HashMap {ℓ κ} : Type ℓ → Type κ → Type (ℓ ⊔ κ)
HashMap K V = List (K × V)

module _ {ℓ κ} {K : Type ℓ} {V : Type κ} where
  abbrev pub empty : HashMap K V
  empty = []

  abbrev pub size : HashMap K V → ℕ
  size m = length m

  abbrev pub values : HashMap K V → List V
  values m = map (λ e. e.1) m

  -- `values_mut`, with a write to every value.
  unfoldable pub map_values : (V → V) → HashMap K V → HashMap K V
  map_values f [] = []
  map_values f ((k, v) ∷ m) = (k, f v) ∷ map_values f m

module _ {ℓ κ} {K : Type ℓ} {V : Type κ} ⦃e : PartialEq K⦄ where
  unfoldable pub get : HashMap K V → K → Option V
  get [] k = none
  get ((j, v) ∷ m) k = if j == k then some v else get m k

  unfoldable pub insert : HashMap K V → K → V → HashMap K V
  insert [] k v = (k, v) ∷ []
  insert ((j, w) ∷ m) k v = if j == k then (k, v) ∷ m else (j, w) ∷ insert m k v

  unfoldable pub remove : HashMap K V → K → HashMap K V
  remove [] k = []
  remove ((j, w) ∷ m) k = let rest = remove m k in if j == k then rest else (j, w) ∷ rest

  -- `get_mut` with a write through the reference.
  unfoldable pub modify : HashMap K V → K → (V → V) → HashMap K V
  modify [] k f = []
  modify ((j, w) ∷ m) k f = if j == k then (j, f w) ∷ m else (j, w) ∷ modify m k f

  unfoldable pub contains_key : HashMap K V → K → Bool
  contains_key m k = elim (get m k) [ none ↦ false | some _ ↦ true ]

  -- Every key has one entry.
  abbrev pub Distinct : HashMap K V → Type κ
  Distinct [] = Unit
  Distinct ((k, v) ∷ m) = (get m k ≡ none) × Distinct m

-- `std::collections::HashSet`: a map with no values.
abbrev pub HashSet {ℓ} : Type ℓ → Type ℓ
HashSet K = HashMap K (Unit {0})
