-- ===== src/BTreeMap.antt =====
-- `std::collections::BTreeMap` with numbers for keys: an association list in the order of its keys.
-- A lookup is the one of the hash map.
use llm_notch.Prelude.{
  ℕ, ◌≡◌, refl, List, [], ◌∷◌, map, some, true, if◌then◌else◌, ltb, ◌==◌, number_key, arith,
}
use llm_notch.HashMap
use llm_notch.HashMap.{HashMap}

abbrev pub BTreeMap {ℓ} : Type ℓ → Type ℓ
BTreeMap V = HashMap ℕ V

abbrev pub BTreeSet : Type 0
BTreeSet = BTreeMap (Unit {0})

module _ {ℓ} {V : Type ℓ} where
  unfoldable pub insert : BTreeMap V → ℕ → V → BTreeMap V
  insert [] k v = (k, v) ∷ []
  insert ((j, w) ∷ m) k v =
      let later = insert m k v in
      if ltb k j then (k, v) ∷ (j, w) ∷ m else if j == k then (k, v) ∷ m else (j, w) ∷ later

  abbrev pub keys : BTreeMap V → List ℕ
  keys m = map (λ e. e.0) m

  pub get-insert :
      (m : BTreeMap V) (k : ℕ) (v : V) (j : ℕ)
      → HashMap.get (insert m k v) j ≡ (if k == j then some v else HashMap.get m j)
  unfolding HashMap.get insert
  get-insert [] k v j = refl
  get-insert ((i, w) ∷ m) k v j = ground (arith, get-insert m k v j)

  pub contains_key-insert :
      (m : BTreeMap V) (k : ℕ) (v : V) (j : ℕ)
      → HashMap.contains_key (insert m k v) j ≡ (if k == j then true else HashMap.contains_key m j)
  unfolding HashMap.contains_key
  contains_key-insert m k v j = ground (arith, get-insert m k v j)
