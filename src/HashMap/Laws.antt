-- ===== src/HashMap/Laws.antt =====
-- The laws of the hash map, each in the form of a lookup after the operation.
use llm_notch.Prelude.{
  ◌+◌, ◌≡◌, refl, [], ◌∷◌, Option, none, some, true, false, if◌then◌else◌, PartialEq, ◌==◌, arith,
  inl, inr, Bool-cases, All, subst,
}
use llm_notch.HashMap.{
  HashMap, get, insert, remove, modify, contains_key, map_values, values, Distinct, size,
}

pub beq_refl {ℓ} : {K : Type ℓ} ⦃e : PartialEq K⦄ (k : K) → (k == k) ≡ true
beq_refl ⦃e⦄ k = (e.eq_law k k).1 refl

abbrev pub apply_option {κ} : {V : Type κ} → (V → V) → Option V → Option V
apply_option f none = none
apply_option f (some v) = some (f v)

module _ {ℓ κ} {K : Type ℓ} {V : Type κ} ⦃e : PartialEq K⦄ where
  pub get-insert :
      (m : HashMap K V) (k : K) (v : V) (j : K)
      → get (insert m k v) j ≡ (if k == j then some v else get m j)
  unfolding get insert
  get-insert [] k v j = refl
  get-insert ((i, w) ∷ m) k v j =
      ground (arith, e.eq_law k j, e.eq_law i k, e.eq_law i j, get-insert m k v j)

  pub get-remove :
      (m : HashMap K V) (k j : K) → get (remove m k) j ≡ (if k == j then none else get m j)
  unfolding get remove
  get-remove [] k j = ground arith
  get-remove ((i, w) ∷ m) k j =
      ground (arith, e.eq_law k j, e.eq_law i k, e.eq_law i j, get-remove m k j)

  pub get-modify :
      (m : HashMap K V) (k : K) (f : V → V) (j : K)
      → get (modify m k f) j ≡ (if k == j then apply_option f (get m j) else get m j)
  unfolding get modify
  get-modify [] k f j = ground arith
  get-modify ((i, w) ∷ m) k f j =
      ground (arith, e.eq_law k j, e.eq_law i k, e.eq_law i j, get-modify m k f j)

  pub contains_key-insert :
      (m : HashMap K V) (k : K) (v : V) (j : K)
      → contains_key (insert m k v) j ≡ (if k == j then true else contains_key m j)
  unfolding contains_key
  contains_key-insert m k v j = ground (arith, get-insert m k v j)

  pub contains_key-remove :
      (m : HashMap K V) (k j : K)
      → contains_key (remove m k) j ≡ (if k == j then false else contains_key m j)
  unfolding contains_key
  contains_key-remove m k j = ground (arith, get-remove m k j)

  pub contains_key-modify :
      (m : HashMap K V) (k : K) (f : V → V) (j : K)
      → contains_key (modify m k f) j ≡ contains_key m j
  unfolding contains_key
  contains_key-modify m k f j = ground (arith, get-modify m k f j)

  pub contains_key_of_get :
      (m : HashMap K V) (k : K) (v : V) → get m k ≡ some v → contains_key m k ≡ true
  unfolding contains_key
  contains_key_of_get m k v h = rw (h, contains_key)

  pub get-none_of_contains_key :
      (m : HashMap K V) (k : K) → contains_key m k ≡ false → get m k ≡ none
  unfolding contains_key
  get-none_of_contains_key m k h = ground arith

  pub Distinct-remove : (m : HashMap K V) (k : K) → Distinct m → Distinct (remove m k)
  unfolding remove
  Distinct-remove [] k d = tt
  Distinct-remove ((i, w) ∷ m) k d = ground (arith, Distinct-remove m k d.1, get-remove m k i)

  pub Distinct-insert : (m : HashMap K V) (k : K) (v : V) → Distinct m → Distinct (insert m k v)
  unfolding insert
  Distinct-insert [] k v d = (unfold get in refl, tt)
  Distinct-insert ((i, w) ∷ m) k v d =
      ground (arith, Distinct-insert m k v d.1, get-insert m k v i, e.eq_law i k, e.eq_law k i)

  pub Distinct-modify : (m : HashMap K V) (k : K) (f : V → V) → Distinct m → Distinct (modify m k f)
  unfolding modify
  Distinct-modify [] k f d = tt
  Distinct-modify ((i, w) ∷ m) k f d = ground (arith, Distinct-modify m k f d.1, get-modify m k f i)

  pub size-insert :
      (m : HashMap K V) (k : K) (v : V)
      → size (insert m k v) ≡ (if contains_key m k then size m else size m + 1)
  unfolding insert contains_key get
  size-insert [] k v = ground arith
  size-insert ((i, w) ∷ m) k v = ground (arith, size-insert m k v)

  pub size-modify : (m : HashMap K V) (k : K) (f : V → V) → size (modify m k f) ≡ size m
  unfolding modify
  size-modify [] k f = refl
  size-modify ((i, w) ∷ m) k f = ground (arith, size-modify m k f)

  pub get-map_values :
      (m : HashMap K V) (f : V → V) (k : K) → get (map_values f m) k ≡ apply_option f (get m k)
  unfolding map_values get
  get-map_values [] f k = refl
  get-map_values ((i, w) ∷ m) f k = ground (arith, get-map_values m f k)

  pub size-map_values : (m : HashMap K V) (f : V → V) → size (map_values f m) ≡ size m
  unfolding map_values
  size-map_values [] f = refl
  size-map_values ((i, w) ∷ m) f = ground (arith, size-map_values m f)

  pub Distinct-map_values : (m : HashMap K V) (f : V → V) → Distinct m → Distinct (map_values f m)
  unfolding map_values
  Distinct-map_values [] f d = tt
  Distinct-map_values ((i, w) ∷ m) f d =
      ground (arith, Distinct-map_values m f d.1, get-map_values m f i)

  -- A property of every stored value, read off the keys, and read back at a key.
  pub All-values {μ} :
      (P : V → Type μ) (m : HashMap K V)
      → Distinct m
      → ((k : K) (v : V) → get m k ≡ some v → P v)
      → All P (values m)
  unfolding get
  All-values P [] d h = tt
  All-values P ((i, w) ∷ m) d h = (
    h i w (rw (beq_refl i)),
    All-values P m d.1 (λ k v found. h k v (ground (arith, e.eq_law i k, found, d.0))),
  )

  pub All-get {μ} :
      (P : V → Type μ) (m : HashMap K V) (k : K) (v : V) → All P (values m) → get m k ≡ some v → P v
  unfolding get
  All-get P [] k v a found = cc
  All-get P ((i, w) ∷ m) k v a found = elim (Bool-cases (i == k)) [
    | inl here ↦ subst P (ground arith) a.0
    | inr away ↦ All-get P m k v a.1 (ground arith)
  ]

  pub remove_absent : (m : HashMap K V) (k : K) → get m k ≡ none → remove m k ≡ m
  unfolding remove get
  remove_absent [] k h = refl
  remove_absent ((i, w) ∷ m) k h = ground (arith, remove_absent m k)

  pub size-remove :
      (m : HashMap K V) (k : K)
      → Distinct m
      → size (remove m k) + (if contains_key m k then 1 else 0) ≡ size m
  unfolding remove contains_key get
  size-remove [] k d = ground arith
  size-remove ((i, w) ∷ m) k d =
      ground (arith, size-remove m k d.1, remove_absent m k, e.eq_law i k)

pub ruleset map_laws = (
  get-insert, get-remove, get-modify, contains_key-insert, contains_key-remove, contains_key-modify,
  get-map_values,
)
