-- ===== src/Prelude/Lists.antt =====
-- Lists measured and cut by native numbers, under the library's names.
use Prim.Native.Nat.{ℕ, zero, suc, ◌+◌, ◌-◌, ◌≤◌, min}
use mathlib.Core.Path.{◌≡◌, refl, sym, ap, ◌∙◌}
use mathlib.Core.Bool.{Bool, true, false}
use mathlib.Core.List.{List, [], ◌∷◌, ◌++◌, map}
use mathlib.Core.Option.{Option, none, some}
use native.Mathlib.Omega.{arith}

module _ {ℓ} {A : Type ℓ} where
  abbrev pub length : List A → ℕ
  length [] = 0
  length (x ∷ xs) = suc (length xs)

  abbrev pub take : ℕ → List A → List A
  take zero xs = []
  take (suc n) [] = []
  take (suc n) (x ∷ xs) = x ∷ take n xs

  abbrev pub drop : ℕ → List A → List A
  drop zero xs = xs
  drop (suc n) [] = []
  drop (suc n) (x ∷ xs) = drop n xs

  -- `last()` of a slice.
  abbrev pub get_last? : List A → Option A
  get_last? [] = none
  get_last? (x ∷ []) = some x
  get_last? (x ∷ y ∷ ys) = get_last? (y ∷ ys)

  -- The last `n` entries: what `drain(0..overflow)` leaves.
  unfoldable pub last_n : ℕ → List A → List A
  last_n n xs = drop (length xs - n) xs

  pub length-append : (xs ys : List A) → length (xs ++ ys) ≡ length xs + length ys
  length-append [] ys = omega arith
  length-append (x ∷ xs) ys = omega (arith, length-append xs ys)

  pub length-take : (n : ℕ) (xs : List A) → length (take n xs) ≡ min n (length xs)
  length-take zero xs = omega arith
  length-take (suc n) [] = omega arith
  length-take (suc n) (x ∷ xs) = omega (arith, length-take n xs)

  pub length-drop : (n : ℕ) (xs : List A) → length (drop n xs) ≡ length xs - n
  length-drop zero xs = omega arith
  length-drop (suc n) [] = omega arith
  length-drop (suc n) (x ∷ xs) = omega (arith, length-drop n xs)

  pub length-last_n : (n : ℕ) (xs : List A) → length (last_n n xs) ≡ min n (length xs)
  unfolding last_n
  length-last_n n xs = omega (arith, length-drop (length xs - n) xs)

  pub drop-append : (n : ℕ) (xs ys : List A) → n ≤ length xs → drop n (xs ++ ys) ≡ drop n xs ++ ys
  drop-append zero xs ys h = refl
  drop-append (suc n) [] ys h = absurd (omega arith)
  drop-append (suc n) (x ∷ xs) ys h = drop-append n xs ys (omega arith)

  pub drop-nil : (n : ℕ) → drop n [] ≡ []
  drop-nil zero = refl
  drop-nil (suc n) = refl

  pub drop-drop : (m n : ℕ) (xs : List A) → drop m (drop n xs) ≡ drop (n + m) xs
  drop-drop m zero xs = let e : m ≡ zero + m = omega arith in ap (λ k. drop k xs) e
  drop-drop zero (suc n) [] = sym (drop-nil (suc n + zero))
  drop-drop (suc m) (suc n) [] = sym (drop-nil (suc n + suc m))
  drop-drop m (suc n) (x ∷ xs) =
      let e : suc n + m ≡ suc (n + m) = omega arith in
      drop-drop m n xs ∙ sym (ap (λ k. drop k (x ∷ xs)) e)

  pub drop-length-append : (xs ys : List A) → drop (length xs) (xs ++ ys) ≡ ys
  drop-length-append [] ys = refl
  drop-length-append (x ∷ xs) ys = drop-length-append xs ys

  pub last_n-append :
      (m : ℕ) (xs : List A) (x : A) → last_n (suc m) (xs ++ x ∷ []) ≡ last_n m xs ++ x ∷ []
  unfolding last_n
  last_n-append m xs x =
      let e : length (xs ++ x ∷ []) - suc m ≡ length xs - m =
        omega (arith, length-append xs (x ∷ [])) in
      ap (λ k. drop k (xs ++ x ∷ [])) e ∙ drop-append (length xs - m) xs (x ∷ []) (omega arith)

  pub last_n-last_n-append :
      (m : ℕ) (xs : List A) (x : A) → last_n m (last_n m xs ++ x ∷ []) ≡ last_n m (xs ++ x ∷ [])
  unfolding last_n
  last_n-last_n-append m xs x =
      let n : ℕ = length xs - m in
      let k : ℕ = length (drop n xs ++ x ∷ []) - m in
      let e : n + k ≡ length (xs ++ x ∷ []) - m =
        omega (
          arith,
          length-append xs (x ∷ []),
          length-append (drop n xs) (x ∷ []),
          length-drop n xs,
        ) in
      ap (drop k) (sym (drop-append n xs (x ∷ []) (omega arith)))
      ∙ drop-drop k n (xs ++ x ∷ [])
      ∙ ap (λ j. drop j (xs ++ x ∷ [])) e

  pub get_last?-append : (xs : List A) (x : A) → get_last? (xs ++ x ∷ []) ≡ some x
  get_last?-append [] x = refl
  get_last?-append (y ∷ []) x = refl
  get_last?-append (y ∷ z ∷ zs) x = get_last?-append (z ∷ zs) x

  pub last_n_one : (xs : List A) (x : A) → get_last? xs ≡ some x → last_n 1 xs ≡ x ∷ []
  unfolding last_n
  last_n_one [] x h = cc
  last_n_one (y ∷ []) x h = ground arith
  last_n_one (y ∷ z ∷ zs) x h =
      let e : length (y ∷ z ∷ zs) - 1 ≡ suc (length (z ∷ zs) - 1) = omega arith in
      ap (λ k. drop k (y ∷ z ∷ zs)) e ∙ last_n_one (z ∷ zs) x h

  pub length-last_n-le : (n : ℕ) (xs : List A) → length (last_n n xs) ≤ n
  length-last_n-le n xs = omega (arith, length-last_n n xs)

  -- The list filtered by a Boolean test, as `retain` and `filter` do.
  abbrev pub retain : (A → Bool) → List A → List A
  retain p [] = []
  retain p (x ∷ xs) = let rest = retain p xs in elim (p x) [ true ↦ x ∷ rest | false ↦ rest ]

  pub retain-append :
      (p : A → Bool) (xs ys : List A) → retain p (xs ++ ys) ≡ retain p xs ++ retain p ys
  retain-append p [] ys = refl
  retain-append p (x ∷ xs) ys = ground (arith, retain-append p xs ys)

  pub length-retain-le : (p : A → Bool) (xs : List A) → length (retain p xs) ≤ length xs
  length-retain-le p [] = omega arith
  length-retain-le p (x ∷ xs) = ground (arith, length-retain-le p xs)

module _ {ℓ} {A : Type ℓ} where
  pub length-map {κ} : {B : Type κ} (f : A → B) (xs : List A) → length (map f xs) ≡ length xs
  length-map f [] = refl
  length-map f (x ∷ xs) = ap suc (length-map f xs)

  -- A predicate of every entry.
  abbrev pub All {κ} : (A → Type κ) → List A → Type κ
  All P [] = Unit
  All P (x ∷ xs) = P x × All P xs

  pub All-append {κ} : (P : A → Type κ) (xs ys : List A) → All P xs → All P ys → All P (xs ++ ys)
  All-append P [] ys p q = q
  All-append P (x ∷ xs) ys p q = (p.0, All-append P xs ys p.1 q)

  pub All-retain {κ} :
      (P : A → Type κ) (p : A → Bool) (xs : List A) → All P xs → All P (retain p xs)
  All-retain P p [] h = tt
  All-retain P p (x ∷ xs) h = ground (arith, All-retain P p xs h.1)

  pub All-drop {κ} : (P : A → Type κ) (n : ℕ) (xs : List A) → All P xs → All P (drop n xs)
  All-drop P zero xs h = h
  All-drop P (suc n) [] h = tt
  All-drop P (suc n) (x ∷ xs) h = All-drop P n xs h.1

  pub All-retain_test : (p : A → Bool) (xs : List A) → All (λ x. p x ≡ true) (retain p xs)
  All-retain_test p [] = tt
  All-retain_test p (x ∷ xs) = ground (arith, All-retain_test p xs)

  -- What holds of the kept entries holds of every entry that passes the test.
  pub All-of-retain {κ} :
      (P : A → Type κ) (p : A → Bool) (xs : List A)
      → All P (retain p xs)
      → All (λ x. p x ≡ true → P x) xs
  All-of-retain P p [] h = tt
  All-of-retain P p (x ∷ xs) h =
      elim (p x)
          as (λ b.
            All P (elim b [ true ↦ x ∷ retain p xs | false ↦ retain p xs ])
            → ((b ≡ true → P x) × All (λ x. p x ≡ true → P x) xs)) [
              | true ↦ λ g. (λ _. g.0, All-of-retain P p xs g.1)
              | false ↦ λ g. (λ e. absurd (cc), All-of-retain P p xs g)
            ]
        h

  -- Every entry is related to every later one.
  abbrev pub Pairwise {κ} : (A → A → Type κ) → List A → Type κ
  Pairwise R [] = Unit
  Pairwise R (x ∷ xs) = All (R x) xs × Pairwise R xs

  pub Pairwise-append {κ} :
      (R : A → A → Type κ) (xs : List A) (x : A)
      → Pairwise R xs
      → All (λ y. R y x) xs
      → Pairwise R (xs ++ x ∷ [])
  Pairwise-append R [] x p a = (tt, tt)
  Pairwise-append R (y ∷ ys) x p a =
      (All-append (R y) ys (x ∷ []) p.0 (a.0, tt), Pairwise-append R ys x p.1 a.1)

  unfoldable pub any_of : (A → Bool) → List A → Bool
  any_of p [] = false
  any_of p (x ∷ xs) = let rest = any_of p xs in elim (p x) [ true ↦ true | false ↦ rest ]

  pub any_of-append :
      (p : A → Bool) (xs : List A) (x : A)
      → any_of p (xs ++ x ∷ []) ≡ (elim (any_of p xs) [ true ↦ true | false ↦ p x ])
  unfolding any_of
  any_of-append p [] x = ground arith
  any_of-append p (y ∷ ys) x = ground (arith, any_of-append p ys x)
