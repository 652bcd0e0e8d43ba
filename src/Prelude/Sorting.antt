-- ===== src/Prelude/Sorting.antt =====
-- `slice::sort_by_key`: a stable sort. `le a b` says that `a` may stand before `b`.
use mathlib.Core.Path.{◌≡◌, refl}
use mathlib.Core.Bool.{Bool, true, false}
use mathlib.Core.List.{List, [], ◌∷◌}
use Prim.Native.Nat.{suc}
use native.Mathlib.Omega.{arith}
use llm_notch.Prelude.Tests.{if◌then◌else◌}
use llm_notch.Prelude.Lists.{length, All, Pairwise, any_of}

module _ {ℓ} {A : Type ℓ} (le : A → A → Bool) where
  insert_sorted : A → List A → List A
  insert_sorted x [] = x ∷ []
  insert_sorted x (y ∷ ys) = if le x y then x ∷ y ∷ ys else y ∷ insert_sorted x ys

  unfoldable pub sort_by : List A → List A
  unfolding insert_sorted
  sort_by [] = []
  sort_by (x ∷ xs) = insert_sorted x (sort_by xs)

  -- Each entry may stand before its successor.
  abbrev pub IsSorted : List A → Type 0
  IsSorted [] = Unit
  IsSorted (x ∷ []) = Unit
  IsSorted (x ∷ y ∷ ys) = (le x y ≡ true) × IsSorted (y ∷ ys)

  length-insert_sorted : (x : A) (xs : List A) → length (insert_sorted x xs) ≡ suc (length xs)
  unfolding insert_sorted
  length-insert_sorted x [] = refl
  length-insert_sorted x (y ∷ ys) = ground (arith, length-insert_sorted x ys)

  pub length-sort_by : (xs : List A) → length (sort_by xs) ≡ length xs
  unfolding sort_by
  length-sort_by [] = refl
  length-sort_by (x ∷ xs) = omega (arith, length-insert_sorted x (sort_by xs), length-sort_by xs)

  All-insert_sorted {κ} :
      (P : A → Type κ) (x : A) (xs : List A) → P x → All P xs → All P (insert_sorted x xs)
  unfolding insert_sorted
  All-insert_sorted P x [] p h = (p, tt)
  All-insert_sorted P x (y ∷ ys) p h = ground (arith, All-insert_sorted P x ys p h.1)

  pub All-sort_by {κ} : (P : A → Type κ) (xs : List A) → All P xs → All P (sort_by xs)
  unfolding sort_by
  All-sort_by P [] h = tt
  All-sort_by P (x ∷ xs) h = All-insert_sorted P x (sort_by xs) h.0 (All-sort_by P xs h.1)

  All-of-insert_sorted {κ} :
      (P : A → Type κ) (x : A) (xs : List A) → All P (insert_sorted x xs) → P x × All P xs
  unfolding insert_sorted
  All-of-insert_sorted P x [] h = h
  All-of-insert_sorted P x (y ∷ ys) h =
      (elim (le x y)
          as (λ b.
            All P (if b then x ∷ y ∷ ys else y ∷ insert_sorted x ys) → P x × All P (y ∷ ys)) [
              | true ↦ λ g. g
              | false ↦ λ g. let rest = All-of-insert_sorted P x ys g.1 in (rest.0, (g.0, rest.1))
            ])
        h

  pub All-of-sort_by {κ} : (P : A → Type κ) (xs : List A) → All P (sort_by xs) → All P xs
  unfolding sort_by
  All-of-sort_by P [] h = tt
  All-of-sort_by P (x ∷ xs) h =
      let rest = All-of-insert_sorted P x (sort_by xs) h in (rest.0, All-of-sort_by P xs rest.1)

  Pairwise-insert_sorted {κ} :
      (R : A → A → Type κ) (symmetric : (a b : A) → R a b → R b a) (x : A) (xs : List A)
      → All (R x) xs
      → Pairwise R xs
      → Pairwise R (insert_sorted x xs)
  unfolding insert_sorted
  Pairwise-insert_sorted R symmetric x [] a p = (tt, tt)
  Pairwise-insert_sorted R symmetric x (y ∷ ys) a p =
      elim (le x y) as (λ b. Pairwise R (if b then x ∷ y ∷ ys else y ∷ insert_sorted x ys)) [
        | true ↦ (a, p)
        | false ↦ (
          All-insert_sorted (R y) x ys (symmetric x y a.0) p.0,
          Pairwise-insert_sorted R symmetric x ys a.1 p.1,
        )
      ]

  pub Pairwise-sort_by {κ} :
      (R : A → A → Type κ) (symmetric : (a b : A) → R a b → R b a) (xs : List A)
      → Pairwise R xs
      → Pairwise R (sort_by xs)
  unfolding sort_by
  Pairwise-sort_by R symmetric [] p = tt
  Pairwise-sort_by R symmetric (x ∷ xs) p =
      Pairwise-insert_sorted R symmetric x (sort_by xs) (All-sort_by (R x) xs p.0)
        (Pairwise-sort_by R symmetric xs p.1)

  any_of-insert_sorted :
      (p : A → Bool) (x : A) (xs : List A)
      → any_of p (insert_sorted x xs) ≡ (if p x then true else any_of p xs)
  unfolding any_of insert_sorted
  any_of-insert_sorted p x [] = ground arith
  any_of-insert_sorted p x (y ∷ ys) = ground (arith, any_of-insert_sorted p x ys)

  pub any_of-sort_by : (p : A → Bool) (xs : List A) → any_of p (sort_by xs) ≡ any_of p xs
  unfolding any_of sort_by
  any_of-sort_by p [] = refl
  any_of-sort_by p (x ∷ xs) =
      ground (arith, any_of-insert_sorted p x (sort_by xs), any_of-sort_by p xs)

  module _ (total : (a b : A) → le a b ≡ false → le b a ≡ true) where
    IsSorted-insert : (x : A) (xs : List A) → IsSorted xs → IsSorted (insert_sorted x xs)
    unfolding insert_sorted
    IsSorted-insert x [] h = tt
    IsSorted-insert x (y ∷ []) h = ground (arith, total x y)
    IsSorted-insert x (y ∷ z ∷ zs) h =
        ground (arith, total x y, total x z, IsSorted-insert x (z ∷ zs) h.1)

    pub IsSorted-sort_by : (xs : List A) → IsSorted (sort_by xs)
    unfolding sort_by
    IsSorted-sort_by [] = tt
    IsSorted-sort_by (x ∷ xs) = IsSorted-insert x (sort_by xs) (IsSorted-sort_by xs)
