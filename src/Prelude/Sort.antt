-- ===== src/Prelude/Sort.antt =====
-- `sort_by_key` of a vector, which is stable, as insertion sort by "the key is at most".
use Prim.Native.Nat.{suc}
use mathlib.Core.Path.{◌≡◌, refl, ap, ◌∙◌}
use mathlib.Core.Bool.{Bool, true, false}
use mathlib.Core.Logic.{inl, inr}
use mathlib.Core.List.{List, [], ◌∷◌}
use native.Mathlib.Omega.{arith}
use resilient_messenger.Prelude.Tests.{if◌then◌else◌, Bool-cases}
use resilient_messenger.Prelude.Lists.{length, All}

module _ {A : Type 0} (at_most : A → A → Bool) where
  unfoldable pub insert : A → List A → List A
  insert x [] = x ∷ []
  insert x (y ∷ ys) = if at_most x y then x ∷ y ∷ ys else y ∷ insert x ys

  unfoldable pub sort_by : List A → List A
  sort_by [] = []
  sort_by (x ∷ xs) = insert x (sort_by xs)

  abbrev IsSorted : List A → Type 0
  IsSorted [] = Unit
  IsSorted (x ∷ []) = Unit
  IsSorted (x ∷ y ∷ ys) = (at_most x y ≡ true) × IsSorted (y ∷ ys)

  pub All-insert : (P : A → Type 0) (x : A) (xs : List A) → P x → All P xs → All P (insert x xs)
  unfolding insert
  All-insert P x [] p h = (p, tt)
  All-insert P x (y ∷ ys) p h = elim (Bool-cases (at_most x y)) [
    | inl e ↦ rw e (p, h)
    | inr e ↦ rw e (h.0, All-insert P x ys p h.1)
  ]

  pub All-sort_by : (P : A → Type 0) (xs : List A) → All P xs → All P (sort_by xs)
  unfolding sort_by
  All-sort_by P [] h = tt
  All-sort_by P (x ∷ xs) h = All-insert P x (sort_by xs) h.0 (All-sort_by P xs h.1)

  All-insert_back : (P : A → Type 0) (x : A) (xs : List A) → All P (insert x xs) → P x × All P xs
  unfolding insert
  All-insert_back P x [] h = h
  All-insert_back P x (y ∷ ys) h = elim (Bool-cases (at_most x y)) [
    | inl e ↦ rw e at h
    | inr e ↦
        let g : P y × All P (insert x ys) = rw e at h in
        let (p, rest) = All-insert_back P x ys g.1 in (p, (g.0, rest))
  ]

  pub All-sort_by_back : (P : A → Type 0) (xs : List A) → All P (sort_by xs) → All P xs
  unfolding sort_by
  All-sort_by_back P [] h = tt
  All-sort_by_back P (x ∷ xs) h =
      let (p, rest) = All-insert_back P x (sort_by xs) h in (p, All-sort_by_back P xs rest)

  length-insert : (x : A) (xs : List A) → length (insert x xs) ≡ suc (length xs)
  unfolding insert
  length-insert x [] = refl
  length-insert x (y ∷ ys) = ground (arith, length-insert x ys)

  pub length-sort_by : (xs : List A) → length (sort_by xs) ≡ length xs
  unfolding sort_by
  length-sort_by [] = refl
  length-sort_by (x ∷ xs) = length-insert x (sort_by xs) ∙ ap suc (length-sort_by xs)

  module _ (total : (x y : A) → at_most x y ≡ false → at_most y x ≡ true) where
    insert-IsSorted : (x : A) (xs : List A) → IsSorted xs → IsSorted (insert x xs)
    unfolding insert
    insert-IsSorted x [] h = tt
    insert-IsSorted x (y ∷ []) h = elim (Bool-cases (at_most x y)) [
      | inl e ↦ rw e (e, tt)
      | inr e ↦ rw e (total x y e, tt)
    ]
    insert-IsSorted x (y ∷ z ∷ zs) h = elim (Bool-cases (at_most x y)) [
      | inl e ↦ rw e (e, h)
      | inr e ↦ rw e (elim (Bool-cases (at_most x z)) [
        | inl f ↦ rw f (total x y e, (f, h.1))
        | inr f ↦ rw f (h.0, rw f at (insert-IsSorted x (z ∷ zs) h.1))
      ])
    ]

    sort_by-IsSorted : (xs : List A) → IsSorted (sort_by xs)
    unfolding sort_by
    sort_by-IsSorted [] = tt
    sort_by-IsSorted (x ∷ xs) = insert-IsSorted x (sort_by xs) (sort_by-IsSorted xs)

    sort_by_sorted : (xs : List A) → IsSorted xs → sort_by xs ≡ xs
    unfolding sort_by insert
    sort_by_sorted [] h = refl
    sort_by_sorted (x ∷ []) h = refl
    sort_by_sorted (x ∷ y ∷ ys) h = rw (sort_by_sorted (y ∷ ys) h.1) (rw h.0)

    -- Sorting twice is sorting once.
    pub sort_by_twice : (xs : List A) → sort_by (sort_by xs) ≡ sort_by xs
    sort_by_twice xs = sort_by_sorted (sort_by xs) (sort_by-IsSorted xs)

  -- A list in which every element is at most all that follow is sorted.
  abbrev pub IsOrdered : List A → Type 0
  IsOrdered [] = Unit
  IsOrdered (x ∷ xs) = All (λ y. at_most x y ≡ true) xs × IsOrdered xs

  pub sort_by_ordered : (xs : List A) → IsOrdered xs → sort_by xs ≡ xs
  unfolding sort_by insert
  sort_by_ordered [] h = refl
  sort_by_ordered (x ∷ []) h = refl
  sort_by_ordered (x ∷ y ∷ ys) h = rw (sort_by_ordered (y ∷ ys) h.1) (rw h.0.0)
