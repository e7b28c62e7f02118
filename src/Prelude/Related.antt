-- ===== src/Prelude/Related.antt =====
-- Two lists related element by element, and the operations that keep them so.
use mathlib.Core.Path.{◌≡◌}
use mathlib.Core.Bool.{Bool}
use mathlib.Core.Logic.{inl, inr}
use mathlib.Core.List.{List, [], ◌∷◌, ◌++◌}
use resilient_messenger.Prelude.Tests.{Bool-cases}
use resilient_messenger.Prelude.Sort.{insert, sort_by}

abbrev pub Pairs : {A : Type 0} → (A → A → Type 0) → List A → List A → Type 0
Pairs R [] [] = Unit
Pairs R [] (y ∷ ys) = ⊥
Pairs R (x ∷ xs) [] = ⊥
Pairs R (x ∷ xs) (y ∷ ys) = R x y × Pairs R xs ys

module _ {A : Type 0} (R : A → A → Type 0) where
  pub Pairs-append :
      (xs ys zs ws : List A) → Pairs R xs ys → Pairs R zs ws → Pairs R (xs ++ zs) (ys ++ ws)
  Pairs-append [] [] zs ws h k = k
  Pairs-append [] (y ∷ ys) zs ws h k = absurd h
  Pairs-append (x ∷ xs) [] zs ws h k = absurd h
  Pairs-append (x ∷ xs) (y ∷ ys) zs ws h k = (h.0, Pairs-append xs ys zs ws h.1 k)

  -- A comparison that the relation keeps.
  abbrev pub KeepsOrder : (A → A → Bool) → Type 0
  KeepsOrder le = (x x' y y' : A) → R x x' → R y y' → le x y ≡ le x' y'

  Pairs-insert :
      (le : A → A → Bool) (keep : KeepsOrder le) (x x' : A) (ys ys' : List A)
      → R x x'
      → Pairs R ys ys'
      → Pairs R (insert le x ys) (insert le x' ys')
  unfolding insert
  Pairs-insert le keep x x' [] [] r h = (r, tt)
  Pairs-insert le keep x x' [] (y' ∷ ys') r h = absurd h
  Pairs-insert le keep x x' (y ∷ ys) [] r h = absurd h
  Pairs-insert le keep x x' (y ∷ ys) (y' ∷ ys') r h =
      rw (← keep x x' y y' r h.0) (elim (Bool-cases (le x y)) [
        | inl e ↦ rw e (r, h)
        | inr e ↦ rw e (h.0, Pairs-insert le keep x x' ys ys' r h.1)
      ])

  pub Pairs-sort_by :
      (le : A → A → Bool)
      → KeepsOrder le
      → (xs ys : List A) → Pairs R xs ys
      → Pairs R (sort_by le xs) (sort_by le ys)
  unfolding sort_by
  Pairs-sort_by le keep [] [] h = tt
  Pairs-sort_by le keep [] (y ∷ ys) h = absurd h
  Pairs-sort_by le keep (x ∷ xs) [] h = absurd h
  Pairs-sort_by le keep (x ∷ xs) (y ∷ ys) h =
      Pairs-insert le keep x y (sort_by le xs) (sort_by le ys) h.0 (Pairs-sort_by le keep xs ys h.1)
