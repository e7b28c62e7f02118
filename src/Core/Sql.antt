-- ===== src/Core/Sql.antt =====
-- The statements of crates/messenger-core/src/lib.rs on one table: UPDATE, DELETE and SELECT with a
-- WHERE clause, and the number of rows that a statement changes.
pub mod Keys
use resilient_messenger.Prelude.{
  ℕ, zero, suc, ◌+◌, ◌≡◌, refl, Bool, true, false, not, ◌||◌, List, [], ◌∷◌, ◌++◌, Option, none,
  some, Result, ok, err, ◌>>=◌, if◌then◌else◌, arith, Bool-cases, inl, inr, All, Pairs,
}

module _ {A : Type 0} where
  -- UPDATE … SET f WHERE p
  unfoldable pub update_where : (A → Bool) → (A → A) → List A → List A
  update_where p f [] = []
  update_where p f (x ∷ xs) = (if p x then f x else x) ∷ update_where p f xs

  -- DELETE … WHERE p
  unfoldable pub delete_where : (A → Bool) → List A → List A
  delete_where p [] = []
  delete_where p (x ∷ xs) = let rest = delete_where p xs in if p x then rest else x ∷ rest

  -- SELECT … WHERE p
  unfoldable pub select_where : (A → Bool) → List A → List A
  select_where p [] = []
  select_where p (x ∷ xs) = let rest = select_where p xs in if p x then x ∷ rest else rest

  -- The number of rows that a statement with WHERE p changes.
  unfoldable pub count_where : (A → Bool) → List A → ℕ
  count_where p [] = 0
  count_where p (x ∷ xs) = let rest = count_where p xs in if p x then suc rest else rest

  -- The first row, of `query_row`.
  unfoldable pub find_where : (A → Bool) → List A → Option A
  find_where p [] = none
  find_where p (x ∷ xs) = let rest = find_where p xs in if p x then some x else rest

  -- SELECT EXISTS(…)
  unfoldable pub exists_where : (A → Bool) → List A → Bool
  exists_where p [] = false
  exists_where p (x ∷ xs) = p x || exists_where p xs

  pub delete_where_none : (p : A → Bool) (xs : List A) → exists_where p (delete_where p xs) ≡ false
  unfolding delete_where exists_where
  delete_where_none p [] = refl
  delete_where_none p (x ∷ xs) = ground (arith, delete_where_none p xs)

  pub All-delete_where {κ} :
      (P : A → Type κ) (p : A → Bool) (xs : List A) → All P xs → All P (delete_where p xs)
  unfolding delete_where
  All-delete_where P p [] h = tt
  All-delete_where P p (x ∷ xs) h = elim (Bool-cases (p x)) [
    | inl e ↦ rw e (All-delete_where P p xs h.1)
    | inr e ↦ rw e (h.0, All-delete_where P p xs h.1)
  ]

  -- The rows that are left did not satisfy the clause.
  pub All-delete_where_left {κ ι} :
      (P : A → Type κ) (Q : A → Type ι) (p : A → Bool) (xs : List A)
      → ((x : A) → p x ≡ false → P x → Q x)
      → All P xs
      → All Q (delete_where p xs)
  unfolding delete_where
  All-delete_where_left P Q p [] f h = tt
  All-delete_where_left P Q p (x ∷ xs) f h = elim (Bool-cases (p x)) [
    | inl e ↦ rw e (All-delete_where_left P Q p xs f h.1)
    | inr e ↦ rw e (f x e h.0, All-delete_where_left P Q p xs f h.1)
  ]

  pub All-select_where {κ} :
      (P : A → Type κ) (p : A → Bool) (xs : List A) → All P xs → All P (select_where p xs)
  unfolding select_where
  All-select_where P p [] h = tt
  All-select_where P p (x ∷ xs) h = elim (Bool-cases (p x)) [
    | inl e ↦ rw e (h.0, All-select_where P p xs h.1)
    | inr e ↦ rw e (All-select_where P p xs h.1)
  ]

  pub select_where_same :
      (p q : A → Bool) (xs : List A) → ((x : A) → p x ≡ q x) → select_where p xs ≡ select_where q xs
  unfolding select_where
  select_where_same p q [] h = refl
  select_where_same p q (x ∷ xs) h = rw (h x, select_where_same p q xs h) refl

  pub exists_where-append :
      (p : A → Bool) (xs ys : List A)
      → exists_where p (xs ++ ys) ≡ (exists_where p xs || exists_where p ys)
  unfolding exists_where
  exists_where-append p [] ys = refl
  exists_where-append p (x ∷ xs) ys = ground (arith, exists_where-append p xs ys)

  pub exists_where-delete_where-false :
      (q p : A → Bool) (xs : List A)
      → exists_where q xs ≡ false
      → exists_where q (delete_where p xs) ≡ false
  unfolding exists_where delete_where
  exists_where-delete_where-false q p [] h = refl
  exists_where-delete_where-false q p (x ∷ xs) h =
      ground (arith, exists_where-delete_where-false q p xs)

  -- An update that keeps what `q` tests.
  pub exists_where-update_where :
      (q p : A → Bool) (f : A → A) (xs : List A)
      → ((x : A) → q (f x) ≡ q x)
      → exists_where q (update_where p f xs) ≡ exists_where q xs
  unfolding exists_where update_where
  exists_where-update_where q p f [] h = refl
  exists_where-update_where q p f (x ∷ xs) h =
      ground (arith, h x, exists_where-update_where q p f xs h)

  -- An update after which still no row satisfies `q`.
  pub exists_where-update_where-false :
      (q p : A → Bool) (f : A → A) (xs : List A)
      → ((x : A) → q x ≡ false → p x ≡ true → q (f x) ≡ false)
      → exists_where q xs ≡ false
      → exists_where q (update_where p f xs) ≡ false
  unfolding exists_where update_where
  exists_where-update_where-false q p f [] g h = refl
  exists_where-update_where-false q p f (x ∷ xs) g h =
      ground (arith, g x, exists_where-update_where-false q p f xs g)

  pub All-update_where {κ} :
      (P : A → Type κ) (p : A → Bool) (f : A → A) (xs : List A)
      → ((x : A) → p x ≡ true → P x → P (f x))
      → All P xs
      → All P (update_where p f xs)
  unfolding update_where
  All-update_where P p f [] g h = tt
  All-update_where P p f (x ∷ xs) g h = elim (Bool-cases (p x)) [
    | inl e ↦ rw e (g x e h.0, All-update_where P p f xs g h.1)
    | inr e ↦ rw e (h.0, All-update_where P p f xs g h.1)
  ]

-- `rows.map(f).collect()` into a result: the first error ends it.
unfoldable pub collect : {E A B : Type 0} → (A → Result E B) → List A → Result E (List B)
collect f [] = ok []
collect f (x ∷ xs) = do y ← f x; ys ← collect f xs; ok (y ∷ ys)

module _ {A : Type 0} (R : A → A → Type 0) where
  pub Pairs-select_where :
      (p : A → Bool)
      → ((x y : A) → R x y → p x ≡ p y)
      → (xs ys : List A) → Pairs R xs ys
      → Pairs R (select_where p xs) (select_where p ys)
  unfolding select_where
  Pairs-select_where p keep [] [] h = tt
  Pairs-select_where p keep [] (y ∷ ys) h = absurd h
  Pairs-select_where p keep (x ∷ xs) [] h = absurd h
  Pairs-select_where p keep (x ∷ xs) (y ∷ ys) h = rw (← keep x y h.0) (elim (Bool-cases (p x)) [
    | inl e ↦ rw e (h.0, Pairs-select_where p keep xs ys h.1)
    | inr e ↦ rw e (Pairs-select_where p keep xs ys h.1)
  ])

  -- Rows that read alike are collected alike.
  pub collect-Pairs :
      {E B : Type 0} (f g : A → Result E B)
      → ((x y : A) → R x y → f x ≡ g y)
      → (xs ys : List A) → Pairs R xs ys
      → collect f xs ≡ collect g ys
  unfolding collect
  collect-Pairs f g keep [] [] h = refl
  collect-Pairs f g keep [] (y ∷ ys) h = absurd h
  collect-Pairs f g keep (x ∷ xs) [] h = absurd h
  collect-Pairs f g keep (x ∷ xs) (y ∷ ys) h =
      rw (keep x y h.0, collect-Pairs f g keep xs ys h.1) refl
