-- ===== src/Core/Sql/Keys.antt =====
-- A clause that at most one row satisfies, as a primary key does, in the statements of
-- crates/messenger-core/src/lib.rs.
use resilient_messenger.Prelude.{
  ℕ, ◌+◌, ◌++◌, ◌≡◌, refl, inl, inr, Bool, true, false, Bool-cases, List, [], ◌∷◌, Option, none,
  some, arith, if◌then◌else◌,
}
use resilient_messenger.Core.Sql.{
  exists_where-delete_where-false, update_where, delete_where, count_where, find_where,
  exists_where, exists_where-append, exists_where-update_where,
}

module _ {A : Type 0} where
  abbrev pub AtMostOne : (A → Bool) → List A → Type 0
  AtMostOne q [] = Unit
  AtMostOne q (x ∷ xs) = (q x ≡ true → exists_where q xs ≡ false) × AtMostOne q xs

  -- What UPDATE does to a row.
  abbrev pub updated : (A → Bool) → (A → A) → A → A
  updated p f x = if p x then f x else x

  abbrev pub updated? : (A → Bool) → (A → A) → Option A → Option A
  updated? p f none = none
  updated? p f (some x) = some (updated p f x)

  abbrev pub count_found : (A → Bool) → Option A → ℕ
  count_found p none = 0
  count_found p (some x) = if p x then 1 else 0

  pub find_where-update_where :
      (q p : A → Bool) (f : A → A) (xs : List A)
      → ((x : A) → q (f x) ≡ q x)
      → find_where q (update_where p f xs) ≡ updated? p f (find_where q xs)
  unfolding find_where update_where
  find_where-update_where q p f [] h = refl
  find_where-update_where q p f (x ∷ xs) h = ground (arith, h x, find_where-update_where q p f xs h)

  pub count_where_none :
      (q p : A → Bool) (xs : List A)
      → ((x : A) → p x ≡ true → q x ≡ true)
      → exists_where q xs ≡ false
      → count_where p xs ≡ 0
  unfolding count_where exists_where
  count_where_none q p [] sub h = refl
  count_where_none q p (x ∷ xs) sub h = ground (arith, sub x, count_where_none q p xs sub)

  pub count_where-find_where :
      (q p : A → Bool) (xs : List A)
      → ((x : A) → p x ≡ true → q x ≡ true)
      → AtMostOne q xs
      → count_where p xs ≡ count_found p (find_where q xs)
  unfolding count_where find_where
  count_where-find_where q p [] sub h = refl
  count_where-find_where q p (x ∷ xs) sub h =
      ground (arith, sub x, h.0, count_where_none q p xs sub, count_where-find_where q p xs sub h.1)

  -- A row is found if one exists.
  pub exists_where-find_where-none :
      (q : A → Bool) (xs : List A) → find_where q xs ≡ none → exists_where q xs ≡ false
  unfolding find_where exists_where
  exists_where-find_where-none q [] h = refl
  exists_where-find_where-none q (x ∷ xs) h = ground (arith, exists_where-find_where-none q xs)

  pub exists_where-find_where-some :
      (q : A → Bool) (xs : List A) {x : A} → find_where q xs ≡ some x → exists_where q xs ≡ true
  unfolding find_where exists_where
  exists_where-find_where-some q [] h = ground arith
  exists_where-find_where-some q (y ∷ xs) h = elim (Bool-cases (q y)) [
    | inl e ↦ ground arith
    | inr e ↦
        let g : find_where q xs ≡ some _ = rw e at h in
        rw (e, exists_where-find_where-some q xs g) refl
  ]

  pub find_where_holds :
      (q : A → Bool) (xs : List A) {x : A} → find_where q xs ≡ some x → q x ≡ true
  unfolding find_where
  find_where_holds q [] h = ground arith
  find_where_holds q (y ∷ xs) h = elim (Bool-cases (q y)) [
    | inl e ↦ (let same : some y ≡ some _ = rw e at h in ground arith)
    | inr e ↦ let g : find_where q xs ≡ some _ = rw e at h in find_where_holds q xs g
  ]

  -- An update that no row meets changes nothing.
  pub update_where_none :
      (p : A → Bool) (f : A → A) (xs : List A) → count_where p xs ≡ 0 → update_where p f xs ≡ xs
  unfolding update_where count_where
  update_where_none p f [] h = refl
  update_where_none p f (x ∷ xs) h = ground (arith, update_where_none p f xs)

  -- After an update that ends its own clause, no row meets the clause.
  pub count_where-update_where :
      (p : A → Bool) (f : A → A) (xs : List A)
      → ((x : A) → p (f x) ≡ false)
      → count_where p (update_where p f xs) ≡ 0
  unfolding update_where count_where
  count_where-update_where p f [] h = refl
  count_where-update_where p f (x ∷ xs) h = ground (arith, h x, count_where-update_where p f xs h)

  pub delete_where_absent :
      (p : A → Bool) (xs : List A) → exists_where p xs ≡ false → delete_where p xs ≡ xs
  unfolding delete_where exists_where
  delete_where_absent p [] h = refl
  delete_where_absent p (x ∷ xs) h = ground (arith, delete_where_absent p xs)

  count_where_absent :
      (q : A → Bool) (xs : List A) → exists_where q xs ≡ false → count_where q xs ≡ 0
  count_where_absent q xs h = count_where_none q q xs (λ x e. e) h

  -- If the one row of `q` also satisfies the narrower `p`, then updating by either is the same.
  pub update_where_narrow :
      (q p : A → Bool) (f : A → A) (xs : List A) {x : A}
      → ((y : A) → p y ≡ true → q y ≡ true)
      → AtMostOne q xs
      → find_where q xs ≡ some x
      → p x ≡ true
      → update_where p f xs ≡ update_where q f xs
  unfolding find_where update_where
  update_where_narrow q p f [] sub h at_x e = refl
  update_where_narrow q p f (y ∷ xs) {x = x} sub h at_x e = elim (Bool-cases (q y)) [
    | inl k ↦
        let same : some y ≡ some x = rw k at at_x in
        let yx : y ≡ x = ground arith in
        let py : p y ≡ true = rw yx e in
        rw
          (
            k,
            py,
            update_where_none p f xs (count_where_none q p xs sub (h.0 k)),
            update_where_none q f xs (count_where_absent q xs (h.0 k)),
          )
          refl
    | inr k ↦
        let there : find_where q xs ≡ some x = rw k at at_x in
        ground (arith, sub y, update_where_narrow q p f xs sub h.1 there e)
  ]

  pub find_where-append_new :
      (q : A → Bool) (xs : List A) (x : A)
      → exists_where q xs ≡ false
      → q x ≡ true
      → find_where q (xs ++ x ∷ []) ≡ some x
  unfolding find_where exists_where
  find_where-append_new q [] x h e = rw e refl
  find_where-append_new q (y ∷ xs) x h e = ground (arith, find_where-append_new q xs x)

  -- The only row that a narrower clause can find is the new one.
  pub find_where-append_only :
      (p q : A → Bool) (xs : List A) (x : A)
      → ((y : A) → p y ≡ true → q y ≡ true)
      → exists_where q xs ≡ false
      → find_where p (xs ++ x ∷ []) ≡ (if p x then some x else none)
  unfolding find_where exists_where
  find_where-append_only p q [] x sub h = refl
  find_where-append_only p q (y ∷ xs) x sub h =
      ground (arith, sub y, find_where-append_only p q xs x sub)

  pub exists_where_narrow :
      (p q : A → Bool) (xs : List A)
      → ((y : A) → p y ≡ true → q y ≡ true)
      → exists_where q xs ≡ false
      → exists_where p xs ≡ false
  unfolding exists_where
  exists_where_narrow p q [] sub h = refl
  exists_where_narrow p q (y ∷ xs) sub h = ground (arith, sub y, exists_where_narrow p q xs sub)

  pub update_where_absent :
      (p : A → Bool) (f : A → A) (xs : List A)
      → exists_where p xs ≡ false
      → update_where p f xs ≡ xs
  unfolding update_where exists_where
  update_where_absent p f [] h = refl
  update_where_absent p f (x ∷ xs) h = ground (arith, update_where_absent p f xs)

  pub update_where-append :
      (p : A → Bool) (f : A → A) (xs ys : List A)
      → update_where p f (xs ++ ys) ≡ update_where p f xs ++ update_where p f ys
  unfolding update_where
  update_where-append p f [] ys = refl
  update_where-append p f (x ∷ xs) ys = rw (update_where-append p f xs ys) refl

  pub count_where-append_one :
      (p : A → Bool) (xs : List A) (x : A)
      → count_where p (xs ++ x ∷ []) ≡ count_where p xs + (if p x then 1 else 0)
  unfolding count_where
  count_where-append_one p [] x = ground arith
  count_where-append_one p (y ∷ xs) x = ground (arith, count_where-append_one p xs x)

  pub find_where-append :
      (q : A → Bool) (xs ys : List A) {x : A}
      → find_where q xs ≡ some x
      → find_where q (xs ++ ys) ≡ some x
  unfolding find_where
  find_where-append q [] ys h = ground arith
  find_where-append q (y ∷ xs) ys {x = x} h = ground (arith, find_where-append q xs ys {x = x})

  -- With a primary key, the row of a narrower clause is the row of the key.
  pub find_where_keyed :
      (q p : A → Bool) (xs : List A) (x : A)
      → ((y : A) → p y ≡ true → q y ≡ true)
      → AtMostOne q xs
      → find_where p xs ≡ some x
      → find_where q xs ≡ some x
  unfolding find_where
  find_where_keyed q p [] x sub one e = ground arith
  find_where_keyed q p (y ∷ xs) x sub one e = elim (Bool-cases (p y)) [
    | inl here ↦ ground (arith, sub y)
    | inr there ↦
        (let later : find_where p xs ≡ some x = rw there at e in
          let found = exists_where-find_where-some p xs later in
          elim (Bool-cases (q y)) [
            | inl k ↦ (let none_left = exists_where_narrow p q xs sub (one.0 k) in ground arith)
            | inr k ↦ rw k (find_where_keyed q p xs x sub one.1 later)
          ])
  ]

  -- Keys stay unique under a new row with a new key, and under an update that keeps the key.
  pub AtMostOne-append_new :
      (q : A → Bool) (xs : List A) (x : A)
      → (q x ≡ true → exists_where q xs ≡ false)
      → AtMostOne q xs
      → AtMostOne q (xs ++ x ∷ [])
  unfolding exists_where
  AtMostOne-append_new q [] x new one = ((λ e. refl), tt)
  AtMostOne-append_new q (y ∷ xs) x new one = (
    λ e. ground (arith, new, one.0, exists_where-append q xs (x ∷ [])),
    AtMostOne-append_new q xs x (λ e. ground (arith, new)) one.1,
  )

  pub AtMostOne-update_where :
      (q p : A → Bool) (f : A → A) (xs : List A)
      → ((y : A) → q (f y) ≡ q y)
      → AtMostOne q xs
      → AtMostOne q (update_where p f xs)
  unfolding update_where
  AtMostOne-update_where q p f [] same one = tt
  AtMostOne-update_where q p f (y ∷ xs) same one = (
    λ e. ground (arith, same y, one.0, exists_where-update_where q p f xs same),
    AtMostOne-update_where q p f xs same one.1,
  )

  pub AtMostOne-delete_where :
      (q p : A → Bool) (xs : List A) → AtMostOne q xs → AtMostOne q (delete_where p xs)
  unfolding delete_where
  AtMostOne-delete_where q p [] h = tt
  AtMostOne-delete_where q p (x ∷ xs) h = elim (Bool-cases (p x)) [
    | inl gone ↦ rw gone (AtMostOne-delete_where q p xs h.1)
    | inr kept ↦
        rw kept
          (λ e. exists_where-delete_where-false q p xs (h.0 e), AtMostOne-delete_where q p xs h.1)
  ]
