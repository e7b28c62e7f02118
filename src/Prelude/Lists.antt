-- ===== src/Prelude/Lists.antt =====
-- Lists measured and cut by native numbers, under the library's names.
use Prim.Native.Nat.{ℕ, zero, suc, ◌+◌, ◌-◌, ◌<◌, min}
use Prim.Native.Nat.add
use mathlib.Core.Path.{◌≡◌, refl, sym, ap, ◌∙◌}
use mathlib.Core.Option.{Option, none, some}
use mathlib.Core.List.{List, [], ◌∷◌, ◌++◌}
use native.Mathlib.Omega.{arith}

module _ {ℓ} {A : Type ℓ} where
  abbrev pub length : List A → ℕ
  length [] = 0
  length (x ∷ xs) = suc (length xs)

  abbrev pub get_elem? : List A → ℕ → Option A
  get_elem? [] i = none
  get_elem? (x ∷ xs) zero = some x
  get_elem? (x ∷ xs) (suc i) = get_elem? xs i

  abbrev pub get_or : List A → ℕ → A → A
  get_or [] i d = d
  get_or (x ∷ xs) zero d = x
  get_or (x ∷ xs) (suc i) d = get_or xs i d

  abbrev pub take : ℕ → List A → List A
  take zero xs = []
  take (suc n) [] = []
  take (suc n) (x ∷ xs) = x ∷ take n xs

  abbrev pub drop : ℕ → List A → List A
  drop zero xs = xs
  drop (suc n) [] = []
  drop (suc n) (x ∷ xs) = drop n xs

  abbrev pub All {κ} : (A → Type κ) → List A → Type κ
  All P [] = Unit {κ}
  All P (x ∷ xs) = P x × All P xs

  pub length-append : (xs ys : List A) → length (xs ++ ys) ≡ length xs + length ys
  length-append [] ys = omega arith
  length-append (x ∷ xs) ys = omega (arith, length-append xs ys)

  pub take-append-drop : (n : ℕ) (xs : List A) → take n xs ++ drop n xs ≡ xs
  take-append-drop zero xs = refl
  take-append-drop (suc n) [] = refl
  take-append-drop (suc n) (x ∷ xs) = rw (take-append-drop n xs)

  pub length-take : (n : ℕ) (xs : List A) → length (take n xs) ≡ min n (length xs)
  length-take zero xs = omega arith
  length-take (suc n) [] = omega arith
  length-take (suc n) (x ∷ xs) = omega (arith, length-take n xs)

  pub length-drop : (n : ℕ) (xs : List A) → length (drop n xs) ≡ length xs - n
  length-drop zero xs = omega arith
  length-drop (suc n) [] = omega arith
  length-drop (suc n) (x ∷ xs) = omega (arith, length-drop n xs)

  pub take-length_append : (xs ys : List A) → take (length xs) (xs ++ ys) ≡ xs
  take-length_append [] ys = refl
  take-length_append (x ∷ xs) ys = rw (take-length_append xs ys)

  pub drop-length_append : (xs ys : List A) → drop (length xs) (xs ++ ys) ≡ ys
  drop-length_append [] ys = refl
  drop-length_append (x ∷ xs) ys = drop-length_append xs ys

  pub drop-nil : (n : ℕ) → drop n [] ≡ []
  drop-nil zero = refl
  drop-nil (suc n) = refl

  pub drop-drop : (k n : ℕ) (xs : List A) → drop k (drop n xs) ≡ drop (n + k) xs
  drop-drop k zero xs = rw (add.zero k)
  drop-drop k (suc n) [] = rw (drop-nil k, drop-nil (suc n + k))
  drop-drop k (suc n) (x ∷ xs) = rw (add.suc n k) (drop-drop k n xs)

  pub All-append {κ} : (P : A → Type κ) (xs ys : List A) → All P xs → All P ys → All P (xs ++ ys)
  All-append P [] ys h k = k
  All-append P (x ∷ xs) ys h k = (h.0, All-append P xs ys h.1 k)

  pub All-weaken {κ ι} :
      (P : A → Type κ) (Q : A → Type ι) (xs : List A) → ((x : A) → P x → Q x) → All P xs → All Q xs
  All-weaken P Q [] f h = tt
  All-weaken P Q (x ∷ xs) f h = (f x h.0, All-weaken P Q xs f h.1)

  pub All-take {κ} : (P : A → Type κ) (n : ℕ) (xs : List A) → All P xs → All P (take n xs)
  All-take P zero xs h = tt
  All-take P (suc n) [] h = tt
  All-take P (suc n) (x ∷ xs) h = (h.0, All-take P n xs h.1)

  pub All-drop {κ} : (P : A → Type κ) (n : ℕ) (xs : List A) → All P xs → All P (drop n xs)
  All-drop P zero xs h = h
  All-drop P (suc n) [] h = tt
  All-drop P (suc n) (x ∷ xs) h = All-drop P n xs h.1

  -- The element at `p` heads what is left behind the first `p`.
  pub get_elem?-drop : (p : ℕ) (b xs : List A) {x : A} → drop p b ≡ x ∷ xs → get_elem? b p ≡ some x
  get_elem?-drop zero [] xs h = cc
  get_elem?-drop (suc p) [] xs h = cc
  get_elem?-drop zero (y ∷ b) xs h = cc
  get_elem?-drop (suc p) (y ∷ b) xs h = get_elem?-drop p b xs h

  pub drop-get_elem? :
      (p : ℕ) (b : List A) {x : A} → get_elem? b p ≡ some x → drop p b ≡ x ∷ drop (suc p) b
  drop-get_elem? p [] h = cc
  drop-get_elem? zero (y ∷ b) h = cc
  drop-get_elem? (suc p) (y ∷ b) h = drop-get_elem? p b h

  pub lt-get_elem? : (b : List A) (p : ℕ) {x : A} → get_elem? b p ≡ some x → p < length b
  lt-get_elem? [] p h = cc
  lt-get_elem? (y ∷ b) zero h = omega arith
  lt-get_elem? (y ∷ b) (suc p) h = omega (arith, lt-get_elem? b p h)

  -- Two equal concatenations whose fronts are equally long have equal fronts and equal rests.
  pub append_cut :
      (xs xs' ys ys' : List A)
      → length xs ≡ length xs'
      → xs ++ ys ≡ xs' ++ ys'
      → (xs ≡ xs') × (ys ≡ ys')
  append_cut [] [] ys ys' h e = (refl, e)
  append_cut [] (x ∷ xs) ys ys' h e = absurd (omega (arith, h))
  append_cut (x ∷ xs) [] ys ys' h e = absurd (omega (arith, h))
  append_cut (x ∷ xs) (x' ∷ xs') ys ys' h e =
      let tails : xs ++ ys ≡ xs' ++ ys' = cc in
      let heads : x ≡ x' = cc in
      let (front, rest) = append_cut xs xs' ys ys' (omega (arith, h)) tails in
      (rw (heads, front) refl, rest)

  -- Behind a part of k elements at position n the list goes on at n + k.
  pub drop_part :
      (n k : ℕ) (b part rest : List A)
      → length part ≡ k
      → drop n b ≡ part ++ rest
      → drop (n + k) b ≡ rest
  drop_part n k b part rest w e =
      sym (drop-drop k n b) ∙ ap (drop k) e ∙ rw (← w) (drop-length_append part rest)

  pub slice_part :
      (n k : ℕ) (b part rest : List A)
      → length part ≡ k
      → drop n b ≡ part ++ rest
      → take k (drop n b) ≡ part
  slice_part n k b part rest w e = ap (take k) e ∙ rw (← w) (take-length_append part rest)

  pub get_or_part : (n : ℕ) (d x : A) (b rest : List A) → drop n b ≡ x ∷ rest → get_or b n d ≡ x
  get_or_part zero d x [] rest e = cc
  get_or_part zero d x (y ∷ b) rest e = cc
  get_or_part (suc n) d x [] rest e = cc
  get_or_part (suc n) d x (y ∷ b) rest e = get_or_part n d x b rest e
