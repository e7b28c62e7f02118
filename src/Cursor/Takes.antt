-- ===== src/Cursor/Takes.antt =====
-- The converse of `Cursor.Reads`: what a successful parser must have taken off its input.
use resilient_messenger.Prelude.{
  ℕ, zero, suc, ◌+◌, ◌^◌, ◌≡◌, refl, sym, ap, ◌∙◌, subst, inl, inr, Bool, true, false, ltb, leb,
  ◌==◌, ==_iff, Bool-cases, Option-cases, some, Result, ok, err, [], ◌∷◌, ◌++◌, append_assoc, Bytes,
  IsBytes, IsByte, All-take, All-drop, length, length-take, length-drop, take-append-drop, drop,
  drop-drop, drop-get_elem?, get_elem?, arith, take as take_list,
}
use resilient_messenger.Cursor.{
  Cursor, Parser, ◌>>=◌, ◌>>◌, continue, pure, fail, require, lift, finish, next_byte, take,
}

-- A run of the parser to a value took some bytes off the front that fit the value.
pub record Takes {E A : Type 0} (m : Parser E A) (R : A → Bytes → Type 0) : Type 0 where
  pub at :
      (d : Cursor) (v : A) (d' : Cursor)
      → IsBytes d.b
      → m d ≡ ok (v, d')
      → (xs : Bytes) × (d'.b ≡ d.b) × (drop d.p d.b ≡ xs ++ drop d'.p d'.b) × R v xs

-- A run of the parser to a value took all that was left, and it fits the value.
pub record Ends {E A : Type 0} (m : Parser E A) (P : A → Bytes → Type 0) : Type 0 where
  pub at : (d : Cursor) (v : A) (d' : Cursor) → IsBytes d.b → m d ≡ ok (v, d') → P v (drop d.p d.b)

ok_parts :
    {E A : Type 0} (a v : A) (d d' : Cursor)
    → ◌≡◌ {A = Result E (A × Cursor)} (ok (a, d)) (ok (v, d'))
    → (a ≡ v) × (d ≡ d')
ok_parts a v d d' e = (cc, cc)

pub err_ne_ok : {E A : Type 0} {x : E} {a : A} → ◌≡◌ {A = Result E A} (err x) (ok a) → ⊥
err_ne_ok e = cc

empty_of_length : (xs : Bytes) → length xs ≡ 0 → xs ≡ []
empty_of_length [] h = refl
empty_of_length (x ∷ xs) h = absurd (omega arith)

continue-eq-ok :
    {E A B : Type 0} (f : A → Parser E B) (r : Result E (A × Cursor)) (v : B) (d' : Cursor)
    → continue f r ≡ ok (v, d')
    → (a : A) × (d1 : Cursor) × (r ≡ ok (a, d1)) × (f a d1 ≡ ok (v, d'))
continue-eq-ok f (ok (a, d1)) v d' e = (a, d1, refl, e)
continue-eq-ok f (err x) v d' e = cc

module _ {E A B : Type 0} where
  pub Takes-bind :
      (m : Parser E A) (f : A → Parser E B) (R : A → Bytes → Type 0) (P : B → Bytes → Type 0)
      → Takes m R
      → ((a : A) (xs : Bytes) → R a xs → Takes (f a) (λ v ys. P v (xs ++ ys)))
      → Takes (m >>= f) P
  unfolding ◌>>=◌
  Takes-bind m f R P hm hf = record {
    at = λ d v d' bs e.
        let (a, d1, e1, e2) = continue-eq-ok f (m d) v d' e in
        let (xs, same1, cut1, r) = hm.at d a d1 bs e1 in
        let (ys, same2, cut2, q) = (hf a xs r).at d1 v d' (subst IsBytes (sym same1) bs) e2 in
        (
          xs ++ ys,
          same2 ∙ same1,
          cut1 ∙ ap (λ k. xs ++ k) cut2 ∙ sym (append_assoc xs ys (drop d'.p d'.b)),
          q,
        );
  }

  pub Ends-bind :
      (m : Parser E A) (f : A → Parser E B) (R : A → Bytes → Type 0) (P : B → Bytes → Type 0)
      → Takes m R
      → ((a : A) (xs : Bytes) → R a xs → Ends (f a) (λ v ys. P v (xs ++ ys)))
      → Ends (m >>= f) P
  unfolding ◌>>=◌
  Ends-bind m f R P hm hf = record {
    at = λ d v d' bs e.
        let (a, d1, e1, e2) = continue-eq-ok f (m d) v d' e in
        let (xs, same1, cut1, r) = hm.at d a d1 bs e1 in
        subst (P v) (sym cut1) ((hf a xs r).at d1 v d' (subst IsBytes (sym same1) bs) e2);
  }

module _ {E A : Type 0} where
  pub Takes-weaken :
      (m : Parser E A) (R S : A → Bytes → Type 0)
      → Takes m R
      → ((v : A) (xs : Bytes) → R v xs → S v xs)
      → Takes m S
  Takes-weaken m R S h sub = record {
    at = λ d v d' bs e. let (xs, same, cut, r) = h.at d v d' bs e in (xs, same, cut, sub v xs r);
  }

  pub Takes-pure : (a : A) (R : A → Bytes → Type 0) → R a [] → Takes {E = E} (pure a) R
  unfolding pure
  Takes-pure a R h = record {
    at = λ d v d' bs e.
        let (same, stay) = ok_parts a v d d' e in
        (
          [],
          ap (λ (k : Cursor). k.b) (sym stay),
          ap (λ (k : Cursor). drop k.p k.b) stay,
          subst (λ k. R k []) same h,
        );
  }

  pub Takes-fail : (x : E) (R : A → Bytes → Type 0) → Takes (fail x) R
  unfolding fail
  Takes-fail x R = record { at = λ d v d' bs e. cc }

  pub Takes-lift : (r : Result E A) → Takes (lift r) (λ a xs. (xs ≡ []) × (r ≡ ok a))
  unfolding lift
  Takes-lift (ok a) = unfold pure in Takes-pure a _ (refl, refl)
  Takes-lift (err x) = record { at = λ d v d' bs e. cc }

  pub Ends-finish : (x : E) (v : A) (P : A → Bytes → Type 0) → P v [] → Ends (finish x >> pure v) P
  unfolding ◌>>=◌ finish pure
  Ends-finish x v P h = record {
    at = λ d w d' bs e. elim (Bool-cases (d.p == length d.b)) [
      | inl stop ↦
          let (same, _) = ok_parts v w d d' (rw stop at e) in
          let none_left : drop d.p d.b ≡ [] =
            empty_of_length (drop d.p d.b)
              (omega (arith, length-drop d.p d.b, (==_iff d.p (length d.b)).0 stop)) in
          rw none_left (subst (λ k. P k []) same h)
      | inr more ↦ absurd (err_ne_ok (rw more at e))
    ];
  }

pub Takes-require :
    {E : Type 0} (b : Bool) (x : E) → Takes (require b x) (λ _ xs. (xs ≡ []) × (b ≡ true))
unfolding require
Takes-require true x = unfold pure in Takes-pure tt _ (refl, refl)
Takes-require false x = record { at = λ d v d' bs e. cc }

IsByte-get_elem? : (b : Bytes) (p x : ℕ) → IsBytes b → get_elem? b p ≡ some x → IsByte x
IsByte-get_elem? [] p x h e = cc
IsByte-get_elem? (y ∷ b) zero x h e = ground arith
IsByte-get_elem? (y ∷ b) (suc p) x h e = IsByte-get_elem? b p x h.1 e

pub Takes-next_byte : {E : Type 0} (e : E) → Takes (next_byte e) (λ x xs. (xs ≡ x ∷ []) × IsByte x)
unfolding next_byte
Takes-next_byte _ = record {
  at = λ d v d' bs e. elim (Option-cases (get_elem? d.b d.p)) [
    | inl out ↦ absurd (err_ne_ok (rw (out, next_byte) at e))
    | inr (x, found) ↦
        let next : suc d.p ≡ d.p + 1 = omega arith in
        let (same, moved) =
          ok_parts x v (record d { p = d.p + 1 }) d' (rw (found, next_byte) at e) in
        (
          v ∷ [],
          ap (λ (k : Cursor). k.b) (sym moved),
          rw (← moved, ← same) (drop-get_elem? d.p d.b found ∙ ap (λ k. x ∷ drop k d.b) next),
          (refl, subst IsByte same (IsByte-get_elem? d.b d.p x bs found)),
        )
  ];
}

pub Takes-take :
    {E : Type 0} (x : E) (n : ℕ) → Takes (take x n) (λ r xs. (xs ≡ r) × (length r ≡ n) × IsBytes r)
unfolding take
Takes-take _ n = record {
  at = λ d v d' bs e. elim (Bool-cases (leb (2 ^ 64) (d.p + n))) [
    | inl wide ↦ absurd (err_ne_ok (rw wide at e))
    | inr fits ↦ elim (Bool-cases (ltb (length d.b) (d.p + n))) [
      | inl short ↦ absurd (err_ne_ok (rw (fits, short) at e))
      | inr long ↦
          let r = take_list n (drop d.p d.b) in
          let (same, moved) = ok_parts r v (record d { p = d.p + n }) d' (rw (fits, long) at e) in
          (
            v,
            ap (λ (k : Cursor). k.b) (sym moved),
            rw (← moved, ← same)
                (sym (take-append-drop n (drop d.p d.b)) ∙ ap (λ k. r ++ k) (drop-drop n d.p d.b)),
            (
              refl,
              rw (← same) (ground (arith, length-take n (drop d.p d.b), length-drop d.p d.b)),
              subst IsBytes same (All-take IsByte n (drop d.p d.b) (All-drop IsByte d.p d.b bs)),
            ),
          )
    ]
  ];
}
