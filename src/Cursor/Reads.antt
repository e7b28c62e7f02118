-- ===== src/Cursor/Reads.antt =====
-- What a parser of `Cursor` reads: the bytes that it takes off the front and the value
-- that it returns, with a rule for each way to build a parser.
use resilient_messenger.Prelude.{
  ℕ, ◌+◌, ◌-◌, ◌≤◌, ◌<◌, ◌^◌, ◌≡◌, refl, sym, ap, ◌∙◌, Bool, true, false, ◌==◌, [], ◌∷◌, ◌++◌,
  append_assoc, Bytes, length, length-append, length-drop, take-length_append, drop-length_append,
  drop-drop, drop, get_elem?-drop, lt-get_elem?, ok, arith, Result, err,
}
use resilient_messenger.Cursor.{
  Cursor, new, Parser, ◌>>=◌, pure, require, lift, next_byte, take, finish, continue, value, ◌>>◌,
}

-- The decoder stands before the bytes `s`, which end its input.
pub record At (d : Cursor) (s : Bytes) : Type 0 where
  pub rest : drop d.p d.b ≡ s
  pub within : d.p ≤ length d.b
  pub small : length d.b < 2 ^ 64

-- Before `xs` the parser takes them off and returns `v`, whatever follows.
pub record Reads {E A : Type 0} (m : Parser E A) (v : A) (xs : Bytes) : Type 0 where
  pub at : (d : Cursor) (s : Bytes) → At d (xs ++ s) → (d' : Cursor) × (m d ≡ ok (v, d')) × At d' s

module _ {E A B : Type 0} where
  pub Reads-bind :
      (m : Parser E A) (f : A → Parser E B) (a : A) (v : B) (xs ys : Bytes)
      → Reads m a xs
      → Reads (f a) v ys
      → Reads (m >>= f) v (xs ++ ys)
  unfolding ◌>>=◌
  Reads-bind m f a v xs ys hm hf = record {
    at = λ d s h.
        let (d1, e1, h1) = hm.at d (ys ++ s) (rw append_assoc at h) in
        let (d2, e2, h2) = hf.at d1 s h1 in (d2, ap (continue f) e1 ∙ e2, h2);
  }

module _ {E A : Type 0} where
  pub Reads-pure : (v : A) → Reads {E = E} (pure v) v []
  unfolding pure
  Reads-pure v = record { at = λ d s h. (d, refl, h) }

  pub Reads-pure_eq : (v w : A) → v ≡ w → Reads {E = E} (pure v) w []
  Reads-pure_eq v w e = rw e (Reads-pure w)

  pub Reads-lift : (r : Result E A) (v : A) → r ≡ ok v → Reads (lift r) v []
  unfolding lift
  Reads-lift r v e = rw e (record { at = λ d s h. (d, refl, h) })

pub Reads-require : {E : Type 0} (b : Bool) (e : E) → b ≡ true → Reads (require b e) tt []
unfolding require
Reads-require b e h = rw h (record { at = λ d s h. (d, refl, h) })

pub Reads-next_byte : {E : Type 0} (e : E) (x : ℕ) → Reads (next_byte e) x (x ∷ [])
unfolding next_byte
Reads-next_byte e x = record {
  at = λ d s h.
      let found = get_elem?-drop d.p d.b s h.rest in
      (
        record d { p = d.p + 1 },
        rw (found, next_byte) refl,
        record {
          rest = sym (drop-drop 1 d.p d.b) ∙ ap (drop 1) h.rest;
          within = omega (arith, lt-get_elem? d.b d.p found);
          small = h.small;
        },
      );
}

pub Reads-take : {E : Type 0} (e : E) (xs : Bytes) → Reads (take e (length xs)) xs xs
unfolding take
Reads-take e xs = record {
  at = λ d s h.
      let long : length xs + length s ≡ length d.b - d.p =
        sym (length-append xs s) ∙ sym (ap length h.rest) ∙ length-drop d.p d.b in
      let end = d.p + length xs in
      (
        record d { p = end },
        rw h.rest (rw (take-length_append xs s) (ground arith)),
        record {
          rest =
              sym (drop-drop (length xs) d.p d.b)
              ∙ ap (drop (length xs)) h.rest
              ∙ drop-length_append xs s;
          within = omega arith;
          small = h.small;
        },
      );
}

pub At-finish : {E : Type 0} (e : E) (d : Cursor) → At d [] → finish e d ≡ ok (tt, d)
unfolding finish
At-finish _ d h = let none_left = sym (length-drop d.p d.b) ∙ ap length h.rest in ground arith

-- With `xs` as the rest of its input the parser ends with the result `r`.
pub record Runs {E A : Type 0} (m : Parser E A) (r : Result E A) (xs : Bytes) : Type 0 where
  pub at : (d : Cursor) → At d xs → value (m d) ≡ r

module _ {E A B : Type 0} where
  pub Runs-bind :
      (m : Parser E A) (f : A → Parser E B) (a : A) (r : Result E B) (xs ys : Bytes)
      → Reads m a xs
      → Runs (f a) r ys
      → Runs (m >>= f) r (xs ++ ys)
  unfolding ◌>>=◌
  Runs-bind m f a r xs ys hm hf = record {
    at = λ d h. let (d1, e1, h1) = hm.at d ys h in ap (λ x. value (continue f x)) e1 ∙ hf.at d1 h1;
  }

module _ {E A : Type 0} where
  pub Runs-finish : (x : E) (v : A) → Runs (finish x >> pure v) (ok v) []
  unfolding ◌>>=◌ pure
  Runs-finish x v = record {
    at = λ d h. ap (λ y. value (continue (λ _. pure v) y)) (At-finish x d h);
  }

  pub Runs-finish_trailing :
      (e : E) (v : A) (x : ℕ) (xs : Bytes) → Runs (finish e >> pure v) (err e) (x ∷ xs)
  unfolding ◌>>=◌ finish
  Runs-finish_trailing e v x xs = record {
    at = λ d h.
        let left = sym (length-drop d.p d.b) ∙ ap length h.rest in
        let stopped : d.p == length d.b ≡ false = ground arith in rw stopped refl;
  }

  pub Runs-require :
      (b : Bool) (e : E) (m : Parser E A) (r : Result E A) (xs : Bytes)
      → b ≡ true
      → Runs m r xs
      → Runs (require b e >> m) r xs
  Runs-require b e m r xs h hm = Runs-bind (require b e) _ tt r [] xs (Reads-require b e h) hm

  pub Runs-require_fails :
      (b : Bool) (e : E) (m : Parser E A) (xs : Bytes)
      → b ≡ false
      → Runs (require b e >> m) (err e) xs
  unfolding ◌>>=◌ require
  Runs-require_fails b e m xs h = rw h (record { at = λ d s. refl })

-- The reader that `new` makes stands before the whole input.
pub At-new : (b : Bytes) → length b < 2 ^ 64 → At (new b) b
At-new b h = record { rest = refl; within = omega arith; small = h }
