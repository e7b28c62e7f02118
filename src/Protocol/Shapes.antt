-- ===== src/Protocol/Shapes.antt =====
-- The head of a CBOR item and the fields, backwards: what `Decoder` accepted, `Encoder` writes.
use resilient_messenger.Prelude.{
  ℕ, ◌/◌, ◌%◌, ◌<◌, ◌^◌, ◌≡◌, refl, sym, ap, ◌∙◌, ◌⊎◌, inl, inr, Bool, true, false, ltb, ◌==◌, ◌&&◌,
  if◌then◌else◌, ==_iff, [], ◌∷◌, ◌++◌, append-nil, Bytes, IsBytes, IsByte, length, be16, be32,
  from_be, get_or, low_five, pack_parts, arith,
}
use resilient_messenger.Protocol.{IsMessageId}
use resilient_messenger.Protocol.Encoder
use resilient_messenger.Protocol.Encoder.{initial_byte, major}
use resilient_messenger.Protocol.Decoder
use resilient_messenger.Protocol.Decoder.{argument, is_overlong, head}
use resilient_messenger.Cursor.{Parser, next_byte, take}
use resilient_messenger.Protocol.{Error, truncated}
use resilient_messenger.Cursor.Takes.{
  Takes, Takes-bind, Takes-weaken, Takes-pure, Takes-fail, Takes-next_byte, Takes-take,
}

Takes-if :
    {A : Type 0} (b : Bool) (m n : Parser Error A) (R : A → Bytes → Type 0)
    → (b ≡ true → Takes m R)
    → (b ≡ false → Takes n R)
    → Takes (if b then m else n) R
Takes-if true m n R hm hn = hm refl
Takes-if false m n R hm hn = hn refl

-- The argument bytes that stand behind a first byte with the low part `a`.
abbrev Argument : ℕ → ℕ → Bytes → Type 0
Argument a n xs =
    ((a < 24) × (a ≡ n) × (xs ≡ []))
    ⊎ ((a ≡ 24) × (n < 2 ^ 8) × (xs ≡ n ∷ []))
    ⊎ ((a ≡ 25) × (n < 2 ^ 16) × (xs ≡ be16 n))
    ⊎ ((a ≡ 26) × (n < 2 ^ 32) × (xs ≡ be32 n))

one_byte : (r : Bytes) → length r ≡ 1 → IsBytes r → (get_or r 0 0 < 2 ^ 8) × (r ≡ get_or r 0 0 ∷ [])
one_byte [] h bs = absurd (omega arith)
one_byte (a ∷ []) h bs = (bs.0, refl)
one_byte (a ∷ b ∷ r) h bs = absurd (omega arith)

two_bytes : (r : Bytes) → length r ≡ 2 → IsBytes r → (from_be r < 2 ^ 16) × (r ≡ be16 (from_be r))
two_bytes [] h bs = absurd (omega arith)
two_bytes (a ∷ []) h bs = absurd (omega arith)
two_bytes (a ∷ b ∷ []) h bs = (omega arith, ground arith)
two_bytes (a ∷ b ∷ c ∷ r) h bs = absurd (omega arith)

four_bytes : (r : Bytes) → length r ≡ 4 → IsBytes r → (from_be r < 2 ^ 32) × (r ≡ be32 (from_be r))
four_bytes [] h bs = absurd (omega arith)
four_bytes (a ∷ []) h bs = absurd (omega arith)
four_bytes (a ∷ b ∷ []) h bs = absurd (omega arith)
four_bytes (a ∷ b ∷ c ∷ []) h bs = absurd (omega arith)
four_bytes (a ∷ b ∷ c ∷ d ∷ []) h bs = (omega arith, ground arith)
four_bytes (a ∷ b ∷ c ∷ d ∷ e ∷ r) h bs = absurd (omega arith)

Takes-argument : (a : ℕ) → Takes (argument a) (λ n xs. Argument a n xs)
unfolding argument
Takes-argument a =
    Takes-if (ltb a 24) _ _ _ (λ h. Takes-pure a _ (inl (ground arith, refl, refl)))
      λ _.
        Takes-if (a == 24) _ _ _
          (λ h.
            Takes-bind (take truncated 1) _ _ _ (Takes-take truncated 1) λ r xs (same, width, bs).
              let (small, shape) = one_byte r width bs in
              Takes-pure _ _ (inr (inl ((==_iff a 24).0 h, small, append-nil xs ∙ same ∙ shape))))
          λ _.
            Takes-if (a == 25) _ _ _
              (λ h.
                Takes-bind (take truncated 2) _ _ _ (Takes-take truncated 2)
                  λ r xs (same, width, bs).
                    let (small, shape) = two_bytes r width bs in
                    Takes-pure _ _
                      (inr (inr (inl ((==_iff a 25).0 h, small, append-nil xs ∙ same ∙ shape)))))
              λ _.
                Takes-if (a == 26) _ _ _
                  (λ h.
                    Takes-bind (take truncated 4) _ _ _ (Takes-take truncated 4)
                      λ r xs (same, width, bs).
                        let (small, shape) = four_bytes r width bs in
                        Takes-pure _ _ (
                          inr (inr (inr ((==_iff a 26).0 h, small, append-nil xs ∙ same ∙ shape)))))
                  λ _. Takes-fail _ _

-- A first byte with an argument in its shortest form is what `major` writes.
module _ (x n : ℕ) (xs : Bytes) (bx : IsByte x) (short : is_overlong (x % 32) n ≡ false) where
  first_byte : (a : ℕ) → x % 32 ≡ a → x ≡ initial_byte (x / 32) a
  first_byte a h = sym (pack_parts x bx) ∙ ap (initial_byte (x / 32)) h

  major_shape : Argument (x % 32) n xs → (x ∷ xs ≡ major (x / 32) n []) × (n < 2 ^ 32)
  unfolding major is_overlong
  major_shape (inl (low, same, none_left)) = ground (arith, first_byte n same)
  major_shape (inr (inl (low, small, same))) = ground (arith, first_byte 24 low)
  major_shape (inr (inr (inl (low, small, same)))) = ground (arith, first_byte 25 low)
  major_shape (inr (inr (inr (low, small, same)))) = ground (arith, first_byte 26 low)

pub Takes-head : Takes head (λ (m, n) xs. (xs ≡ major m n []) × (n < 2 ^ 32))
unfolding head
Takes-head =
    Takes-bind (next_byte truncated) _ _ _ (Takes-next_byte truncated) λ x front (at_front, bx).
      rw (low_five x bx) (
        Takes-bind (argument (x % 32)) _ _ _ (Takes-argument (x % 32)) λ n xs shape.
          Takes-if (is_overlong (x % 32) n) _ _ _ (λ _. Takes-fail _ _)
            λ short.
              let (same, small) = major_shape x n xs bx short shape in
              Takes-pure _ _
                (ap (λ k. front ++ k) (append-nil xs) ∙ ap (λ k. k ++ xs) at_front ∙ same, small))

-- What the four kinds of field took, as `Encoder` writes them.
pub Takes-uint : Takes Decoder.uint (λ n xs. (xs ≡ Encoder.uint n []) × (n < 2 ^ 32))
unfolding Decoder.uint Encoder.uint
Takes-uint = Takes-bind head _ _ _ Takes-head λ (m, n) xs (same, small).
    Takes-if (m == 0) _ _ _
      (λ h.
        Takes-pure n _ (append-nil xs ∙ same ∙ ap (λ k. major k n []) ((==_iff m 0).0 h), small))
      (λ _. Takes-fail _ _)

pub Takes-array_len : (n : ℕ) → Takes (Decoder.array_len n) (λ _ xs. xs ≡ Encoder.array n [])
unfolding Decoder.array_len Encoder.array
Takes-array_len n = Takes-bind head _ _ _ Takes-head λ (m, x) xs (same, small).
    Takes-if (m == 4 && x == n) _ _ _ (λ h. Takes-pure tt _ (append-nil xs ∙ same ∙ ground arith))
      (λ _. Takes-fail _ _)

pub Takes-bytes :
    Takes Decoder.bytes (λ b xs. (xs ≡ Encoder.bytes b []) × (length b < 2 ^ 32) × IsBytes b)
unfolding Decoder.bytes Encoder.bytes
Takes-bytes = Takes-bind head _ _ _ Takes-head λ (m, n) front (same, small).
    Takes-if (m == 2) _ _ _
      (λ h. Takes-weaken (take truncated n) _ _ (Takes-take truncated n) λ b xs (at_xs, width, bs).
        (
          ap (λ k. front ++ k) at_xs
              ∙ ap (λ k. k ++ b)
                  (same
                    ∙ ap (λ k. major k n []) ((==_iff m 2).0 h)
                    ∙ ap (λ k. major 2 k []) (sym width)),
          omega arith,
          bs,
        ))
      (λ _. Takes-fail _ _)

pub Takes-id : Takes Decoder.id (λ b xs. (xs ≡ Encoder.bytes b []) × IsMessageId b)
unfolding Decoder.id
Takes-id = Takes-bind Decoder.bytes _ _ _ Takes-bytes λ b xs (same, small, bs).
    Takes-if (length b == 16) _ _ _
      (λ h.
        Takes-pure b _
          (append-nil xs ∙ same, record { width = (==_iff (length b) 16).0 h; bytes = bs }))
      (λ _. Takes-fail _ _)
