-- ===== src/Protocol/Heads.antt =====
-- The head of a CBOR item, `Encoder::major` against `Decoder::head`, and the four kinds of field
-- that are built on it.
use Prim.Native.Nat.{bit_and}
use resilient_messenger.Prelude.{
  ℕ, ◌+◌, ◌*◌, ◌/◌, ◌%◌, ◌<◌, ◌^◌, ◌≡◌, refl, sym, ap, subst, from_be, ◌∙◌, inl, inr, true, false,
  ltb, leb, ==_iff, Bool-cases, [], ◌∷◌, ◌++◌, append_assoc, append-nil, Bytes, length, be16, be32,
  low_five, pack_parts, arith,
}
use resilient_messenger.Protocol.Encoder
use resilient_messenger.Protocol.Encoder.{initial_byte, major}
use resilient_messenger.Protocol.Decoder
use resilient_messenger.Protocol.Decoder.{argument, is_overlong, head}
use resilient_messenger.Cursor.{next_byte, take}
use resilient_messenger.Protocol.{truncated}
use resilient_messenger.Cursor.Reads.{
  Reads, Reads-bind, Reads-pure, Reads-pure_eq, Reads-next_byte, Reads-take,
}

pub initial_byte_lem : (m a : ℕ) → m < 8 → a < 32 → initial_byte m a ≡ m * 32 + a
initial_byte_lem m a hm ha =
    let x = m * 32 + a in
    let shown : (x / 32 ≡ m) × (x % 32 ≡ a) × (x < 256) = (omega arith, omega arith, omega arith) in
    rw (shown.0, shown.1) at (pack_parts x shown.2)

pub initial_byte_parts :
    (m a : ℕ) → m < 8 → a < 32 → (initial_byte m a / 32 ≡ m) × (bit_and (initial_byte m a) 31 ≡ a)
initial_byte_parts m a hm ha =
    rw (initial_byte_lem m a hm ha) (omega arith, low_five (m * 32 + a) (omega arith) ∙ omega arith)

-- An append to the buffer is an append to the empty buffer, behind it.
pub major-append : (m n : ℕ) (e : Bytes) → major m n e ≡ e ++ major m n []
unfolding major
major-append m n e = ground (
  arith,
  append_assoc e (initial_byte m 25 ∷ []) (be16 (n % 2 ^ 16)),
  append_assoc e (initial_byte m 26 ∷ []) (be32 (n % 2 ^ 32)),
)

pub from_be-be16 : (n : ℕ) → n < 2 ^ 16 → from_be (be16 n) ≡ n
from_be-be16 n h = omega arith

pub from_be-be32 : (n : ℕ) → n < 2 ^ 32 → from_be (be32 n) ≡ n
from_be-be32 n h = omega arith

Reads-argument_8 : (n : ℕ) → Reads (argument 24) n (n ∷ [])
unfolding argument
Reads-argument_8 n =
    Reads-bind (take truncated 1) _ (n ∷ []) n (n ∷ []) [] (Reads-take truncated (n ∷ []))
      (Reads-pure n)

Reads-argument_16 : (n : ℕ) → n < 2 ^ 16 → Reads (argument 25) n (be16 n)
unfolding argument
Reads-argument_16 n h =
    Reads-bind (take truncated 2) _ (be16 n) n (be16 n) [] (Reads-take truncated (be16 n))
      (Reads-pure_eq _ n (from_be-be16 n h))

Reads-argument_32 : (n : ℕ) → n < 2 ^ 32 → Reads (argument 26) n (be32 n)
unfolding argument
Reads-argument_32 n h =
    Reads-bind (take truncated 4) _ (be32 n) n (be32 n) [] (Reads-take truncated (be32 n))
      (Reads-pure_eq _ n (from_be-be32 n h))

Reads-argument_short : (n : ℕ) → ltb n 24 ≡ true → Reads (argument n) n []
unfolding argument
Reads-argument_short n h = rw h (Reads-pure n)

-- The first byte and the argument that it announces.
Reads-head_of :
    (m a n : ℕ) (xs : Bytes)
    → m < 8
    → a < 32
    → Reads (argument a) n xs
    → is_overlong a n ≡ false
    → Reads head (m, n) (initial_byte m a ∷ xs)
unfolding head
Reads-head_of m a n xs hm ha hx long =
    let (major_part, low_part) = initial_byte_parts m a hm ha in
    Reads-bind (next_byte truncated) _ (initial_byte m a) (m, n) (initial_byte m a ∷ []) xs
      (Reads-next_byte truncated (initial_byte m a))
      (rw (major_part, low_part)
        (subst (Reads _ (m, n)) (append-nil xs)
          (Reads-bind (argument a) _ n (m, n) xs [] hx (rw long (Reads-pure (m, n))))))

-- `head` reads what `major` writes.
pub Reads-head : (m n : ℕ) → m < 8 → n < 2 ^ 32 → Reads head (m, n) (major m n [])
unfolding major is_overlong
Reads-head m n hm hn = elim (Bool-cases (ltb n 24)) [
  | inl s ↦
      rw s (Reads-head_of m n n [] hm (ground arith) (Reads-argument_short n s) (ground arith))
  | inr s ↦ rw s (elim (Bool-cases (leb n 255)) [
    | inl t ↦ rw t (
        subst (λ k. Reads head (m, n) (initial_byte m 24 ∷ k ∷ [])) (ground arith)
          (Reads-head_of m 24 n (n ∷ []) hm (omega arith) (Reads-argument_8 n) (ground arith)))
    | inr t ↦ rw t (elim (Bool-cases (leb n 65535)) [
      | inl u ↦ rw u (
          subst (λ k. Reads head (m, n) (initial_byte m 25 ∷ be16 k)) (ground arith)
            (Reads-head_of m 25 n (be16 n) hm (omega arith) (Reads-argument_16 n (ground arith))
              (ground arith)))
      | inr u ↦ rw u (
          subst (λ k. Reads head (m, n) (initial_byte m 26 ∷ be32 k)) (omega arith)
            (Reads-head_of m 26 n (be32 n) hm (omega arith) (Reads-argument_32 n hn)
              (ground arith)))
    ])
  ])
]

-- A field that was written in front of `t` stands behind what the buffer held before.
module _ (e : Bytes) where
  pub uint_then : (n : ℕ) (t : Bytes) → Encoder.uint n e ++ t ≡ e ++ (Encoder.uint n [] ++ t)
  unfolding Encoder.uint
  uint_then n t = rw (major-append 0 n e) (append_assoc e (major 0 n []) t)

  pub bytes_then : (b t : Bytes) → Encoder.bytes b e ++ t ≡ e ++ (Encoder.bytes b [] ++ t)
  unfolding Encoder.bytes
  bytes_then b t = rw (major-append 2 (length b) e) (
      append_assoc (e ++ major 2 (length b) []) b t
      ∙ append_assoc e (major 2 (length b) []) (b ++ t)
      ∙ ap (λ k. e ++ k) (sym (append_assoc (major 2 (length b) []) b t)))

pub Reads-uint : (n : ℕ) → n < 2 ^ 32 → Reads Decoder.uint n (Encoder.uint n [])
unfolding Decoder.uint Encoder.uint
Reads-uint n h =
    subst (Reads _ n) (append-nil (major 0 n []))
      (Reads-bind head _ (0, n) n (major 0 n []) [] (Reads-head 0 n (omega arith) h) (Reads-pure n))

pub Reads-array_len : (n : ℕ) → n < 2 ^ 32 → Reads (Decoder.array_len n) tt (Encoder.array n [])
unfolding Decoder.array_len Encoder.array
Reads-array_len n h = subst (Reads _ tt) (append-nil (major 4 n [])) (
    Reads-bind head _ (4, n) tt (major 4 n []) [] (Reads-head 4 n (omega arith) h)
      (rw ((==_iff n n).1 refl) (Reads-pure tt)))

pub Reads-bytes : (b : Bytes) → length b < 2 ^ 32 → Reads Decoder.bytes b (Encoder.bytes b [])
unfolding Decoder.bytes Encoder.bytes
Reads-bytes b h =
    Reads-bind head _ (2, length b) b (major 2 (length b) []) b
      (Reads-head 2 (length b) (omega arith) h) (Reads-take truncated b)

pub Reads-id : (b : Bytes) → length b ≡ 16 → Reads Decoder.id b (Encoder.bytes b [])
unfolding Decoder.id
Reads-id b h = subst (Reads _ b) (append-nil (Encoder.bytes b [])) (
    Reads-bind Decoder.bytes _ b b (Encoder.bytes b []) [] (Reads-bytes b (omega arith))
      (rw ((==_iff (length b) 16).1 h) (Reads-pure b)))
