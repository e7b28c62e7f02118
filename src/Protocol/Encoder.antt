-- ===== src/Protocol/Encoder.antt =====
-- `Encoder` of crates/messenger-protocol/src/lib.rs: each method appends to the buffer.
use Prim.Native.Nat.{bit_or}
use resilient_messenger.Prelude.{
  ℕ, ◌*◌, ◌%◌, ◌^◌, [], ◌∷◌, ◌++◌, Bytes, be16, be32, length, ltb, leb, if◌then◌else◌,
}

-- `struct Encoder(Vec<u8>)`
abbrev pub Encoder : Type 0
Encoder = Bytes

-- `(m << 5) | a` on u8
abbrev pub initial_byte : ℕ → ℕ → ℕ
initial_byte m a = bit_or (m * 32 % 256) a

unfoldable pub major : ℕ → ℕ → Encoder → Encoder
major m n e =
    if ltb n 24
    then e ++ initial_byte m n ∷ []
    else if leb n 255
    then e ++ initial_byte m 24 ∷ n % 256 ∷ []
    else if leb n 65535
    then (e ++ initial_byte m 25 ∷ []) ++ be16 (n % 2 ^ 16)
    else (e ++ initial_byte m 26 ∷ []) ++ be32 (n % 2 ^ 32)

unfoldable pub array : ℕ → Encoder → Encoder
array n e = major 4 n e

unfoldable pub uint : ℕ → Encoder → Encoder
uint n e = major 0 n e

unfoldable pub bytes : Bytes → Encoder → Encoder
bytes b e = major 2 (length b) e ++ b
