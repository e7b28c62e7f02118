-- ===== src/Prelude/Words.antt =====
-- Bytes as numbers below 256, big-endian words, and the bit operations of a byte by tables.
use Prim.Native.Nat.{ℕ, zero, suc, ◌+◌, ◌*◌, ◌/◌, ◌%◌, ◌^◌, ◌<◌, bit_and, bit_or}
use mathlib.Core.Path.{◌≡◌, refl}
use mathlib.Core.Logic.{◌↔◌}
use mathlib.Core.Bool.{Bool, true, false, ◌&&◌}
use mathlib.Core.List.{List, [], ◌∷◌}
use native.Mathlib.Omega.{arith}
use resilient_messenger.Prelude.Tests.{ltb, ◌==◌, ==_iff}
use resilient_messenger.Prelude.Lists.{All}

abbrev pub Bytes : Type 0
Bytes = List ℕ

abbrev pub IsByte : ℕ → Type 0
IsByte b = b < 256

abbrev pub IsBytes : Bytes → Type 0
IsBytes = All IsByte

-- `==` on byte arrays
unfoldable pub bytes_eq : Bytes → Bytes → Bool
bytes_eq [] [] = true
bytes_eq (x ∷ xs) (y ∷ ys) = x == y && bytes_eq xs ys
bytes_eq _ _ = false

pub bytes_eq_iff : (xs ys : Bytes) → (bytes_eq xs ys ≡ true) ↔ (xs ≡ ys)
unfolding bytes_eq
bytes_eq_iff [] [] = ground arith
bytes_eq_iff [] (y ∷ ys) = ground arith
bytes_eq_iff (x ∷ xs) [] = ground arith
bytes_eq_iff (x ∷ xs) (y ∷ ys) = ground (arith, bytes_eq_iff xs ys)

pub bytes_eq_refl : (xs : Bytes) → bytes_eq xs xs ≡ true
bytes_eq_refl xs = (bytes_eq_iff xs xs).1 refl

-- `to_be_bytes` of a u16, a u32 and a u64
abbrev pub be16 : ℕ → Bytes
be16 n = (n / 256 % 256) ∷ (n % 256) ∷ []

abbrev pub be32 : ℕ → Bytes
be32 n = (n / 2 ^ 24 % 256) ∷ (n / 2 ^ 16 % 256) ∷ (n / 256 % 256) ∷ (n % 256) ∷ []

abbrev pub be64 : ℕ → Bytes
be64 n = (n / 2 ^ 56 % 256) ∷ (n / 2 ^ 48 % 256) ∷ (n / 2 ^ 40 % 256) ∷ (n / 2 ^ 32 % 256) ∷ be32 n

-- `from_be_bytes`
abbrev pub from_be_loop : ℕ → Bytes → ℕ
from_be_loop acc [] = acc
from_be_loop acc (b ∷ bs) = from_be_loop (acc * 256 + b) bs

abbrev pub from_be : Bytes → ℕ
from_be bs = from_be_loop 0 bs

-- Whether the test holds of each number under the bound.
try_each : (ℕ → Bool) → ℕ → Bool
try_each p zero = true
try_each p (suc n) = try_each p n && p n

tried : (p : ℕ → Bool) (n : ℕ) → try_each p n ≡ true → (x : ℕ) → x < n → p x ≡ true
unfolding try_each
tried p zero h x below = absurd (omega arith)
tried p (suc n) h x below =
    let before : x < n → p x ≡ true = tried p n (ground arith) x in ground arith

low_five_table : try_each (λ x. bit_and x 31 == x % 32) 256 ≡ true
unfolding try_each
low_five_table = refl

-- `x & 31`
pub low_five : (x : ℕ) → IsByte x → bit_and x 31 ≡ x % 32
low_five x h =
    (==_iff (bit_and x 31) (x % 32)).0 (tried (λ y. bit_and y 31 == y % 32) 256 low_five_table x h)

pack_table : try_each (λ x. bit_or (x / 32 * 32 % 256) (x % 32) == x) 256 ≡ true
unfolding try_each
pack_table = refl

-- `(m << 5) | a` puts the byte together that `>> 5` and `& 31` take apart.
pub pack_parts : (x : ℕ) → IsByte x → bit_or (x / 32 * 32 % 256) (x % 32) ≡ x
pack_parts x h =
    (==_iff (bit_or (x / 32 * 32 % 256) (x % 32)) x).0
      (tried (λ y. bit_or (y / 32 * 32 % 256) (y % 32) == y) 256 pack_table x h)

-- `IsBytes` as a test.
abbrev pub are_bytes : Bytes → Bool
are_bytes [] = true
are_bytes (b ∷ bs) = ltb b 256 && are_bytes bs

pub are_bytes-IsBytes : (bs : Bytes) → are_bytes bs ≡ true → IsBytes bs
are_bytes-IsBytes [] h = tt
are_bytes-IsBytes (b ∷ bs) h = (ground arith, are_bytes-IsBytes bs (ground arith))

pub from_be-be64 : (n : ℕ) → n < 2 ^ 64 → from_be (be64 n) ≡ n
from_be-be64 n h = omega arith
