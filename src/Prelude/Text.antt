-- ===== src/Prelude/Text.antt =====
-- Byte strings: the bytes of a literal, `starts_with`, lexicographic order, and the check of
-- `str::from_utf8`. A Rust string is its UTF-8 bytes.
use Prim.Native.Nat.{ℕ}
use Prim.Native.Char.{code}
use Prim.Native.String.{String}
use mathlib.Core.Path.{◌≡◌, refl}
use mathlib.Core.Bool.{Bool, true, false, ◌&&◌, ◌||◌}
use mathlib.Core.Option.{Option, none, some}
use mathlib.Core.List.{[], ◌∷◌}
use native.Mathlib.Omega.{arith}
use resilient_messenger.Prelude.Tests.{ltb, leb, ◌==◌, if◌then◌else◌}
use resilient_messenger.Prelude.Words.{Bytes}

-- The bytes of an ASCII literal.
abbrev pub codes : String → Bytes
codes String.[] = []
codes (String.◌∷◌ c s) = code c ∷ codes s

unfoldable pub starts_with : Bytes → Bytes → Bool
starts_with s [] = true
starts_with [] (p ∷ ps) = false
starts_with (c ∷ cs) (p ∷ ps) = c == p && starts_with cs ps

-- `<=` on byte arrays
unfoldable pub bytes_le : Bytes → Bytes → Bool
bytes_le [] ys = true
bytes_le (x ∷ xs) [] = false
bytes_le (x ∷ xs) (y ∷ ys) = ltb x y || x == y && bytes_le xs ys

pub bytes_le_total : (xs ys : Bytes) → bytes_le xs ys ≡ false → bytes_le ys xs ≡ true
unfolding bytes_le
bytes_le_total [] ys h = cc
bytes_le_total (x ∷ xs) [] h = refl
bytes_le_total (x ∷ xs) (y ∷ ys) h = ground (arith, bytes_le_total xs ys)

-- What may follow inside a character: the range of the next byte, and how many come after it.
pub data Utf8State : Type 0 where
  start : Utf8State
  tail : ℕ → ℕ → Utf8State → Utf8State

abbrev pub one_more : Utf8State
one_more = tail 0x80 0xbf start

abbrev pub two_more : Utf8State
two_more = tail 0x80 0xbf one_more

-- The well-formed byte sequences of the Unicode standard, by their first byte.
lead : ℕ → Option Utf8State
lead b =
    if leb b 0x7f
    then some start
    else if leb 0xc2 b && leb b 0xdf
    then some one_more
    else if b == 0xe0
    then some (tail 0xa0 0xbf one_more)
    else if b == 0xed
    then some (tail 0x80 0x9f one_more)
    else if leb 0xe1 b && leb b 0xef
    then some two_more
    else if b == 0xf0
    then some (tail 0x90 0xbf two_more)
    else if leb 0xf1 b && leb b 0xf3
    then some (tail 0x80 0xbf two_more)
    else if b == 0xf4
    then some (tail 0x80 0x8f two_more)
    else none

utf8_step : Utf8State → ℕ → Option Utf8State
utf8_step start b = lead b
utf8_step (tail lo hi next) b = if leb lo b && leb b hi then some next else none

utf8_loop : Utf8State → Bytes → Bool
utf8_loop start [] = true
utf8_loop (tail lo hi next) [] = false
utf8_loop s (b ∷ bs) = elim (utf8_step s b) [ none ↦ false | some s' ↦ utf8_loop s' bs ]

-- `std::str::from_utf8(bytes).is_ok()`
unfoldable pub is_utf8 : Bytes → Bool
unfolding utf8_loop utf8_step lead
is_utf8 bs = utf8_loop start bs
