-- ===== src/Cursor.antt =====
-- A reader over a byte slice with a position, as `Decoder` of crates/messenger-protocol/src/lib.rs
-- and `DirectoryReader` of crates/messenger-transport/src/lib.rs have it. A method on `&mut self`
-- that ends early by `?` is a parser: it returns its value with the reader's new state.
pub mod Reads
pub mod Takes
use resilient_messenger.Prelude.{
  ℕ, ◌+◌, ◌^◌, Bool, true, false, none, some, Bytes, length, get_elem?, take as take_list, drop,
  ltb, leb, ◌==◌, if◌then◌else◌, Result, ok, err,
}

pub record Cursor : Type 0 where
  pub b : Bytes
  pub p : ℕ

-- The reader that `new` makes.
abbrev pub new : Bytes → Cursor
new b = record { b = b; p = 0 }

abbrev pub Parser : Type 0 → Type 0 → Type 0
Parser E A = Cursor → Result E (A × Cursor)

abbrev pub continue :
    {E A B : Type 0} → (A → Parser E B) → Result E (A × Cursor) → Result E (B × Cursor)
continue f (ok (a, d)) = f a d
continue f (err e) = err e

infixl 5 ◌>>=◌ ◌>>◌
unfoldable pub ◌>>=◌ : {E A B : Type 0} → Parser E A → (A → Parser E B) → Parser E B
◌>>=◌ m f d = continue f (m d)

abbrev pub ◌>>◌ : {E B : Type 0} → Parser E (Unit {0}) → Parser E B → Parser E B
m >> k = m >>= λ _. k

unfoldable pub pure : {E A : Type 0} → A → Parser E A
pure a d = ok (a, d)

unfoldable pub fail : {E A : Type 0} → E → Parser E A
fail e d = err e

-- `if !test { return Err(e) }`
unfoldable pub require : {E : Type 0} → Bool → E → Parser E (Unit {0})
require true e d = ok (tt, d)
require false e d = err e

-- a result that `?` takes apart
unfoldable pub lift : {E A : Type 0} → Result E A → Parser E A
lift (ok a) d = ok (a, d)
lift (err e) d = err e

-- `self.b.get(self.p).ok_or(e)?` and `self.p += 1`
unfoldable pub next_byte : {E : Type 0} → E → Parser E ℕ
next_byte e d = elim (get_elem? d.b d.p) [
  | none ↦ err e
  | some x ↦ ok (x, record d { p = d.p + 1 })
]

-- `take`: `checked_add` on a 64-bit usize, then the range of the slice.
unfoldable pub take : {E : Type 0} → E → ℕ → Parser E Bytes
take e n d =
    let end = d.p + n in
    if leb (2 ^ 64) end
    then err e
    else if ltb (length d.b) end
    then err e
    else ok (take_list n (drop d.p d.b), record d { p = end })

unfoldable pub finish : {E : Type 0} → E → Parser E (Unit {0})
finish e d = if d.p == length d.b then ok (tt, d) else err e

-- The value of a parser that the function returns, its reader dropped.
abbrev pub value : {E A : Type 0} → Result E (A × Cursor) → Result E A
value (ok (a, d)) = ok a
value (err e) = err e
