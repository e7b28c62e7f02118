-- ===== src/Protocol/Decoder.antt =====
-- `Decoder` of crates/messenger-protocol/src/lib.rs, over the reader of `Cursor`.
use Prim.Native.Nat.{bit_and}
use resilient_messenger.Prelude.{
  ℕ, ◌/◌, Bool, ◌&&◌, ◌||◌, Bytes, from_be, length, get_or, ltb, leb, ◌==◌, if◌then◌else◌,
}
use resilient_messenger.Cursor.{Parser, ◌>>=◌, pure, fail, next_byte, take}
use resilient_messenger.Protocol.{
  Error, malformed, truncated, non_canonical, field_out_of_range, MessageId,
}

-- The `match a` of `head`.
unfoldable pub argument : ℕ → Parser Error ℕ
argument a =
    if ltb a 24
    then pure a
    else if a == 24
    then (do r ← take truncated 1; pure (get_or r 0 0))
    else if a == 25
    then (do r ← take truncated 2; pure (from_be r))
    else if a == 26
    then (do r ← take truncated 4; pure (from_be r))
    else fail non_canonical

-- The argument has a shorter form.
unfoldable pub is_overlong : ℕ → ℕ → Bool
is_overlong a n = a == 24 && ltb n 24 || a == 25 && leb n 255 || a == 26 && leb n 65535

unfoldable pub head : Parser Error (ℕ × ℕ)
head = do
  x ← next_byte truncated
  n ← argument (bit_and x 31)
  if is_overlong (bit_and x 31) n then fail non_canonical else pure (x / 32, n)

unfoldable pub uint : Parser Error ℕ
uint = do (m, n) ← head; if m == 0 then pure n else fail malformed

unfoldable pub array_len : ℕ → Parser Error (Unit {0})
array_len n = do (m, x) ← head; if m == 4 && x == n then pure tt else fail malformed

unfoldable pub bytes : Parser Error Bytes
bytes = do (m, n) ← head; if m == 2 then take truncated n else fail malformed

unfoldable pub id : Parser Error MessageId
id = do b ← bytes; if length b == 16 then pure b else fail field_out_of_range
