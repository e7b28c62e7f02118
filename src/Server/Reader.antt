-- ===== src/Server/Reader.antt =====
-- `Reader` of services/core-api/src/main.rs, and what a request meets.
use resilient_messenger.Prelude.{ℕ, ◌-◌, Bytes, from_be, length, drop, ok}
use resilient_messenger.Cursor.{Parser, take, finish, pure, ◌>>=◌}
use resilient_messenger.Transport.Directory.{Ed25519}
use resilient_messenger.Api.{ApiError, invalid_input}
use resilient_messenger.Api.Sessions.{Challenge, SessionTokens}

unfoldable pub array : ℕ → Parser ApiError Bytes
array n = take invalid_input n

unfoldable pub u8 : Parser ApiError ℕ
u8 = do b ← array 1; pure (from_be b)

-- An i16 is its bit pattern.
unfoldable pub i16 : Parser ApiError ℕ
i16 = do b ← array 2; pure (from_be b)

unfoldable pub u64 : Parser ApiError ℕ
u64 = do b ← array 8; pure (from_be b)

unfoldable pub rest : Parser ApiError Bytes
rest d = ok (drop d.p d.b, record d { p = length d.b })

unfoldable pub remaining_len : Parser ApiError ℕ
remaining_len d = ok (length d.b - d.p, d)

unfoldable pub end : Parser ApiError (Unit {0})
end = finish invalid_input

-- The libraries, the random values and the clock that a request meets. One reading of the clock
-- serves all statements of a request.
pub record Ambient : Type 0 where
  pub sha256 : Bytes → Bytes
  pub ed : Ed25519
  pub now : ℕ
  pub challenge : Challenge
  pub tokens : SessionTokens
  pub family : Bytes
