-- ===== src/Protocol/ErrorCodes.antt =====
-- `ErrorCode` of crates/messenger-protocol/src/lib.rs.
use resilient_messenger.Prelude.{ℕ}

pub data ErrorCode : Type 0 where
  malformed unsupported_version too_large replay : ErrorCode
  duplicate rate_limited cursor_regression : ErrorCode

-- `code as u8`, by `#[repr(u8)]` and `Malformed = 1`
unfoldable pub error_number : ErrorCode → ℕ
error_number malformed = 1
error_number unsupported_version = 2
error_number too_large = 3
error_number replay = 4
error_number duplicate = 5
error_number rate_limited = 6
error_number cursor_regression = 7
