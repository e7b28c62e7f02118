-- ===== src/Api.antt =====
-- The tables and types of services/core-api/src/lib.rs. A table is the list of its rows in the order of
-- their insertion; times are microseconds.
pub mod Groups
pub mod Events
pub mod Mailbox
pub mod Devices
pub mod Sessions
pub mod Usernames
pub mod Recovery
pub mod Limits
mod Tests
mod AccountTests
mod UsernameTests
use resilient_messenger.Prelude.{ℕ, ◌*◌, min, max, Bool, List, Option, Bytes, ◌==◌}

pub data ApiError : Type 0 where
  invalid_credentials expired replay token_reuse conflict unauthorized : ApiError
  cursor_regression invalid_input database : ApiError

-- An i64 or i32 that a caller may pass negative.
pub data ℤ : Type 0 where
  pos : ℕ → ℤ
  negsuc : ℕ → ℤ

-- `value.max(0)`
abbrev pub at_least_zero : ℤ → ℕ
at_least_zero (pos n) = n
at_least_zero (negsuc n) = 0

abbrev pub max_sync_batch : ℕ
max_sync_batch = 50

-- `limit.clamp(1, MAX_SYNC_BATCH)`
abbrev pub clamp_batch : ℤ → ℕ
clamp_batch (pos n) = max 1 (min n max_sync_batch)
clamp_batch (negsuc n) = 1

-- EVENT_TTL_SECONDS
abbrev pub event_ttl : ℕ
event_ttl = 604800 * 1000000

abbrev pub max_key_package_size : ℕ
max_key_package_size = 65536

abbrev pub event_kind_mls_commit : ℕ
event_kind_mls_commit = 2

-- An i16 is its bit pattern.
pub record UploadedEvent : Type 0 where
  pub event_id : Bytes
  pub group_id : Bytes
  pub author_device_id : Bytes
  pub client_message_id : Bytes
  pub event_kind : ℕ
  pub ciphertext : Bytes
  pub correlation_id : Option Bytes

pub record UploadAccepted : Type 0 where
  pub cursor : ℕ
  pub duplicate : Bool

pub record SyncEvent : Type 0 where
  pub cursor : ℕ
  pub event_id : Bytes
  pub event_kind : ℕ
  pub ciphertext : Bytes

pub record MembershipOperation : Type 0 where
  pub correlation_id : Bytes
  pub group_id : Bytes
  pub author_device_id : Bytes
  pub target_device_id : Bytes
  pub role : ℕ
  pub remove : Bool
  pub signature : Bytes

pub record DeviceRow : Type 0 where
  pub device_id : Bytes
  pub account_id : Bytes
  pub device_public_key : Bytes
  pub revoked_at : Option ℕ

pub record GroupMemberRow : Type 0 where
  pub group_id : Bytes
  pub device_id : Bytes
  pub account_id : Bytes
  pub role : ℕ
  pub removed_at : Option ℕ

pub record OperationRow : Type 0 where
  pub correlation_id : Bytes
  pub group_id : Bytes
  pub author_device_id : Bytes
  pub operation : Bytes
  pub signature : Bytes
  pub applied_at : Option ℕ

pub record EventRow : Type 0 where
  pub event_cursor : ℕ
  pub event_id : Bytes
  pub group_id : Bytes
  pub author_device_id : Bytes
  pub client_message_id : Bytes
  pub correlation_id : Option Bytes
  pub event_kind : ℕ
  pub ciphertext : Bytes
  pub expires_at : ℕ

pub record CursorRow : Type 0 where
  pub device_id : Bytes
  pub group_id : Bytes
  pub cursor : ℕ

pub record ReceiptRow : Type 0 where
  pub event_id : Bytes
  pub device_id : Bytes
  pub receipt_type : ℕ

pub record KeyPackageRow : Type 0 where
  pub package_id : Bytes
  pub device_id : Bytes
  pub content : Bytes
  pub consumed_at : Option ℕ
  pub created_at : ℕ

pub record WelcomeRow : Type 0 where
  pub welcome_id : Bytes
  pub target_device_id : Bytes
  pub group_id : Bytes
  pub welcome : Bytes
  pub expires_at : ℕ
  pub consumed_at : Option ℕ

-- The columns that only the database reads, such as `created_at`, are left out.
pub record AccountRow : Type 0 where
  pub account_id : Bytes
  pub root_public_key : Bytes
  pub recovery_identifier : Option Bytes
  pub recovery_blob : Option Bytes

pub record CertificateRow : Type 0 where
  pub device_id : Bytes
  pub certificate_signature : Bytes
  pub issued_at : ℕ

pub record UsernameRow : Type 0 where
  pub canonical_username : List ℕ
  pub account_id : Bytes
  pub released_at : Option ℕ

pub record CooldownRow : Type 0 where
  pub canonical_username : List ℕ
  pub previous_account_id : Bytes
  pub release_after : ℕ

pub record ChallengeRow : Type 0 where
  pub challenge_id : Bytes
  pub device_id : Bytes
  pub challenge : Bytes
  pub expires_at : ℕ
  pub consumed_at : Option ℕ

pub record AccessRow : Type 0 where
  pub token_hash : Bytes
  pub device_id : Bytes
  pub expires_at : ℕ

pub record RefreshRow : Type 0 where
  pub token_hash : Bytes
  pub family_id : Bytes
  pub device_id : Bytes
  pub replaced_by_hash : Option Bytes
  pub expires_at : ℕ
  pub used_at : Option ℕ
  pub revoked_at : Option ℕ

pub record CounterRow : Type 0 where
  pub scope : Bytes
  pub window_start : ℕ
  pub count : ℕ

-- The tables; of `groups` only the keys are read. `next_cursor` is the sequence of
-- `event_cursor`, which starts at 1.
pub record Backend : Type 0 where
  pub accounts : List AccountRow
  pub devices : List DeviceRow
  pub groups : List Bytes
  pub members : List GroupMemberRow
  pub operations : List OperationRow
  pub events : List EventRow
  pub cursors : List CursorRow
  pub receipts : List ReceiptRow
  pub key_packages : List KeyPackageRow
  pub welcomes : List WelcomeRow
  pub next_cursor : ℕ
  pub certificates : List CertificateRow
  pub usernames : List UsernameRow
  pub cooldowns : List CooldownRow
  pub challenges : List ChallengeRow
  pub access_sessions : List AccessRow
  pub refresh_sessions : List RefreshRow
  pub counters : List CounterRow
