-- ===== src/Core.antt =====
-- The tables and types of crates/messenger-core/src/lib.rs. A table is the list of its rows in the
-- order of their rowids; the operations are in the modules below.
pub mod Sql
pub mod Cipher
pub mod Messages
pub mod Delivery
pub mod Sync
pub mod Account
pub mod Rotation
pub mod Operations
pub mod Invariant
mod Tests
use resilient_messenger.Prelude.{
  ◌≡◌, refl, ℕ, ◌==◌, if◌then◌else◌, Bytes, List, [], Option, Result, ok, err,
}

pub data CoreError : Type 0 where
  database authentication invalid_transition not_found invalid_master_key : CoreError

pub data MessageStatus : Type 0 where
  draft queued encrypting ready_to_upload uploading server_accepted : MessageStatus
  delivered read retry_scheduled failed_permanent cancelled : MessageStatus

-- `status as i64`
abbrev pub status_code : MessageStatus → ℕ
status_code draft = 0
status_code queued = 1
status_code encrypting = 2
status_code ready_to_upload = 3
status_code uploading = 4
status_code server_accepted = 5
status_code delivered = 6
status_code read = 7
status_code retry_scheduled = 8
status_code failed_permanent = 9
status_code cancelled = 10

-- `MessageStatus::try_from`
unfoldable pub status_of : ℕ → Result CoreError MessageStatus
status_of n =
    if n == 0
    then ok draft
    else if n == 1
    then ok queued
    else if n == 2
    then ok encrypting
    else if n == 3
    then ok ready_to_upload
    else if n == 4
    then ok uploading
    else if n == 5
    then ok server_accepted
    else if n == 6
    then ok delivered
    else if n == 7
    then ok read
    else if n == 8
    then ok retry_scheduled
    else if n == 9
    then ok failed_permanent
    else if n == 10
    then ok cancelled
    else err invalid_transition

pub status_of-status_code : (s : MessageStatus) → status_of (status_code s) ≡ ok s
unfolding status_of
status_of-status_code draft = refl
status_of-status_code _ = refl

pub data NetworkMode : Type 0 where
  normal limited survival : NetworkMode

pub record LocalMessage : Type 0 where
  pub client_message_id : Bytes
  pub conversation_id : Bytes
  pub plaintext : Bytes
  pub status : MessageStatus
  pub created_at_ms : ℕ

pub record PendingUpload : Type 0 where
  pub client_message_id : Bytes
  pub conversation_id : Bytes
  pub encrypted_payload : Bytes
  pub attempts : ℕ

pub record ConversationSummary : Type 0 where
  pub conversation_id : Bytes
  pub updated_at_ms : ℕ

pub record IncomingEvent : Type 0 where
  pub event_id : Bytes
  pub conversation_id : Bytes
  pub encrypted_event : Bytes

pub record CachedRelayDirectory : Type 0 where
  pub version : ℕ
  pub signed_directory : Bytes
  pub expires_at_ms : ℕ

pub record NetworkDiagnostics : Type 0 where
  pub mode : NetworkMode
  pub pending_uploads : ℕ
  pub last_cursor : ℕ

-- A row of `messages`.
pub record MessageRow : Type 0 where
  pub client_message_id : Bytes
  pub conversation_id : Bytes
  pub body_ciphertext : Bytes
  pub status : ℕ
  pub created_at_ms : ℕ

-- A row of `outbox`.
pub record OutboxRow : Type 0 where
  pub client_message_id : Bytes
  pub next_attempt_at_ms : ℕ
  pub attempts : ℕ

-- A row of `inbox`.
pub record InboxRow : Type 0 where
  pub event_id : Bytes
  pub conversation_id : Bytes
  pub event_ciphertext : Bytes
  pub received_at_ms : ℕ

-- A row of `conversation_members`.
pub record MemberRow : Type 0 where
  pub conversation_id : Bytes
  pub device_id : Bytes
  pub account_id : Bytes
  pub removed_at_ms : Option ℕ

-- The database. Of the tables that no operation writes, only those that `wipe_local_account`
-- empties are here, their rows taken as bytes.
pub record Db : Type 0 where
  pub conversations : List ConversationSummary
  pub messages : List MessageRow
  pub outbox : List OutboxRow
  pub inbox : List InboxRow
  pub members : List MemberRow
  pub sync_cursors : List (Bytes × ℕ)
  pub blocked_accounts : List (Bytes × ℕ)
  pub relay_directory_cache : List CachedRelayDirectory
  pub receipts : List Bytes
  pub contact_requests : List Bytes
  pub crypto_state : List Bytes
  pub network_mode : ℕ
  pub key_version : ℕ
  pub revision : ℕ

-- What `migrate` leaves in a new database.
abbrev pub empty_db : Db
empty_db = record {
  conversations = [];
  messages = [];
  outbox = [];
  inbox = [];
  members = [];
  sync_cursors = [];
  blocked_accounts = [];
  relay_directory_cache = [];
  receipts = [];
  contact_requests = [];
  crypto_state = [];
  network_mode = 0;
  key_version = 1;
  revision = 0;
}
