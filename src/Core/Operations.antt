-- ===== src/Core/Operations.antt =====
-- The calls of `MessengerCore` in crates/messenger-core/src/lib.rs that change its state, as values:
-- an operation carries its arguments, the clock and the random bytes that it draws.
use resilient_messenger.Prelude.{ℕ, List, Bytes, length, ◌≡◌}
use resilient_messenger.Core.{IncomingEvent, CachedRelayDirectory, NetworkMode, Db, empty_db}
use resilient_messenger.Core.Cipher.{Aead}
use resilient_messenger.Core.Messages.{create_message}
use resilient_messenger.Core.Delivery.{
  mark_upload_accepted, retry_message, cancel_pending_message, apply_delivery_receipt,
  apply_read_receipt,
}
use resilient_messenger.Core.Sync.{
  ingest_server_event, ingest_server_batch, set_sync_cursor, cache_relay_directory,
}
use resilient_messenger.Core.Account.{
  create_group, add_member, remove_member, block_account, unblock_account, set_network_mode,
  wipe_local_account,
}
use resilient_messenger.Core.Rotation.{MessengerCore, rotate_master_key}

pub data Operation : Type 0 where
  create : (conversation plaintext id nonce : Bytes) (now : ℕ) → Operation
  accept : (id : Bytes) → Operation
  retry : (id : Bytes) (now : ℕ) → Operation
  cancel : (id : Bytes) → Operation
  deliver : (id : Bytes) → Operation
  mark_read : (id : Bytes) → Operation
  ingest : (event conversation body : Bytes) (now : ℕ) → Operation
  ingest_all : (events : List (IncomingEvent × ℕ)) → Operation
  move_cursor : (scope : Bytes) (cursor : ℕ) → Operation
  cache : (directory : CachedRelayDirectory) → Operation
  open_group : (group : Bytes) (now : ℕ) → Operation
  join : (group device account : Bytes) → Operation
  leave : (group device : Bytes) (now : ℕ) → Operation
  block : (account : Bytes) (now : ℕ) → Operation
  unblock : (account : Bytes) → Operation
  choose_mode : (mode : NetworkMode) → Operation
  rotate : (nonces : ℕ → Bytes) (key : Bytes) (version : ℕ) → Operation
  wipe : Operation

-- The database that an operation on the database leaves.
unfoldable pub apply_db : Aead → Bytes → Operation → Db → Db
apply_db aead key (create conversation plaintext id nonce now) db =
    (create_message aead key conversation plaintext id nonce now db).1
apply_db aead key (accept id) db = (mark_upload_accepted id db).1
apply_db aead key (retry id now) db = (retry_message id now db).1
apply_db aead key (cancel id) db = (cancel_pending_message id db).1
apply_db aead key (deliver id) db = (apply_delivery_receipt id db).1
apply_db aead key (mark_read id) db = (apply_read_receipt id db).1
apply_db aead key (ingest event conversation body now) db =
    (ingest_server_event event conversation body now db).1
apply_db aead key (ingest_all events) db = (ingest_server_batch events db).1
apply_db aead key (move_cursor scope cursor) db = (set_sync_cursor scope cursor db).1
apply_db aead key (cache directory) db = (cache_relay_directory directory db).1
apply_db aead key (open_group group now) db = (create_group group now db).1
apply_db aead key (join group device account) db = (add_member group device account db).1
apply_db aead key (leave group device now) db = (remove_member group device now db).1
apply_db aead key (block account now) db = (block_account account now db).1
apply_db aead key (unblock account) db = (unblock_account account db).1
apply_db aead key (choose_mode mode) db = (set_network_mode mode db).1
apply_db aead key (rotate nonces new_key version) db = db
apply_db aead key wipe db = (wipe_local_account db).1

-- Rotation changes the active key too.
unfoldable pub apply : Aead → Operation → MessengerCore → MessengerCore
apply aead (rotate nonces key version) core = (rotate_master_key aead nonces key version core).1
apply aead op core = record core { db = apply_db aead core.master_key op core.db }

-- The states that calls lead to from a new database, under a key of 32 bytes.
pub data Reach (aead : Aead) : MessengerCore → Type 0 where
  opened : (key : Bytes) → length key ≡ 32 → Reach aead (record { db = empty_db; master_key = key })
  after :
      (op : Operation) {core : MessengerCore} → Reach aead core → Reach aead (apply aead op core)
