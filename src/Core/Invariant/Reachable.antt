-- ===== src/Core/Invariant/Reachable.antt =====
-- The states of `MessengerCore` in crates/messenger-core/src/lib.rs that calls lead to.
use resilient_messenger.Prelude.{◌≡◌, sym, subst, Bytes}
use resilient_messenger.Core.{Db, delivered, read}
use resilient_messenger.Core.Cipher.{Aead}
use resilient_messenger.Core.Rotation.{MessengerCore}
use resilient_messenger.Core.Delivery.{apply_delivery_receipt, apply_read_receipt}
use resilient_messenger.Core.Account.{create_group, set_network_mode}
use resilient_messenger.Core.Operations.{
  Operation, create, accept, retry, cancel, deliver, mark_read, ingest, ingest_all, move_cursor,
  cache, open_group, join, leave, block, unblock, choose_mode, rotate, wipe, apply_db, apply, Reach,
  opened, after,
}
use resilient_messenger.Core.Invariant.{IsValid}
use resilient_messenger.Core.Invariant.Updates.{
  mark_upload_accepted-IsValid, retry_message-IsValid, cancel_pending_message-IsValid,
  apply_delivery_receipt-IsValid, apply_read_receipt-IsValid,
}
use resilient_messenger.Core.Invariant.Inserts.{create_group-IsValid}
use resilient_messenger.Core.Invariant.Creates.{create_message-IsValid}
use resilient_messenger.Core.Invariant.Others.{
  SameTables-IsValid, ingest_server_event-SameTables, ingest_server_batch-SameTables,
  set_sync_cursor-SameTables, cache_relay_directory-SameTables, add_member-SameTables,
  remove_member-SameTables, block_account-SameTables, unblock_account-SameTables,
  set_network_mode-SameTables, wipe_local_account-IsValid, empty_db-IsValid,
  rotate_master_key-IsValid,
}
use resilient_messenger.Core.Invariant.Keys.{
  KeyedTables, keyed, HasKeys, empty_db-HasKeys, insert_conversation-HasKeys,
}
use resilient_messenger.Core.Invariant.Kept.{
  mark_upload_accepted-keyed, retry_message-keyed, cancel_pending_message-keyed,
  advance_message_status-keyed, rotate_master_key-keyed, create_message-HasKeys,
  ingest_server_event-HasKeys, ingest_server_batch-HasKeys, set_sync_cursor-HasKeys,
  cache_relay_directory-HasKeys, add_member-HasKeys, remove_member-HasKeys, block_account-HasKeys,
  unblock_account-HasKeys, wipe_local_account-HasKeys,
}

apply_db-IsValid :
    (aead : Aead) (key : Bytes) (op : Operation) (db : Db)
    → IsValid db
    → IsValid (apply_db aead key op db)
unfolding apply_db
apply_db-IsValid aead key (create c p i n now) db h =
    create_message-IsValid aead key c p i n now db h
apply_db-IsValid aead key (accept i) db h = mark_upload_accepted-IsValid i db h
apply_db-IsValid aead key (retry i now) db h = retry_message-IsValid i now db h
apply_db-IsValid aead key (cancel i) db h = cancel_pending_message-IsValid i db h
apply_db-IsValid aead key (deliver i) db h = apply_delivery_receipt-IsValid i db h
apply_db-IsValid aead key (mark_read i) db h = apply_read_receipt-IsValid i db h
apply_db-IsValid aead key (ingest e c b now) db h =
    SameTables-IsValid db _ (ingest_server_event-SameTables e c b now db) h
apply_db-IsValid aead key (ingest_all es) db h =
    SameTables-IsValid db _ (ingest_server_batch-SameTables es db) h
apply_db-IsValid aead key (move_cursor s n) db h =
    SameTables-IsValid db _ (set_sync_cursor-SameTables s n db) h
apply_db-IsValid aead key (cache d) db h =
    SameTables-IsValid db _ (cache_relay_directory-SameTables d db) h
apply_db-IsValid aead key (open_group g now) db h = create_group-IsValid g now db h
apply_db-IsValid aead key (join g d a) db h =
    SameTables-IsValid db _ (add_member-SameTables g d a db) h
apply_db-IsValid aead key (leave g d now) db h =
    SameTables-IsValid db _ (remove_member-SameTables g d now db) h
apply_db-IsValid aead key (block a now) db h =
    SameTables-IsValid db _ (block_account-SameTables a now db) h
apply_db-IsValid aead key (unblock a) db h =
    SameTables-IsValid db _ (unblock_account-SameTables a db) h
apply_db-IsValid aead key (choose_mode m) db h =
    SameTables-IsValid db _ (set_network_mode-SameTables m db) h
apply_db-IsValid aead key (rotate n k v) db h = h
apply_db-IsValid aead key wipe db h = wipe_local_account-IsValid db

apply-IsValid :
    (aead : Aead) (op : Operation) (core : MessengerCore)
    → IsValid core.db
    → IsValid (apply aead op core).db
unfolding apply
apply-IsValid aead (rotate n k v) core h = rotate_master_key-IsValid aead n k v core h
apply-IsValid aead op core h = apply_db-IsValid aead core.master_key op core.db h

-- A call that leaves the tables as they are keeps the keys.
kept : {t t' : KeyedTables} → t' ≡ t → HasKeys t → HasKeys t'
kept same h = subst HasKeys (sym same) h

apply_db-HasKeys :
    (aead : Aead) (key : Bytes) (op : Operation) (db : Db)
    → HasKeys (keyed db)
    → HasKeys (keyed (apply_db aead key op db))
unfolding apply_db apply_delivery_receipt apply_read_receipt set_network_mode create_group
apply_db-HasKeys aead key (create c p i n now) db h =
    create_message-HasKeys db h aead key c p i n now
apply_db-HasKeys aead key (accept i) db h = kept (mark_upload_accepted-keyed i db) h
apply_db-HasKeys aead key (retry i now) db h = kept (retry_message-keyed i now db) h
apply_db-HasKeys aead key (cancel i) db h = kept (cancel_pending_message-keyed i db) h
apply_db-HasKeys aead key (deliver i) db h = kept (advance_message_status-keyed i delivered db) h
apply_db-HasKeys aead key (mark_read i) db h = kept (advance_message_status-keyed i read db) h
apply_db-HasKeys aead key (ingest e c b now) db h = ingest_server_event-HasKeys db h e c b now
apply_db-HasKeys aead key (ingest_all es) db h = ingest_server_batch-HasKeys es db h
apply_db-HasKeys aead key (move_cursor s n) db h = set_sync_cursor-HasKeys db h s n
apply_db-HasKeys aead key (cache d) db h = cache_relay_directory-HasKeys db h d
apply_db-HasKeys aead key (open_group g now) db h = insert_conversation-HasKeys g now db h
apply_db-HasKeys aead key (join g d a) db h = add_member-HasKeys db h g d a
apply_db-HasKeys aead key (leave g d now) db h = remove_member-HasKeys db h g d now
apply_db-HasKeys aead key (block a now) db h = block_account-HasKeys db h a now
apply_db-HasKeys aead key (unblock a) db h = unblock_account-HasKeys db h a
apply_db-HasKeys aead key (choose_mode m) db h = h
apply_db-HasKeys aead key (rotate n k v) db h = h
apply_db-HasKeys aead key wipe db h = wipe_local_account-HasKeys db

apply-HasKeys :
    (aead : Aead) (op : Operation) (core : MessengerCore)
    → HasKeys (keyed core.db)
    → HasKeys (keyed (apply aead op core).db)
unfolding apply
apply-HasKeys aead (rotate n k v) core h = kept (rotate_master_key-keyed aead n k v core) h
apply-HasKeys aead op core h = apply_db-HasKeys aead core.master_key op core.db h

-- Whatever calls are made in whatever order on a new database, with any cipher: the primary keys of
-- the messages, the outbox, the conversations, the inbox, the group members, the sync cursors, the
-- blocked accounts and the cached directories are distinct; every outbox row has its message, every
-- message and every member its conversation; and no message that was accepted by the server or
-- cancelled is in the outbox.
pub Reach-IsValid :
    (aead : Aead) (core : MessengerCore)
    → Reach aead core
    → IsValid core.db × HasKeys (keyed core.db)
Reach-IsValid aead core (opened key wide) = (empty_db-IsValid, empty_db-HasKeys)
Reach-IsValid aead core (after op {core = old} r) =
    let (valid, keys) = Reach-IsValid aead old r in
    (apply-IsValid aead op old valid, apply-HasKeys aead op old keys)
