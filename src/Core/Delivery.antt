-- ===== src/Core/Delivery.antt =====
-- The life of an outgoing message in crates/messenger-core/src/lib.rs: accepted by the server,
-- retried, cancelled, delivered, read.
pub mod Accepting
pub mod Lifecycle
pub mod Receipts
use resilient_messenger.Prelude.{
  ℕ, ◌+◌, ◌*◌, ◌^◌, min, Bool, true, false, not, ◌&&◌, ◌||◌, List, Bytes, bytes_eq, ltb, leb, ◌==◌,
  if◌then◌else◌, Option, none, some, Result, ok, err,
}
use resilient_messenger.Core.{
  CoreError, database, invalid_transition, not_found, MessageStatus, status_code, queued,
  ready_to_upload, uploading, server_accepted, delivered, read, retry_scheduled, cancelled,
  MessageRow, OutboxRow, Db,
}
use resilient_messenger.Core.Sql.{update_where, delete_where, count_where, find_where, exists_where}
use resilient_messenger.Core.Messages.{in_transaction, is_message, is_outbox}

abbrev pub set_status : ℕ → MessageRow → MessageRow
set_status s m = record m { status = s }

-- UPDATE messages SET status WHERE p, with its trigger for each row.
unfoldable pub update_status : (MessageRow → Bool) → MessageStatus → Db → Db
update_status p s db = record db {
  messages = update_where p (set_status (status_code s)) db.messages;
  revision = db.revision + count_where p db.messages;
}

-- DELETE FROM outbox WHERE client_message_id=?1
unfoldable pub delete_outbox : Bytes → Db → Db
delete_outbox id db = record db { outbox = delete_where (is_outbox id) db.outbox }

-- client_message_id=?1 AND status IN (?3,?4,?5)
unfoldable pub in_status : Bytes → MessageStatus → MessageStatus → MessageStatus → MessageRow → Bool
in_status id a b c m =
    is_message id m
    && (m.status == status_code a || m.status == status_code b || m.status == status_code c)

-- What follows the UPDATE in `mark_upload_accepted`: the status that the row has now.
unfoldable pub check_accepted : ℕ → Option MessageRow → Result CoreError (Unit {0})
check_accepted changed none = if changed == 0 then err not_found else ok tt
check_accepted changed (some m) =
    if changed == 0 && not (m.status == status_code server_accepted)
    then err invalid_transition
    else ok tt

unfoldable pub accept_upload : Bytes → Db → Result CoreError (Unit {0} × Db)
accept_upload id db =
    let p = in_status id ready_to_upload uploading retry_scheduled in
    let changed = count_where p db.messages in
    let updated = update_status p server_accepted db in
    elim (check_accepted changed (find_where (is_message id) updated.messages)) [
      | err e ↦ err e
      | ok _ ↦ ok (tt, delete_outbox id updated)
    ]

unfoldable pub mark_upload_accepted : Bytes → Db → Result CoreError (Unit {0}) × Db
mark_upload_accepted id db = in_transaction (accept_upload id) db

-- `1_000_i64.saturating_mul(1_i64 << attempts.min(10))`, which never reaches the bound.
abbrev pub retry_delay : ℕ → ℕ
retry_delay attempts = 1000 * 2 ^ min attempts 10

-- Two statements of their own, with no transaction. The clock is far enough from the largest i64
-- that the sum does not overflow.
unfoldable pub reschedule : Bytes → ℕ → ℕ → Db → Db
reschedule id attempts now db = update_status (is_message id) retry_scheduled (record db {
  outbox =
      update_where (is_outbox id)
        (λ o. record o {
          attempts = o.attempts + 1;
          next_attempt_at_ms = now + retry_delay attempts;
        })
        db.outbox;
})

-- Reading `attempts` as a u32 fails on a larger number.
unfoldable pub retry_message : Bytes → ℕ → Db → Result CoreError (Unit {0}) × Db
retry_message id now db = elim (find_where (is_outbox id) db.outbox) [
  | none ↦ (err not_found, db)
  | some o ↦
      if leb (2 ^ 32) o.attempts
      then (err database, db)
      else (ok tt, reschedule id o.attempts now db)
]

unfoldable pub cancel_pending : Bytes → Db → Result CoreError (Unit {0} × Db)
cancel_pending id db =
    let p = in_status id queued ready_to_upload retry_scheduled in
    if count_where p db.messages == 0
    then err invalid_transition
    else ok (tt, delete_outbox id (update_status p cancelled db))

unfoldable pub cancel_pending_message : Bytes → Db → Result CoreError (Unit {0}) × Db
cancel_pending_message id db = in_transaction (cancel_pending id) db

-- client_message_id=?1 AND status<?2
unfoldable pub is_behind : Bytes → MessageStatus → MessageRow → Bool
is_behind id s m = is_message id m && ltb m.status (status_code s)

unfoldable pub advance_message_status :
    Bytes → MessageStatus → Db → Result CoreError (Unit {0}) × Db
advance_message_status id s db =
    let updated = update_status (is_behind id s) s db in
    if count_where (is_behind id s) db.messages == 0
      && not (exists_where (is_message id) db.messages)
    then (err not_found, updated)
    else (ok tt, updated)

unfoldable pub apply_delivery_receipt : Bytes → Db → Result CoreError (Unit {0}) × Db
apply_delivery_receipt id db = advance_message_status id delivered db

unfoldable pub apply_read_receipt : Bytes → Db → Result CoreError (Unit {0}) × Db
apply_read_receipt id db = advance_message_status id read db
