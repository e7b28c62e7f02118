-- ===== src/Api/Events.antt =====
-- Events, cursors and receipts in services/core-api/src/lib.rs.
pub mod Uploads
pub mod Pages
pub mod Reading
pub mod Cursors
use resilient_messenger.Prelude.{
  ℕ, zero, suc, ◌+◌, max, min, Bool, true, false, not, ◌&&◌, ◌||◌, List, [], ◌∷◌, ◌++◌, map, Bytes,
  length, take, bytes_eq, ltb, leb, ◌==◌, sort_by, if◌then◌else◌, Option, none, some, Result, ok,
  err, ◌>>=◌, ◌>>◌, ensure,
}
use resilient_messenger.Core.Sql.{
  exists_where, find_where, select_where, update_where, delete_where, count_where,
}
use resilient_messenger.Core.Account.{is_present}
use resilient_messenger.Api.{
  ApiError, conflict, unauthorized, invalid_input, cursor_regression, database, ℤ, pos, negsuc,
  at_least_zero, max_sync_batch, clamp_batch, event_ttl, event_kind_mls_commit, UploadedEvent,
  UploadAccepted, SyncEvent, OperationRow, EventRow, CursorRow, ReceiptRow, Backend,
}
use resilient_messenger.Api.Groups.{
  is_active_group_member, assert_active_member, is_operation, in_transaction,
}

abbrev pub is_event : Bytes → EventRow → Bool
is_event id e = bytes_eq e.event_id id

-- The UNIQUE columns `author_device_id` and `client_message_id`.
abbrev pub is_from : Bytes → Bytes → EventRow → Bool
is_from author message e =
    bytes_eq e.author_device_id author && bytes_eq e.client_message_id message

abbrev pub is_applied : Option ℕ → Bool
is_applied none = false
is_applied (some t) = true

-- A correlation identifier needs an applied operation of the group; a commit needs one.
unfoldable pub check_correlation : UploadedEvent → Backend → Result ApiError (Unit {0})
check_correlation e db = elim e.correlation_id [
  | none ↦ if e.event_kind == event_kind_mls_commit then err invalid_input else ok tt
  | some id ↦
      if exists_where
        (λ o. is_operation id o && bytes_eq o.group_id e.group_id && is_applied o.applied_at)
        db.operations
      then ok tt
      else err conflict
]

abbrev pub event_row : UploadedEvent → ℕ → ℕ → EventRow
event_row e cursor now = record {
  event_cursor = cursor;
  event_id = e.event_id;
  group_id = e.group_id;
  author_device_id = e.author_device_id;
  client_message_id = e.client_message_id;
  correlation_id = e.correlation_id;
  event_kind = e.event_kind;
  ciphertext = e.ciphertext;
  expires_at = now + event_ttl;
}

-- The INSERT draws its cursor even where the primary key refuses the row: a sequence is not
-- rolled back.
unfoldable pub store_event : UploadedEvent → ℕ → Backend → Result ApiError UploadAccepted × Backend
store_event e now db =
    let drawn = record db { next_cursor = db.next_cursor + 1 } in
    if exists_where (is_event e.event_id) db.events then (err database, drawn) else (
      ok (record { cursor = db.next_cursor; duplicate = false }),
      record drawn { events = db.events ++ event_row e db.next_cursor now ∷ [] },
    )

-- What follows the checks: the message was uploaded before, or is stored.
unfoldable pub store_once : UploadedEvent → ℕ → Backend → Result ApiError UploadAccepted × Backend
store_once e now db = elim (find_where (is_from e.author_device_id e.client_message_id) db.events) [
  | none ↦ store_event e now db
  | some old ↦
      if bytes_eq old.event_id e.event_id && bytes_eq old.ciphertext e.ciphertext
      then (ok (record { cursor = old.event_cursor; duplicate = true }), db)
      else (err conflict, db)
]

unfoldable pub check_upload : UploadedEvent → Backend → Result ApiError (Unit {0})
check_upload e db = do
  ensure (not (length e.ciphertext == 0 || ltb 65536 (length e.ciphertext))) invalid_input
  assert_active_member db e.group_id e.author_device_id
  check_correlation e db

-- `upload_event`; the notification of other servers is not modelled.
unfoldable pub upload_event : UploadedEvent → ℕ → Backend → Result ApiError UploadAccepted × Backend
upload_event e now db = elim (check_upload e db) [
  | err x ↦ (err x, db)
  | ok _ ↦ store_once e now db
]

abbrev pub sync_event : EventRow → SyncEvent
sync_event e = record {
  cursor = e.event_cursor;
  event_id = e.event_id;
  event_kind = e.event_kind;
  ciphertext = e.ciphertext;
}

abbrev pub cursor_at_most : EventRow → EventRow → Bool
cursor_at_most a b = leb a.event_cursor b.event_cursor

abbrev pub is_unseen : ℕ → ℕ → EventRow → Bool
is_unseen after now e = ltb after e.event_cursor && ltb now e.expires_at

unfoldable pub sync_group : Bytes → Bytes → ℤ → ℤ → ℕ → Backend → Result ApiError (List SyncEvent)
sync_group device group after limit now db = do
  assert_active_member db group device
  ok (
      map sync_event (
        take (clamp_batch limit) (
          sort_by cursor_at_most (
            select_where (λ e. bytes_eq e.group_id group && is_unseen (at_least_zero after) now e)
              db.events))))

-- The join meets at most one row, by the primary key of `group_members`.
unfoldable pub sync_global : Bytes → ℤ → ℤ → ℕ → Backend → Result ApiError (List SyncEvent)
sync_global device after limit now db = ok (
    map sync_event (
      take (clamp_batch limit) (
        sort_by cursor_at_most (
          select_where
            (λ e.
              exists_where (is_active_group_member e.group_id device) db.members
              && is_unseen (at_least_zero after) now e)
            db.events))))

abbrev pub is_receipt : Bytes → Bytes → ℕ → ReceiptRow → Bool
is_receipt event device kind r =
    bytes_eq r.event_id event && bytes_eq r.device_id device && r.receipt_type == kind

-- INSERT … SELECT … ON CONFLICT DO NOTHING, and its number of rows.
unfoldable pub insert_receipt : Bytes → ℕ → Bytes → Backend → ℕ × Backend
insert_receipt device kind event db =
    if exists_where
        (λ e.
          is_event event e && exists_where (is_active_group_member e.group_id device) db.members)
        db.events
      && not (exists_where (is_receipt event device kind) db.receipts)
    then (
      1,
      record db {
        receipts =
            db.receipts
            ++ record { event_id = event; device_id = device; receipt_type = kind } ∷ [];
      },
    )
    else (0, db)

unfoldable pub insert_receipts : Bytes → ℕ → ℕ → List Bytes → Backend → ℕ × Backend
insert_receipts device kind inserted [] db = (inserted, db)
insert_receipts device kind inserted (event ∷ rest) db =
    let (changed, db') = insert_receipt device kind event db in
    insert_receipts device kind (inserted + changed) rest db'

unfoldable pub record_receipts : Bytes → List Bytes → ℕ → Backend → Result ApiError ℕ × Backend
record_receipts device events kind db =
    if not (kind == 1 || kind == 2) || ltb max_sync_batch (length events)
    then (err invalid_input, db)
    else (let (inserted, db') = insert_receipts device kind 0 events db in (ok inserted, db'))

abbrev pub is_cursor : Bytes → Bytes → CursorRow → Bool
is_cursor device group c = bytes_eq c.device_id device && bytes_eq c.group_id group

-- SELECT cursor FROM device_group_cursors
unfoldable pub group_cursor : Bytes → Bytes → List CursorRow → Option ℕ
group_cursor device group rows = elim (find_where (is_cursor device group) rows) [
  | none ↦ none
  | some c ↦ some c.cursor
]

-- COALESCE(MAX(event_cursor),0)
unfoldable pub last_cursor : Bytes → List EventRow → ℕ
last_cursor group [] = 0
last_cursor group (e ∷ es) =
    let rest = last_cursor group es in
    if bytes_eq e.group_id group then max e.event_cursor rest else rest

-- INSERT … ON CONFLICT(device_id,group_id) DO UPDATE SET cursor
unfoldable pub upsert_group_cursor : Bytes → Bytes → ℕ → List CursorRow → List CursorRow
upsert_group_cursor device group n [] =
    record { device_id = device; group_id = group; cursor = n } ∷ []
upsert_group_cursor device group n (c ∷ cs) =
    if is_cursor device group c
    then record c { cursor = n } ∷ cs
    else c ∷ upsert_group_cursor device group n cs

-- `current.is_some_and(|value| cursor < value)`
abbrev pub is_regression : ℤ → Option ℕ → Bool
is_regression cursor none = false
is_regression (pos n) (some v) = ltb n v
is_regression (negsuc n) (some v) = true

-- The CHECK of the column refuses a negative cursor.
unfoldable pub move_group_cursor :
    Bytes → Bytes → ℤ → Backend → Result ApiError (Unit {0} × Backend)
move_group_cursor device group cursor db = do
  assert_active_member db group device
  ensure (not (is_regression cursor (group_cursor device group db.cursors))) cursor_regression
  elim cursor [
    | negsuc n ↦ err database
    | pos n ↦
        if ltb (last_cursor group db.events) n
        then err invalid_input
        else ok (tt, record db { cursors = upsert_group_cursor device group n db.cursors })
  ]

unfoldable pub advance_group_cursor :
    Bytes → Bytes → ℤ → Backend → Result ApiError (Unit {0}) × Backend
advance_group_cursor device group cursor db =
    in_transaction (move_group_cursor device group cursor) db

-- `batch.clamp(1, 10_000)`
abbrev pub clamp_cleanup : ℤ → ℕ
clamp_cleanup (pos n) = max 1 (min n 10000)
clamp_cleanup (negsuc n) = 1

-- DELETE … WHERE event_id IN (SELECT … WHERE expires_at<=now() LIMIT $1). Which of the expired rows
-- the database takes is not specified; these are the first.
unfoldable pub cleanup_expired_events : ℤ → ℕ → Backend → Result ApiError ℕ × Backend
cleanup_expired_events batch now db =
    let chosen = take (clamp_cleanup batch) (select_where (λ e. leb e.expires_at now) db.events) in
    let is_chosen = λ (e : EventRow). exists_where (is_event e.event_id) chosen in
    (ok (count_where is_chosen db.events), record db { events = delete_where is_chosen db.events })
