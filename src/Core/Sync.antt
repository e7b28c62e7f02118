-- ===== src/Core/Sync.antt =====
-- Receiving in crates/messenger-core/src/lib.rs: the inbox, the sync cursors and the cache of the
-- relay directory. A u64 that is stored as an i64 is negative from 2 ^ 63 on, which the CHECK of
-- its column refuses.
pub mod Cursors
pub mod Inbox
pub mod Directories
use resilient_messenger.Prelude.{
  ℕ, zero, suc, ◌+◌, ◌^◌, max, Bool, true, false, not, ◌&&◌, ◌||◌, List, [], ◌∷◌, ◌++◌, Bytes,
  length, bytes_eq, ltb, leb, ◌==◌, if◌then◌else◌, Option, none, some, Result, ok, err,
}
use resilient_messenger.Core.{
  CoreError, database, invalid_transition, IncomingEvent, InboxRow, CachedRelayDirectory, Db,
}
use resilient_messenger.Core.Sql.{exists_where, find_where, update_where}
use resilient_messenger.Core.Messages.{in_transaction}

abbrev pub is_event : Bytes → InboxRow → Bool
is_event id row = bytes_eq row.event_id id

-- INSERT OR IGNORE INTO inbox, with its trigger; the number of rows is 1 or 0.
unfoldable pub insert_event : Bytes → Bytes → Bytes → ℕ → Db → ℕ × Db
insert_event event_id conversation_id encrypted now db =
    if exists_where (is_event event_id) db.inbox then (0, db) else (
      1,
      record db {
        inbox =
            db.inbox
            ++ record {
              event_id = event_id;
              conversation_id = conversation_id;
              event_ciphertext = encrypted;
              received_at_ms = now;
            }
              ∷ [];
        revision = db.revision + 1;
      },
    )

unfoldable pub ingest_server_event : Bytes → Bytes → Bytes → ℕ → Db → Result CoreError Bool × Db
ingest_server_event event_id conversation_id encrypted_event now db =
    let (changed, db') = insert_event event_id conversation_id encrypted_event now db in
    (ok (changed == 1), db')

-- The loop of `ingest_server_batch`; the clock is read for each event.
unfoldable pub insert_events : ℕ → List (IncomingEvent × ℕ) → Db → ℕ × Db
insert_events inserted [] db = (inserted, db)
insert_events inserted ((event, now) ∷ rest) db =
    let (changed, db') =
      insert_event event.event_id event.conversation_id event.encrypted_event now db in
    insert_events (inserted + changed) rest db'

unfoldable pub ingest_server_batch : List (IncomingEvent × ℕ) → Db → Result CoreError ℕ × Db
ingest_server_batch events db =
    if ltb 50 (length events)
    then (err invalid_transition, db)
    else (let (inserted, db') = insert_events 0 events db in (ok inserted, db'))

abbrev pub is_scope : Bytes → Bytes × ℕ → Bool
is_scope scope row = bytes_eq row.0 scope

-- SELECT cursor FROM sync_cursors WHERE scope=?1
unfoldable pub cursor_of : Bytes → List (Bytes × ℕ) → Option ℕ
cursor_of scope rows = elim (find_where (is_scope scope) rows) [
  | none ↦ none
  | some row ↦ some row.1
]

-- INSERT … ON CONFLICT(scope) DO UPDATE SET cursor
unfoldable pub upsert_cursor : Bytes → ℕ → List (Bytes × ℕ) → List (Bytes × ℕ)
upsert_cursor scope cursor [] = (scope, cursor) ∷ []
upsert_cursor scope cursor ((key, old) ∷ rest) =
    if bytes_eq key scope
    then (key, cursor) ∷ rest
    else (key, old) ∷ upsert_cursor scope cursor rest

-- `current.is_some_and(|v| value < v)`
abbrev pub is_before : ℕ → Option ℕ → Bool
is_before value none = false
is_before value (some v) = ltb value v

unfoldable pub set_sync_cursor : Bytes → ℕ → Db → Result CoreError (Unit {0}) × Db
set_sync_cursor scope cursor db =
    if is_before cursor (cursor_of scope db.sync_cursors)
    then (err invalid_transition, db)
    else if leb (2 ^ 63) cursor
    then (err database, db)
    else (ok tt, record db { sync_cursors = upsert_cursor scope cursor db.sync_cursors })

-- SELECT MAX(version)
unfoldable pub max_version : List CachedRelayDirectory → Option ℕ
max_version [] = none
max_version (d ∷ ds) = elim (max_version ds) [
  | none ↦ some d.version
  | some v ↦ some (max d.version v)
]

-- INSERT … ON CONFLICT(version) DO UPDATE SET signed_directory, expires_at_ms
unfoldable pub upsert_directory :
    CachedRelayDirectory → List CachedRelayDirectory → List CachedRelayDirectory
upsert_directory d [] = d ∷ []
upsert_directory d (e ∷ es) = if e.version == d.version then d ∷ es else e ∷ upsert_directory d es

unfoldable pub cache_relay_directory : CachedRelayDirectory → Db → Result CoreError (Unit {0}) × Db
cache_relay_directory directory db =
    if is_before directory.version (max_version db.relay_directory_cache)
    then (err invalid_transition, db)
    else if leb (2 ^ 63) directory.version
    then (err database, db)
    else (
      ok tt,
      record db { relay_directory_cache = upsert_directory directory db.relay_directory_cache },
    )

-- ORDER BY version DESC LIMIT 1
unfoldable pub newest : List CachedRelayDirectory → Option CachedRelayDirectory
newest [] = none
newest (d ∷ ds) = elim (newest ds) [
  | none ↦ some d
  | some e ↦ if ltb d.version e.version then some e else some d
]

unfoldable pub last_relay_directory : Db → Option CachedRelayDirectory
last_relay_directory db = newest db.relay_directory_cache
