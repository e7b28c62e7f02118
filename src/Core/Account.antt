-- ===== src/Core/Account.antt =====
-- Groups, blocked accounts, the network mode and the wipe in crates/messenger-core/src/lib.rs.
use resilient_messenger.Prelude.{
  ℕ, ◌+◌, max, Bool, true, false, not, ◌&&◌, List, [], ◌∷◌, ◌++◌, Bytes, length, bytes_eq, ◌==◌,
  if◌then◌else◌, Option, none, some, Result, ok, err,
}
use resilient_messenger.Core.{
  CoreError, database, authentication, not_found, NetworkMode, normal, limited, survival,
  NetworkDiagnostics, MemberRow, Db,
}
use resilient_messenger.Core.Sql.{exists_where, update_where, delete_where, count_where}
use resilient_messenger.Core.Messages.{is_conversation, insert_conversation}

unfoldable pub create_group : Bytes → ℕ → Db → Result CoreError (Unit {0}) × Db
create_group group_id now db = (ok tt, insert_conversation group_id now db)

abbrev pub is_member : Bytes → Bytes → MemberRow → Bool
is_member group_id device_id m =
    bytes_eq m.conversation_id group_id && bytes_eq m.device_id device_id

abbrev pub is_present : Option ℕ → Bool
is_present none = true
is_present (some t) = false

-- The member's group has to exist; an insert and an update fire a trigger each.
unfoldable pub add_member : Bytes → Bytes → Bytes → Db → Result CoreError (Unit {0}) × Db
add_member group_id device_id account_id db =
    if exists_where (is_member group_id device_id) db.members
    then (
      ok tt,
      record db {
        members =
            update_where (is_member group_id device_id)
              (λ m. record m { account_id = account_id; removed_at_ms = none }) db.members;
        revision = db.revision + count_where (is_member group_id device_id) db.members;
      },
    )
    else if not (exists_where (is_conversation group_id) db.conversations)
    then (err database, db)
    else (
      ok tt,
      record db {
        members =
            db.members
            ++ record {
              conversation_id = group_id;
              device_id = device_id;
              account_id = account_id;
              removed_at_ms = none;
            }
              ∷ [];
        revision = db.revision + 1;
      },
    )

abbrev pub is_active_member : Bytes → Bytes → MemberRow → Bool
is_active_member group_id device_id m = is_member group_id device_id m && is_present m.removed_at_ms

unfoldable pub remove_member : Bytes → Bytes → ℕ → Db → Result CoreError (Unit {0}) × Db
remove_member group_id device_id now db =
    let p = is_active_member group_id device_id in
    let changed = count_where p db.members in
    let updated = record db {
      members = update_where p (λ m. record m { removed_at_ms = some now }) db.members;
      revision = db.revision + changed;
    } in
    if changed == 1 then (ok tt, updated) else (err not_found, updated)

abbrev pub is_account : Bytes → Bytes × ℕ → Bool
is_account account_id row = bytes_eq row.0 account_id

unfoldable pub block_account : Bytes → ℕ → Db → Result CoreError (Unit {0}) × Db
block_account account_id now db =
    if exists_where (is_account account_id) db.blocked_accounts
    then (ok tt, db)
    else (ok tt, record db { blocked_accounts = db.blocked_accounts ++ (account_id, now) ∷ [] })

unfoldable pub unblock_account : Bytes → Db → Result CoreError (Unit {0}) × Db
unblock_account account_id db = (
  ok tt,
  record db { blocked_accounts = delete_where (is_account account_id) db.blocked_accounts },
)

unfoldable pub mode_code : NetworkMode → ℕ
mode_code normal = 0
mode_code limited = 1
mode_code survival = 2

unfoldable pub set_network_mode : NetworkMode → Db → Result CoreError (Unit {0}) × Db
set_network_mode mode db = (ok tt, record db { network_mode = mode_code mode })

-- The `match mode` of `get_network_diagnostics`.
unfoldable pub mode_of : ℕ → Result CoreError NetworkMode
mode_of n =
    if n == 0
    then ok normal
    else if n == 1
    then ok limited
    else if n == 2
    then ok survival
    else err authentication

-- COALESCE(MAX(cursor),0)
unfoldable pub max_cursor : List (Bytes × ℕ) → ℕ
max_cursor [] = 0
max_cursor ((scope, cursor) ∷ rest) = max cursor (max_cursor rest)

unfoldable pub get_network_diagnostics : Db → Result CoreError NetworkDiagnostics
get_network_diagnostics db = elim (mode_of db.network_mode) [
  | err e ↦ err e
  | ok mode ↦ ok (record {
    mode = mode;
    pending_uploads = length db.outbox;
    last_cursor = max_cursor db.sync_cursors;
  })
]

-- One transaction. It keeps the network mode, the version of the key, and counts one change.
unfoldable pub wipe_local_account : Db → Result CoreError (Unit {0}) × Db
wipe_local_account db = (
  ok tt,
  record db {
    outbox = [];
    inbox = [];
    messages = [];
    members = [];
    conversations = [];
    sync_cursors = [];
    receipts = [];
    contact_requests = [];
    blocked_accounts = [];
    relay_directory_cache = [];
    crypto_state = [];
    revision = db.revision + 1;
  },
)
