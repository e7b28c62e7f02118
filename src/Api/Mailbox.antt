-- ===== src/Api/Mailbox.antt =====
-- Key packages and the mailbox of welcomes in services/core-api/src/lib.rs. No other transaction
-- holds a lock, so SKIP LOCKED skips nothing.
pub mod Packages
use resilient_messenger.Prelude.{
  ℕ, ◌+◌, Bool, true, false, not, ◌&&◌, ◌||◌, List, [], ◌∷◌, ◌++◌, map, Bytes, length, take,
  bytes_eq, ltb, leb, ◌==◌, sort_by, if◌then◌else◌, Option, none, some, Result, ok, err, ◌>>=◌,
  ◌>>◌, ensure,
}
use resilient_messenger.Core.Sql.{exists_where, find_where, select_where, update_where}
use resilient_messenger.Core.Account.{is_present}
use resilient_messenger.Api.{
  ApiError, conflict, unauthorized, invalid_input, ℤ, clamp_batch, event_ttl, max_key_package_size,
  KeyPackageRow, WelcomeRow, Backend,
}
use resilient_messenger.Api.Groups.{
  is_active_device, is_group_member, assert_active_member, in_transaction,
}

abbrev pub is_package : Bytes → KeyPackageRow → Bool
is_package id k = bytes_eq k.package_id id

-- INSERT … SELECT … WHERE EXISTS … ON CONFLICT DO NOTHING: no row is a conflict.
unfoldable pub publish_key_package :
    Bytes → Bytes → Bytes → ℕ → Backend → Result ApiError (Unit {0}) × Backend
publish_key_package device id content now db =
    if length content == 0 || ltb max_key_package_size (length content)
    then (err invalid_input, db)
    else if not (exists_where (is_active_device device) db.devices)
        || exists_where (is_package id) db.key_packages
    then (err conflict, db)
    else (
      ok tt,
      record db {
        key_packages =
            db.key_packages
            ++ record {
              package_id = id;
              device_id = device;
              content = content;
              consumed_at = none;
              created_at = now;
            }
              ∷ [];
      },
    )

abbrev pub is_available : Bytes → KeyPackageRow → Bool
is_available device k = bytes_eq k.device_id device && is_present k.consumed_at

abbrev pub head? : List KeyPackageRow → Option KeyPackageRow
head? [] = none
head? (k ∷ ks) = some k

-- The oldest package that is not consumed; of two as old, the one inserted first.
unfoldable pub oldest_package : Bytes → Backend → Option KeyPackageRow
oldest_package device db = head? (
    sort_by (λ a b. leb a.created_at b.created_at)
      (select_where (is_available device) db.key_packages))

unfoldable pub fetch_key_package :
    Bytes → ℕ → Backend → Result ApiError (Option (Bytes × Bytes)) × Backend
fetch_key_package device now db = elim (oldest_package device db) [
  | none ↦ (ok none, db)
  | some k ↦ (
    ok (some (k.package_id, k.content)),
    record db {
      key_packages =
          update_where (is_package k.package_id) (λ x. record x { consumed_at = some now })
            db.key_packages;
    },
  )
]

abbrev pub is_welcome : Bytes → WelcomeRow → Bool
is_welcome id w = bytes_eq w.welcome_id id

-- ON CONFLICT(welcome_id) DO NOTHING
unfoldable pub put_welcome :
    Bytes → Bytes → Bytes → Bytes → Bytes → ℕ → Backend → Result ApiError (Unit {0} × Backend)
put_welcome author target group id welcome now db = do
  assert_active_member db group author
  ensure (exists_where (is_group_member group target) db.members) unauthorized
  ok (
    tt,
    if exists_where (is_welcome id) db.welcomes then db else record db {
      welcomes =
          db.welcomes
          ++ record {
            welcome_id = id;
            target_device_id = target;
            group_id = group;
            welcome = welcome;
            expires_at = now + event_ttl;
            consumed_at = none;
          }
            ∷ [];
    },
  )

unfoldable pub upload_welcome :
    Bytes → Bytes → Bytes → Bytes → Bytes → ℕ → Backend → Result ApiError (Unit {0}) × Backend
upload_welcome author target group id welcome now db =
    if length welcome == 0 || ltb 65536 (length welcome)
    then (err invalid_input, db)
    else in_transaction (put_welcome author target group id welcome now) db

abbrev pub is_pending : Bytes → ℕ → WelcomeRow → Bool
is_pending target now w =
    bytes_eq w.target_device_id target && is_present w.consumed_at && ltb now w.expires_at

abbrev pub pending_welcomes : Bytes → ℤ → ℕ → Backend → List WelcomeRow
pending_welcomes target limit now db = take (clamp_batch limit) (
    sort_by (λ a b. leb a.expires_at b.expires_at)
      (select_where (is_pending target now) db.welcomes))

-- The loop that marks the rows.
unfoldable pub consume_welcomes : ℕ → List WelcomeRow → List WelcomeRow → List WelcomeRow
consume_welcomes now [] welcomes = welcomes
consume_welcomes now (w ∷ ws) welcomes =
    consume_welcomes now ws
      (update_where (is_welcome w.welcome_id) (λ x. record x { consumed_at = some now }) welcomes)

unfoldable pub fetch_welcomes :
    Bytes → ℤ → ℕ → Backend → Result ApiError (List (Bytes × Bytes × Bytes)) × Backend
fetch_welcomes target limit now db =
    let rows = pending_welcomes target limit now db in
    (
      ok (map (λ w. (w.welcome_id, w.group_id, w.welcome)) rows),
      record db { welcomes = consume_welcomes now rows db.welcomes },
    )
