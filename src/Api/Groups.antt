-- ===== src/Api/Groups.antt =====
-- Groups and their members in services/core-api/src/lib.rs. The clock is an argument; what a
-- constraint of migrations/0001_foundation.sql refuses is a database error that changes nothing.
pub mod Replays
pub mod Payload
use resilient_messenger.Prelude.{
  ℕ, Bool, true, false, not, ◌&&◌, ◌||◌, List, [], ◌∷◌, ◌++◌, Bytes, codes, be16, bytes_eq, ltb,
  ◌==◌, if◌then◌else◌, Option, none, some, Result, ok, err, ◌>>=◌, ◌>>◌, ensure, ok_or,
}
use resilient_messenger.Transport.Directory.{Ed25519}
use resilient_messenger.Core.Sql.{exists_where, find_where, update_where, count_where}
use resilient_messenger.Core.Account.{is_present}
use resilient_messenger.Api.{
  ApiError, invalid_credentials, conflict, unauthorized, invalid_input, database,
  MembershipOperation, DeviceRow, GroupMemberRow, OperationRow, Backend,
}

abbrev pub is_device : Bytes → DeviceRow → Bool
is_device id d = bytes_eq d.device_id id

abbrev pub is_active_device : Bytes → DeviceRow → Bool
is_active_device id d = is_device id d && is_present d.revoked_at

abbrev pub is_group_member : Bytes → Bytes → GroupMemberRow → Bool
is_group_member group device m = bytes_eq m.group_id group && bytes_eq m.device_id device

abbrev pub is_active_group_member : Bytes → Bytes → GroupMemberRow → Bool
is_active_group_member group device m = is_group_member group device m && is_present m.removed_at

unfoldable pub assert_active_member : Backend → Bytes → Bytes → Result ApiError (Unit {0})
assert_active_member db group device =
    if exists_where (is_active_group_member group device) db.members
    then ok tt
    else err unauthorized

-- A failing body rolls back.
unfoldable pub in_transaction :
    {A : Type 0} → (Backend → Result ApiError (A × Backend)) → Backend → Result ApiError A × Backend
in_transaction body db = elim (body db) [ ok (a, db') ↦ (ok a, db') | err e ↦ (err e, db) ]

unfoldable pub insert_group : Bytes → Backend → Result ApiError Backend
insert_group group db =
    if exists_where (λ g. bytes_eq g group) db.groups
    then err database
    else ok (record db { groups = db.groups ++ group ∷ [] })

-- INSERT INTO group_members, with its keys and its CHECK.
unfoldable pub insert_member : GroupMemberRow → Backend → Result ApiError Backend
insert_member row db =
    if ltb 2 row.role
      || exists_where (is_group_member row.group_id row.device_id) db.members
      || not (exists_where (λ g. bytes_eq g row.group_id) db.groups)
      || not (exists_where (is_device row.device_id) db.devices)
      || not (exists_where (λ a. bytes_eq a.account_id row.account_id) db.accounts)
    then err database
    else ok (record db { members = db.members ++ row ∷ [] })

unfoldable pub found_group : Bytes → Bytes → Bytes → Backend → Result ApiError (Unit {0} × Backend)
found_group group creator account db = do
  ensure
      (exists_where (λ d. is_active_device creator d && bytes_eq d.account_id account) db.devices)
      unauthorized
  opened ← insert_group group db
  joined ←
      insert_member
        (record {
          group_id = group;
          device_id = creator;
          account_id = account;
          role = 2;
          removed_at = none;
        })
        opened
  ok (tt, joined)

unfoldable pub create_group : Bytes → Bytes → Bytes → Backend → Result ApiError (Unit {0}) × Backend
create_group group creator account db = in_transaction (found_group group creator account) db

unfoldable pub add_group_member :
    Bytes → Bytes → Bytes → ℕ → Backend → Result ApiError (Unit {0}) × Backend
add_group_member group device account role db =
    in_transaction
      (λ b.
        insert_member
          (record {
            group_id = group;
            device_id = device;
            account_id = account;
            role = role;
            removed_at = none;
          })
          b
        >>= λ b'. ok (tt, b'))
      db

unfoldable pub membership_operation_payload : Bytes → Bytes → Bytes → Bytes → ℕ → Bool → Bytes
membership_operation_payload correlation group author target role remove =
    codes "resilient/membership-operation/v1"
    ++ correlation
    ++ group
    ++ author
    ++ target
    ++ be16 role
    ++ (if remove then 1 else 0) ∷ []

abbrev pub payload_of : MembershipOperation → Bytes
payload_of r =
    membership_operation_payload r.correlation_id r.group_id r.author_device_id r.target_device_id
      r.role r.remove

-- The public key of the author, if the author is an administrator of the group.
unfoldable pub author_key : MembershipOperation → Backend → Option Bytes
author_key r db =
    elim (find_where (λ m. is_active_group_member r.group_id r.author_device_id m && m.role == 2)
      db.members) [
        | none ↦ none
        | some m ↦ elim (find_where (is_device m.device_id) db.devices) [
          | none ↦ none
          | some d ↦ some d.device_public_key
        ]
      ]

abbrev pub is_operation : Bytes → OperationRow → Bool
is_operation id o = bytes_eq o.correlation_id id

-- The row of an applied operation: it is inserted and marked in one transaction.
abbrev pub operation_row : MembershipOperation → ℕ → OperationRow
operation_row r now = record {
  correlation_id = r.correlation_id;
  group_id = r.group_id;
  author_device_id = r.author_device_id;
  operation = payload_of r;
  signature = r.signature;
  applied_at = some now;
}

unfoldable pub remove_target : MembershipOperation → ℕ → Backend → Result ApiError Backend
remove_target r now db =
    let p = is_active_group_member r.group_id r.target_device_id in
    if count_where p db.members == 1
    then ok (record db {
      members = update_where p (λ m. record m { removed_at = some now }) db.members;
    })
    else err invalid_input

-- INSERT … ON CONFLICT(group_id,device_id) DO UPDATE; its references hold, since the author is a
-- member of the group and the target a device.
unfoldable pub upsert_member : Bytes → Bytes → Bytes → ℕ → List GroupMemberRow → List GroupMemberRow
upsert_member group device account role members =
    if exists_where (is_group_member group device) members
    then update_where (is_group_member group device)
        (λ m. record m { account_id = account; role = role; removed_at = none }) members
    else members
      ++ record {
        group_id = group;
        device_id = device;
        account_id = account;
        role = role;
        removed_at = none;
      }
        ∷ []

unfoldable pub add_target : MembershipOperation → Backend → Result ApiError Backend
add_target r db = elim (find_where (is_active_device r.target_device_id) db.devices) [
  | none ↦ err invalid_input
  | some d ↦ ok (record db {
    members = upsert_member r.group_id r.target_device_id d.account_id r.role db.members;
  })
]

-- What follows the check of the signature.
unfoldable pub apply_once : MembershipOperation → ℕ → Backend → Result ApiError (Bool × Backend)
apply_once r now db = elim (find_where (is_operation r.correlation_id) db.operations) [
  | some o ↦
      if bytes_eq o.operation (payload_of r) && bytes_eq o.signature r.signature
      then ok (true, db)
      else err conflict
  | none ↦
      (let logged = record db { operations = db.operations ++ operation_row r now ∷ [] } in
        (if r.remove then remove_target r now logged else add_target r logged) >>= λ changed.
        ok (false, changed))
]

unfoldable pub check_signature : Ed25519 → MembershipOperation → Bytes → Result ApiError (Unit {0})
check_signature ed r public =
    if ed.valid_key public && ed.verify public (payload_of r) r.signature
    then ok tt
    else err invalid_credentials

unfoldable pub apply_signed :
    Ed25519 → MembershipOperation → ℕ → Backend → Result ApiError (Bool × Backend)
apply_signed ed r now db = do
  public ← ok_or unauthorized (author_key r db)
  check_signature ed r public
  apply_once r now db

unfoldable pub apply_membership_operation :
    Ed25519 → MembershipOperation → ℕ → Backend → Result ApiError Bool × Backend
apply_membership_operation ed r now db =
    if ltb 2 r.role then (err invalid_input, db) else in_transaction (apply_signed ed r now) db
