-- ===== src/Api/Recovery.antt =====
-- Recovery packages in services/core-api/src/lib.rs.
pub mod Stored
use resilient_messenger.Prelude.{
  ℕ, ◌≤◌, ◌≡◌, refl, ◌∙◌, Bool, true, false, not, ◌&&◌, ◌||◌, List, [], ◌∷◌, ◌++◌, Bytes, bytes_eq,
  bytes_eq_refl, bytes_eq_iff, length, ltb, ◌==◌, if◌then◌else◌, Option, none, some, Result, ok,
  err, arith, inl, inr, Bool-cases,
}
use resilient_messenger.Core.Sql.{exists_where, find_where, update_where, count_where}
use resilient_messenger.Api.{ApiError, conflict, invalid_input, database, AccountRow, Backend}
use resilient_messenger.Api.Devices.{is_account}

-- MAX_RECOVERY_BLOB_SIZE
abbrev pub max_recovery_blob_size : ℕ
max_recovery_blob_size = 262144

-- `recovery_identifier=$2`, not true of NULL
abbrev pub has_identifier : Bytes → AccountRow → Bool
has_identifier id a = elim a.recovery_identifier [ none ↦ false | some x ↦ bytes_eq x id ]

-- The clause of the update: the account has no identifier yet, or this one.
abbrev pub can_store : Bytes → Bytes → AccountRow → Bool
can_store account id a =
    is_account account a && elim a.recovery_identifier [ none ↦ true | some x ↦ bytes_eq x id ]

abbrev pub set_package : Bytes → Bytes → AccountRow → AccountRow
set_package id blob a = record a { recovery_identifier = some id; recovery_blob = some blob }

-- The identifier is unique over the accounts, and the update names one account.
unfoldable pub store_recovery_package :
    Bytes → Bytes → Bytes → Backend → Result ApiError (Unit {0}) × Backend
store_recovery_package account id blob db =
    if length blob == 0 || ltb max_recovery_blob_size (length blob)
    then (err invalid_input, db)
    else if not (count_where (can_store account id) db.accounts == 1)
    then (err conflict, db)
    else if exists_where (λ a. has_identifier id a && not (is_account account a)) db.accounts
    then (err database, db)
    else (
      ok tt,
      record db {
        accounts = update_where (can_store account id) (set_package id blob) db.accounts;
      },
    )

-- `recovery_blob IS NOT NULL`
abbrev pub has_blob : AccountRow → Bool
has_blob a = elim a.recovery_blob [ none ↦ false | some b ↦ true ]

unfoldable pub fetch_recovery_package : Bytes → Backend → Option Bytes
fetch_recovery_package id db =
    elim (find_where (λ a. has_identifier id a && has_blob a) db.accounts) [
      | none ↦ none
      | some a ↦ a.recovery_blob
    ]
