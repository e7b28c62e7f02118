-- ===== src/Api/Devices.antt =====
-- Accounts and their devices in services/core-api/src/lib.rs. SHA-256 and Ed25519 are parameters;
-- what a constraint of migrations/0001_foundation.sql refuses is a database error.
pub mod Registered
use resilient_messenger.Prelude.{
  ℕ, ◌^◌, Bool, true, false, not, ◌&&◌, ◌||◌, List, [], ◌∷◌, ◌++◌, Bytes, bytes_eq, leb,
  if◌then◌else◌, Option, none, some, Result, ok, err, ◌>>=◌, ◌>>◌, ensure,
}
use resilient_messenger.Transport.Directory.{Ed25519}
use resilient_messenger.Core.Sql.{exists_where, find_where}
use resilient_messenger.Identity.{
  DeviceCertificate, account_id_from_root_public, verify_device_certificate,
}
use resilient_messenger.Api.{
  ApiError, invalid_credentials, replay, conflict, unauthorized, database, AccountRow, Backend,
}
use resilient_messenger.Api.Groups.{is_device, is_active_device, in_transaction}

unfoldable pub device_account_id : Bytes → Backend → Result ApiError Bytes
device_account_id device db = elim (find_where (is_active_device device) db.devices) [
  | none ↦ err unauthorized
  | some d ↦ ok d.account_id
]

abbrev pub is_account : Bytes → AccountRow → Bool
is_account id a = bytes_eq a.account_id id

abbrev pub has_root : Bytes → AccountRow → Bool
has_root root a = bytes_eq a.root_public_key root

-- INSERT … ON CONFLICT(account_id) DO NOTHING; the root key is unique too.
unfoldable pub insert_account : Bytes → Bytes → Backend → Result ApiError Backend
insert_account account root db =
    if exists_where (is_account account) db.accounts
    then ok db
    else if exists_where (has_root root) db.accounts
    then err database
    else ok (record db {
      accounts =
          db.accounts
          ++ record {
            account_id = account;
            root_public_key = root;
            recovery_identifier = none;
            recovery_blob = none;
          }
            ∷ [];
    })

-- UNIQUE(account_id, device_public_key); that the identifier is new has been checked.
unfoldable pub insert_device : Bytes → DeviceCertificate → Backend → Result ApiError Backend
insert_device account cert db =
    if exists_where
      (λ d. bytes_eq d.account_id account && bytes_eq d.device_public_key cert.device_public_key)
      db.devices
    then err database
    else ok (record db {
      devices =
          db.devices
          ++ record {
            device_id = cert.device_id;
            account_id = account;
            device_public_key = cert.device_public_key;
            revoked_at = none;
          }
            ∷ [];
    })

-- `cert.issued_at as i64`, and CHECK (issued_at>=0)
unfoldable pub insert_certificate : DeviceCertificate → Backend → Result ApiError Backend
insert_certificate cert db =
    if leb (2 ^ 63) cert.issued_at
      || exists_where (λ c. bytes_eq c.device_id cert.device_id) db.certificates
    then err database
    else ok (record db {
      certificates =
          db.certificates
          ++ record {
            device_id = cert.device_id;
            certificate_signature = cert.signature;
            issued_at = cert.issued_at;
          }
            ∷ [];
    })

unfoldable pub register_once :
    Bytes → Bytes → DeviceCertificate → Backend → Result ApiError (Unit {0} × Backend)
register_once account root cert db = do
  ensure (not (exists_where (is_device cert.device_id) db.devices)) replay
  named ← insert_account account root db
  ensure (exists_where (λ a. is_account account a && has_root root a) named.accounts) conflict
  joined ← insert_device account cert named
  certified ← insert_certificate cert joined
  ok (tt, certified)

unfoldable pub register_account_device :
    (Bytes → Bytes)
    → Ed25519
    → Bytes
    → Bytes
    → DeviceCertificate
    → Backend
    → Result ApiError (Unit {0}) × Backend
register_account_device sha256 ed account root cert db =
    if not (bytes_eq (account_id_from_root_public sha256 root) account)
      || not (verify_device_certificate ed root cert)
    then (err invalid_credentials, db)
    else in_transaction (register_once account root cert) db
