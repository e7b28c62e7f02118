-- ===== src/Api/Devices/Registered.antt =====
-- What `register_account_device` of services/core-api/src/lib.rs guarantees.
use resilient_messenger.Prelude.{
  ◌≡◌, ◌≢◌, refl, ap, ◌∙◌, true, false, not, ◌&&◌, ◌||◌, List, [], ◌∷◌, ◌++◌, Bytes, bytes_eq,
  bytes_eq_refl, bytes_eq_iff, none, some, ok, arith, ◌⊎◌, inl, inr, All, All-append, Bool-cases,
  Result-cases,
}
use resilient_messenger.Transport.Directory.{Ed25519}
use resilient_messenger.Core.Sql.{exists_where, find_where}
use resilient_messenger.Core.Sql.Keys.{
  find_where-append_new, find_where-append, exists_where-find_where-some,
}
use resilient_messenger.Identity.{
  DeviceCertificate, account_id_from_root_public, verify_device_certificate,
}
use resilient_messenger.Api.{AccountRow, DeviceRow, Backend}
use resilient_messenger.Api.Groups.{is_device, in_transaction}
use resilient_messenger.Api.Devices.{
  is_account, has_root, insert_account, insert_device, insert_certificate, register_once,
  register_account_device,
}

-- The account of a row is the one of its root key.
abbrev pub IsBound : (Bytes → Bytes) → List AccountRow → Type 0
IsBound sha256 accounts =
    All (λ a. account_id_from_root_public sha256 a.root_public_key ≡ a.account_id) accounts

-- The row of a new device.
abbrev pub new_device : Bytes → DeviceCertificate → DeviceRow
new_device account cert = record {
  device_id = cert.device_id;
  account_id = account;
  device_public_key = cert.device_public_key;
  revoked_at = none;
}

abbrev new_account : Bytes → Bytes → AccountRow
new_account account root = record {
  account_id = account;
  root_public_key = root;
  recovery_identifier = none;
  recovery_blob = none;
}

module _ (account root : Bytes) (cert : DeviceCertificate) (db db' : Backend) where
  insert_account-eq-ok :
      insert_account account root db ≡ ok db'
      → ((db'.accounts ≡ db.accounts)
          ⊎ (db'.accounts ≡ db.accounts ++ new_account account root ∷ []))
        × (db'.devices ≡ db.devices)
  unfolding insert_account
  insert_account-eq-ok e = elim (Bool-cases (exists_where (is_account account) db.accounts)) [
    | inl old ↦ (inl (ground arith), ground arith)
    | inr new ↦ (inr (ground arith), ground arith)
  ]

  insert_rows-eq-ok :
      (insert_device account cert db ≡ ok db'
        → (db'.accounts ≡ db.accounts) × (db'.devices ≡ db.devices ++ new_device account cert ∷ []))
      × (insert_certificate cert db ≡ ok db'
          → (db'.accounts ≡ db.accounts) × (db'.devices ≡ db.devices))
  unfolding insert_device insert_certificate
  insert_rows-eq-ok = (λ e. ground arith, λ e. ground arith)

module _ (account root : Bytes) (cert : DeviceCertificate) (db db' : Backend) where
  -- What a registration has checked and added.
  record Added : Type 0 where
    pub absent : exists_where (is_device cert.device_id) db.devices ≡ false
    pub devices : db'.devices ≡ db.devices ++ new_device account cert ∷ []
    pub accounts :
        (db'.accounts ≡ db.accounts) ⊎ (db'.accounts ≡ db.accounts ++ new_account account root ∷ [])
    pub owned : exists_where (λ a. is_account account a && has_root root a) db'.accounts ≡ true

  register_once-Added : register_once account root cert db ≡ ok (tt, db') → Added
  unfolding register_once
  register_once-Added e = elim (Bool-cases (exists_where (is_device cert.device_id) db.devices)) [
    | inl there ↦ absurd (ground arith)
    | inr absent ↦ elim (Result-cases (insert_account account root db)) [
      | inr (x, failed) ↦ absurd (ground arith)
      | inl (named, e1) ↦ elim (Result-cases (insert_device account cert named)) [
        | inr (x, failed) ↦ absurd (ground arith)
        | inl (joined, e2) ↦
            (let e3 : insert_certificate cert joined ≡ ok db' = ground arith in
              let (kept, same) = insert_account-eq-ok account root cert db named e1 in
              let (a2, d2) = (insert_rows-eq-ok account root cert named joined).0 e2 in
              let (a3, d3) = (insert_rows-eq-ok account root cert joined db').1 e3 in
              let owned : exists_where (λ a. is_account account a && has_root root a) named.accounts
                  ≡ true =
                ground arith in
              record {
                absent = absent;
                devices = d3 ∙ d2 ∙ ap (λ ds. ds ++ new_device account cert ∷ []) same;
                accounts = rw (a3, a2) kept;
                owned = rw (a3, a2) owned;
              })
      ]
    ]
  ]

  register_account_device-Added :
      (sha256 : Bytes → Bytes) (ed : Ed25519)
      → register_account_device sha256 ed account root cert db ≡ (ok tt, db')
      → (account_id_from_root_public sha256 root ≡ account)
        × (verify_device_certificate ed root cert ≡ true)
        × Added
  unfolding register_account_device in_transaction
  register_account_device-Added sha256 ed e =
      let named : bytes_eq (account_id_from_root_public sha256 root) account ≡ true =
        ground arith in
      let verified : verify_device_certificate ed root cert ≡ true = ground arith in
      let done : register_once account root cert db ≡ ok (tt, db') = ground arith in
      ((bytes_eq_iff _ _).0 named, verified, register_once-Added done)

module _ (sha256 : Bytes → Bytes) (ed : Ed25519) where
  register_account_device-cases :
      (account root : Bytes) (cert : DeviceCertificate) (db : Backend)
      → ((db' : Backend) × (register_account_device sha256 ed account root cert db ≡ (ok tt, db')))
        ⊎ ((register_account_device sha256 ed account root cert db).1 ≡ db)
  unfolding register_account_device in_transaction
  register_account_device-cases account root cert db =
      elim (Bool-cases (
        not (bytes_eq (account_id_from_root_public sha256 root) account)
        || not (verify_device_certificate ed root cert))) [
          | inl bad ↦ inr (rw bad refl)
          | inr good ↦ elim (Result-cases (register_once account root cert db)) [
            | inl ((_, db'), e) ↦ inl (db', rw good (rw (e, in_transaction) refl))
            | inr (x, e) ↦ inr (rw good (rw (e, in_transaction) refl))
          ]
        ]

  -- An identifier that is taken is not registered.
  register_account_device_taken :
      (account root : Bytes) (cert : DeviceCertificate) (db : Backend)
      → exists_where (is_device cert.device_id) db.devices ≡ true
      → ((register_account_device sha256 ed account root cert db).0 ≢ ok tt)
        × ((register_account_device sha256 ed account root cert db).1 ≡ db)
  unfolding register_account_device in_transaction register_once
  register_account_device_taken account root cert db taken =
      elim (Bool-cases (
        not (bytes_eq (account_id_from_root_public sha256 root) account)
        || not (verify_device_certificate ed root cert))) [
          | inl bad ↦ rw bad ((λ e. cc), refl)
          | inr good ↦ rw good (rw (taken, in_transaction, register_once) ((λ e. cc), refl))
        ]

  -- Every registration keeps that each account is the one of its root key.
  pub register_account_device-IsBound :
      (account root : Bytes) (cert : DeviceCertificate) (db : Backend)
      → IsBound sha256 db.accounts
      → IsBound sha256 (register_account_device sha256 ed account root cert db).1.accounts
  register_account_device-IsBound account root cert db h =
      elim (register_account_device-cases account root cert db) [
        | inr same ↦ rw same h
        | inl (db', e) ↦
            (let (named, _, x) =
                register_account_device-Added account root cert db db' sha256 ed e in
              rw e (elim x.accounts [
                | inl same ↦ rw same h
                | inr more ↦ rw more (
                    All-append
                      (λ a. account_id_from_root_public sha256 a.root_public_key ≡ a.account_id)
                      db.accounts (new_account account root ∷ []) h (named, tt))
              ]))
      ]

  -- What registrations, by any accounts, make of the backend.
  pub data Registrations (db : Backend) : Backend → Type 0 where
    now_on : Registrations db db
    register :
        (account root : Bytes) (cert : DeviceCertificate) {b : Backend}
        → Registrations db b
        → Registrations db (register_account_device sha256 ed account root cert b).1

  Registrations-find :
      (id : Bytes) (d : DeviceRow) {db b : Backend}
      → find_where (is_device id) db.devices ≡ some d
      → Registrations db b
      → find_where (is_device id) b.devices ≡ some d
  Registrations-find id d h now_on = h
  Registrations-find id d h (register account root cert {b = b} r) =
      let before = Registrations-find id d h r in
      elim (register_account_device-cases account root cert b) [
        | inr same ↦ rw same before
        | inl (b', e) ↦
            (let (_, _, x) = register_account_device-Added account root cert b b' sha256 ed e in
              rw e (
                rw x.devices (
                  find_where-append (is_device id) b.devices (new_device account cert ∷ [])
                    before)))
      ]

  -- A successful registration has verified the certificate under a root key of the account; the
  -- device is then found with the certified key, active, and in an account with that root key.
  -- Through any further registrations, one after another and by whatever accounts, it is found
  -- so, and a registration for its identifier is refused and changes nothing.
  pub register_account_device_binds :
      (account root : Bytes) (cert : DeviceCertificate) (db db' : Backend)
      → register_account_device sha256 ed account root cert db ≡ (ok tt, db')
      → (account_id_from_root_public sha256 root ≡ account)
        × (verify_device_certificate ed root cert ≡ true)
        × (exists_where (λ a. is_account account a && has_root root a) db'.accounts ≡ true)
        × ((b : Backend)
            → Registrations db' b
            → (find_where (is_device cert.device_id) b.devices ≡ some (new_device account cert))
              × ((account' root' : Bytes) (cert' : DeviceCertificate)
                  → cert'.device_id ≡ cert.device_id
                  → ((register_account_device sha256 ed account' root' cert' b).0 ≢ ok tt)
                    × ((register_account_device sha256 ed account' root' cert' b).1 ≡ b)))
  register_account_device_binds account root cert db db' e =
      let (named, verified, x) =
        register_account_device-Added account root cert db db' sha256 ed e in
      let found : find_where (is_device cert.device_id) db'.devices
          ≡ some (new_device account cert) =
        rw x.devices (
          find_where-append_new (is_device cert.device_id) db.devices (new_device account cert)
            x.absent (bytes_eq_refl cert.device_id)) in
      (
        named,
        verified,
        x.owned,
        λ b r.
            let there = Registrations-find cert.device_id (new_device account cert) found r in
            let taken = exists_where-find_where-some (is_device cert.device_id) b.devices there in
            (
              there,
              λ account' root' cert' same.
                  register_account_device_taken account' root' cert' b (rw same taken),
            ),
      )
