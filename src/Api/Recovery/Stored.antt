-- ===== src/Api/Recovery/Stored.antt =====
-- What `fetch_recovery_package` of services/core-api/src/lib.rs finds after
-- `store_recovery_package`.
use resilient_messenger.Prelude.{
  ◌≡◌, refl, sym, ◌∙◌, true, false, not, ◌&&◌, List, [], ◌∷◌, Bytes, bytes_eq, bytes_eq_refl,
  bytes_eq_iff, Option, none, some, ok, arith, inl, inr, Bool-cases, Option-cases,
}
use resilient_messenger.Core.Sql.{exists_where, find_where, update_where, count_where}
use resilient_messenger.Api.{AccountRow, Backend}
use resilient_messenger.Api.Devices.{is_account}
use resilient_messenger.Api.Recovery.{
  has_identifier, can_store, set_package, store_recovery_package, has_blob, fetch_recovery_package,
}

-- The blob of the row that is found.
abbrev blob_of : Option AccountRow → Option Bytes
blob_of none = none
blob_of (some a) = a.recovery_blob

fetch_is :
    (id : Bytes) (db : Backend)
    → fetch_recovery_package id db
      ≡ blob_of (find_where (λ a. has_identifier id a && has_blob a) db.accounts)
unfolding fetch_recovery_package
fetch_is id db =
    elim (Option-cases (find_where (λ a. has_identifier id a && has_blob a) db.accounts)) [
      | inl e ↦ rw (e, fetch_recovery_package) refl
      | inr (a, e) ↦ rw (e, fetch_recovery_package) refl
    ]

module _ (account id blob : Bytes) where
  differs : true ≡ false → ⊥
  differs e = cc

  -- A row of the account with the identifier can be stored to.
  stored_to :
      (a : AccountRow)
      → has_identifier id a ≡ true
      → is_account account a ≡ true
      → can_store account id a ≡ true
  stored_to a h k = ground arith

  found_stored :
      (rows : List AccountRow)
      → exists_where (λ a. has_identifier id a && not (is_account account a)) rows ≡ false
      → count_where (can_store account id) rows ≡ 1
      → blob_of (
          find_where
            (λ a. has_identifier id a && has_blob a)
            (update_where (can_store account id) (set_package id blob) rows))
        ≡ some blob
  unfolding find_where update_where exists_where count_where
  found_stored [] own one = absurd (ground arith)
  found_stored (a ∷ rows) own one = elim (Bool-cases (can_store account id a)) [
    | inl here ↦ rw here (rw (bytes_eq_refl id) refl)
    | inr there ↦
        (let later : count_where (can_store account id) rows ≡ 1 = rw there at one in
          let rest : exists_where (λ a. has_identifier id a && not (is_account account a)) rows
              ≡ false =
            ground arith in
          let other : has_identifier id a ≡ false = elim (Bool-cases (has_identifier id a)) [
            | inr e ↦ e
            | inl e ↦ elim (Bool-cases (is_account account a)) [
              | inl k ↦ (let both = stored_to a e k in absurd (differs (sym both ∙ there)))
              | inr k ↦ absurd (differs (sym (rw (e, k) refl) ∙ own))
            ]
          ] in
          rw (there, other) (found_stored rows rest later))
  ]

  -- The row that is stored to was not the row of another identifier, and is not afterwards.
  other_row :
      (id' : Bytes) (a : AccountRow)
      → bytes_eq id id' ≡ false
      → can_store account id a ≡ true
      → has_identifier id' a ≡ false
  other_row id' a apart e = elim (Option-cases a.recovery_identifier) [
    | inl absent ↦ rw absent refl
    | inr (x, held) ↦
        (let same : bytes_eq x id ≡ true = ground arith in
          let is_id : x ≡ id = (bytes_eq_iff x id).0 same in rw held (rw is_id apart))
  ]

  found_other :
      (id' : Bytes) (rows : List AccountRow)
      → bytes_eq id id' ≡ false
      → find_where
          (λ a. has_identifier id' a && has_blob a)
          (update_where (can_store account id) (set_package id blob) rows)
        ≡ find_where (λ a. has_identifier id' a && has_blob a) rows
  unfolding find_where update_where
  found_other id' [] apart = refl
  found_other id' (a ∷ rows) apart = elim (Bool-cases (can_store account id a)) [
    | inl here ↦ rw (here, other_row id' a apart here) (rw apart (found_other id' rows apart))
    | inr there ↦ rw (there, found_other id' rows apart) refl
  ]

  -- After a call that succeeded in storing a package for an identifier, the blob of exactly this
  -- package is fetched under it; what is fetched under any other identifier is as before.
  pub fetch_recovery_package-store_recovery_package :
      (db db' : Backend)
      → store_recovery_package account id blob db ≡ (ok tt, db')
      → (fetch_recovery_package id db' ≡ some blob)
        × ((id' : Bytes)
            → bytes_eq id id' ≡ false
            → fetch_recovery_package id' db' ≡ fetch_recovery_package id' db)
  unfolding store_recovery_package
  fetch_recovery_package-store_recovery_package db db' e =
      let one : count_where (can_store account id) db.accounts ≡ 1 = ground arith in
      let own : exists_where (λ a. has_identifier id a && not (is_account account a)) db.accounts
          ≡ false =
        ground arith in
      let rows : db'.accounts
          ≡ update_where (can_store account id) (set_package id blob) db.accounts =
        ground arith in
      (
        fetch_is id db' ∙ rw rows (found_stored db.accounts own one),
        λ id' apart.
            fetch_is id' db'
            ∙ rw (rows, found_other id' db.accounts apart) refl
            ∙ sym (fetch_is id' db),
      )
