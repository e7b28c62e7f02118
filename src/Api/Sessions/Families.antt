-- ===== src/Api/Sessions/Families.antt =====
-- Refresh tokens in services/core-api/src/lib.rs: what `rotate_refresh` keeps of a family of tokens,
-- and what a reuse does to it.
pub mod Rows
pub mod Kept
pub mod Reuse
use resilient_messenger.Prelude.{
  ℕ, zero, suc, ◌+◌, ◌-◌, ◌≤◌, ◌<◌, ◌≡◌, refl, sym, ap, ◌∙◌, Bool, true, false, not, ◌&&◌, ◌||◌,
  List, [], ◌∷◌, ◌++◌, Bytes, codes, bytes_eq, bytes_eq_refl, bytes_eq_iff, if◌then◌else◌, Option,
  none, some, Result, ok, err, >>=-eq-ok, subst, arith, ◌⊎◌, inl, inr, All, Bool-cases,
  Option-cases, Result-cases, ltb,
}
use resilient_messenger.Transport.Directory.{Ed25519}
use resilient_messenger.Core.Sql.{
  exists_where, find_where, update_where, count_where, exists_where-update_where,
}
use resilient_messenger.Core.Sql.Keys.{
  AtMostOne, update_where_absent, update_where-append, find_where_keyed, find_where_holds,
  exists_where-find_where-some, AtMostOne-update_where, AtMostOne-append_new,
  count_where-append_one, find_where-append, find_where-append_only, find_where-update_where,
  updated, updated?,
}
use resilient_messenger.Identity.{refresh_proof_payload}
use resilient_messenger.Api.{
  ApiError, invalid_credentials, token_reuse, expired, DeviceRow, RefreshRow, Backend,
}
use resilient_messenger.Api.Groups.{in_transaction, is_device}
use resilient_messenger.Api.Sessions.{
  SessionTokens, is_set, coalesce, token_hash, is_token, new_session, refresh_row, is_family,
  revoke_family, replace_token, check_proof, rotate_once, rotate_refresh, insert_access,
  insert_refresh, issue_tokens,
}

-- A token of the family that can still be exchanged.
abbrev pub is_live : Bytes → RefreshRow → Bool
is_live family r = is_family family r && not (is_set r.used_at) && not (is_set r.revoked_at)

-- The primary key of the table, and at most one token of each family can still be exchanged.
pub record IsRotated (rows : List RefreshRow) : Type 0 where
  pub keyed : (hash : Bytes) → AtMostOne (is_token hash) rows
  pub one_live : (family : Bytes) → count_where (is_live family) rows ≤ 1

-- What UPDATE does to the row of the exchanged token.
abbrev pub exchanged : Bytes → ℕ → RefreshRow → RefreshRow
exchanged new_hash now r = record r { used_at = some now; replaced_by_hash = some new_hash }

-- Every token of the family is revoked.
abbrev pub IsRevoked : Bytes → List RefreshRow → Type 0
IsRevoked family rows = All (λ r. is_family family r ≡ true → is_set r.revoked_at ≡ true) rows

pub revoke_family-IsRevoked :
    (family : Bytes) (now : ℕ) (rows : List RefreshRow)
    → IsRevoked family (
        update_where
          (is_family family)
          (λ r. record r { revoked_at = coalesce r.revoked_at now })
          rows)
unfolding update_where
revoke_family-IsRevoked family now [] = tt
revoke_family-IsRevoked family now (r ∷ rows) =
    (λ e. ground (arith, coalesce_set r.revoked_at), revoke_family-IsRevoked family now rows)
  where
    coalesce_set : (o : Option ℕ) → is_set (coalesce o now) ≡ true
    coalesce_set none = refl
    coalesce_set (some t) = refl

module _ (sha256 : Bytes → Bytes) (ed : Ed25519) (tokens : SessionTokens)
    (device token signature : Bytes) (now : ℕ) (db : Backend) where
  abbrev pub old_hash : Bytes
  old_hash = token_hash sha256 (codes "refresh") token

  abbrev pub new_hash : Bytes
  new_hash = token_hash sha256 (codes "refresh") tokens.refresh_token

  -- What a successful exchange has checked and done.
  pub record Exchanged (r : RefreshRow) (d : DeviceRow) (db' : Backend) : Type 0 where
    pub row : refresh_row old_hash device db ≡ some (r, d)
    pub unused : is_set r.used_at ≡ false
    pub unrevoked : is_set r.revoked_at ≡ false
    pub new : exists_where (is_token new_hash) db.refresh_sessions ≡ false
    pub rows :
        db'.refresh_sessions
        ≡ update_where
            (is_token old_hash)
            (exchanged new_hash now)
            (db.refresh_sessions ++ new_session new_hash r.family_id device now ∷ [])
    pub devices : db'.devices ≡ db.devices

  issue_tokens-eq-ok :
      (family : Bytes) (issued : SessionTokens) (db1 : Backend)
      → issue_tokens sha256 tokens device family now db ≡ ok (issued, db1)
      → (issued ≡ tokens)
        × (exists_where (is_token new_hash) db.refresh_sessions ≡ false)
        × (db1.refresh_sessions
            ≡ db.refresh_sessions ++ new_session new_hash family device now ∷ [])
        × (db1.devices ≡ db.devices)
  unfolding issue_tokens insert_access insert_refresh
  issue_tokens-eq-ok family issued db1 e = ground arith

  rotate_once-eq-ok :
      (r : RefreshRow) (d : DeviceRow) (issued : SessionTokens) (db' : Backend)
      → rotate_once sha256 ed tokens device token signature now r d db ≡ ok (issued, db')
      → (db1 : Backend) × (issue_tokens sha256 tokens device r.family_id now db ≡ ok (issued, db1))
        × (db'
            ≡ replace_token old_hash
                (token_hash sha256 (codes "refresh") issued.refresh_token)
                now
                db1)
  unfolding rotate_once
  rotate_once-eq-ok r d issued db' e =
      elim (Result-cases (issue_tokens sha256 tokens device r.family_id now db)) [
        | inr (x, failed) ↦ ground arith
        | inl ((issued', db1), made) ↦
            let same : issued' ≡ issued = ground arith in (db1, rw (← same) made, ground arith)
      ]

  replaced :
      (issued : SessionTokens) (db1 db' : Backend) (rows : List RefreshRow)
      (devices : List DeviceRow)
      → issued ≡ tokens
      → db1.refresh_sessions ≡ rows
      → db1.devices ≡ devices
      → db'
        ≡ replace_token old_hash (token_hash sha256 (codes "refresh") issued.refresh_token) now db1
      → (db'.refresh_sessions ≡ update_where (is_token old_hash) (exchanged new_hash now) rows)
        × (db'.devices ≡ devices)
  unfolding replace_token
  replaced issued db1 db' rows devices same e e' last = rw last (rw (same, e) refl, e')

  pub rotate_refresh-eq-ok :
      (issued : SessionTokens) (db' : Backend)
      → rotate_refresh sha256 ed tokens device token signature now db ≡ (ok issued, db')
      → (issued ≡ tokens) × (r : RefreshRow) × (d : DeviceRow) × Exchanged r d db'
  unfolding rotate_refresh in_transaction replace_token
  rotate_refresh-eq-ok issued db' e = elim (Option-cases (refresh_row old_hash device db)) [
    | inl absent ↦ ground arith
    | inr ((r, d), found) ↦
        (let unused : is_set r.used_at ≡ false = ground arith in
          let unrevoked : is_set r.revoked_at ≡ false = ground arith in
          let done : rotate_once sha256 ed tokens device token signature now r d db
              ≡ ok (issued, db') =
            ground arith in
          let (db1, made, last) = rotate_once-eq-ok r d issued db' done in
          let (same, new, rows, devices) = issue_tokens-eq-ok r.family_id issued db1 made in
          let at_end = replaced issued db1 db' _ _ same rows devices last in
          (
            same,
            r,
            d,
            record {
              row = found;
              unused = unused;
              unrevoked = unrevoked;
              new = new;
              rows = at_end.0;
              devices = at_end.1;
            },
          ))
  ]

  -- An exchange, no change, or a family revoked.
  pub rotate_refresh-cases :
      ((issued : SessionTokens) × (db' : Backend) × (rotate_refresh sha256 ed tokens device token
            signature now db
          ≡ (ok issued, db')))
      ⊎ ((rotate_refresh sha256 ed tokens device token signature now db).1 ≡ db)
      ⊎ ((family : Bytes) × ((rotate_refresh sha256 ed tokens device token signature now db).1
            ≡ revoke_family family now db))
  unfolding rotate_refresh in_transaction
  rotate_refresh-cases = elim (Option-cases (refresh_row old_hash device db)) [
    | inl absent ↦ inr (inl (rw (absent, rotate_refresh) refl))
    | inr ((r, d), found) ↦ elim (Bool-cases (is_set r.used_at || is_set r.revoked_at)) [
      | inl used ↦ inr (inr (r.family_id, rw (found, rotate_refresh) (rw used refl)))
      | inr fresh ↦
          elim (Result-cases (rotate_once sha256 ed tokens device token signature now r d db)) [
            | inl ((issued, db'), done) ↦ inl (
              issued,
              db',
              rw (found, rotate_refresh) (rw fresh (rw (done, in_transaction) refl)),
            )
            | inr (e, failed) ↦
                inr (inl (rw (found, rotate_refresh) (rw fresh (rw (failed, in_transaction) refl))))
          ]
    ]
  ]

-- The row of `refresh_row` is that of its token and its device.
pub refresh_row-eq-some :
    (hash device : Bytes) (db : Backend) (r : RefreshRow) (d : DeviceRow)
    → refresh_row hash device db ≡ some (r, d)
    → (find_where (λ x. is_token hash x && bytes_eq x.device_id device) db.refresh_sessions
        ≡ some r)
      × (find_where (is_device r.device_id) db.devices ≡ some d)
unfolding refresh_row
refresh_row-eq-some hash device db r d e = ground arith

pub refresh_row_found :
    (hash device : Bytes) (db : Backend) (r : RefreshRow) (d : DeviceRow)
    → find_where (λ x. is_token hash x && bytes_eq x.device_id device) db.refresh_sessions ≡ some r
    → find_where (is_device r.device_id) db.devices ≡ some d
    → refresh_row hash device db ≡ some (r, d)
unfolding refresh_row
refresh_row_found hash device db r d found owner = ground arith
