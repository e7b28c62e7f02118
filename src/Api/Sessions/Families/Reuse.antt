-- ===== src/Api/Sessions/Families/Reuse.antt =====
-- What a reuse of a refresh token does in services/core-api/src/lib.rs.
use resilient_messenger.Prelude.{
  ℕ, ◌≡◌, refl, sym, ap, ◌∙◌, true, ◌&&◌, ◌||◌, [], ◌∷◌, ◌++◌, Bytes, codes, bytes_eq,
  bytes_eq_refl, bytes_eq_iff, some, Result, ok, err, subst, arith,
}
use resilient_messenger.Transport.Directory.{Ed25519}
use resilient_messenger.Core.Sql.{find_where, update_where}
use resilient_messenger.Core.Sql.Keys.{
  find_where_holds, find_where-append, find_where-append_only, find_where-update_where,
}
use resilient_messenger.Api.{ApiError, token_reuse, DeviceRow, RefreshRow, Backend}
use resilient_messenger.Api.Sessions.{
  SessionTokens, is_set, coalesce, token_hash, is_token, new_session, refresh_row, is_family,
  revoke_family, rotate_refresh,
}
use resilient_messenger.Api.Sessions.Families.{
  IsRotated, exchanged, IsRevoked, revoke_family-IsRevoked, Exchanged, rotate_refresh-eq-ok,
  refresh_row-eq-some, refresh_row_found,
}
use resilient_messenger.Api.Sessions.Families.Rows.{found, rows_after, absent_after}

module _ (sha256 : Bytes → Bytes) (ed : Ed25519) (tokens : SessionTokens)
    (device token signature : Bytes) (now : ℕ) (db : Backend)
    (h : IsRotated db.refresh_sessions) where
  module _ (r : RefreshRow) (d : DeviceRow) (db' : Backend)
      (x : Exchanged sha256 ed tokens device token signature now db r d db') where
    abbrev old : Bytes
    old = token_hash sha256 (codes "refresh") token

    abbrev new : Bytes
    new = token_hash sha256 (codes "refresh") tokens.refresh_token

    abbrev added : RefreshRow
    added = new_session new r.family_id device now

    row_old_after : refresh_row old device db' ≡ some (exchanged new now r, d)
    row_old_after =
        let (row, owner) = refresh_row-eq-some old device db r d x.row in
        let p = λ (y : RefreshRow). is_token old y && bytes_eq y.device_id device in
        let is_r =
          find_where_holds (is_token old) db.refresh_sessions
            (found sha256 ed tokens device token signature now db h r d db' x) in
        let kept =
          find_where-update_where p (is_token old) (exchanged new now) db.refresh_sessions
            (λ y. refl) in
        let still : find_where p
              (update_where (is_token old) (exchanged new now) db.refresh_sessions)
            ≡ some (exchanged new now r) =
          rw (kept, row) (rw is_r refl) in
        refresh_row_found old device db' (exchanged new now r) d
          (rw (rows_after sha256 ed tokens device token signature now db h r d db' x)
            (find_where-append p _ (added ∷ []) {x = exchanged new now r} still))
          (rw x.devices owner)

    -- Once the family is revoked, the row of the new token is the revoked one.
    row_new_revoked :
        (at : ℕ)
        → refresh_row new device (revoke_family r.family_id at db')
          ≡ some (record added { revoked_at = some at }, d)
    unfolding revoke_family
    row_new_revoked at =
        let (row, owner) = refresh_row-eq-some old device db r d x.row in
        let p = λ (y : RefreshRow). is_token new y && bytes_eq y.device_id device in
        let holds =
          find_where_holds (λ y. is_token old y && bytes_eq y.device_id device) db.refresh_sessions
            row in
        let own : r.device_id ≡ device = (bytes_eq_iff r.device_id device).0 (ground arith) in
        let revoke = λ (y : RefreshRow). record y { revoked_at = coalesce y.revoked_at at } in
        let rows = update_where (is_token old) (exchanged new now) db.refresh_sessions in
        let only =
          find_where-append_only p (is_token new) rows added (λ y e. ground arith)
            (absent_after sha256 ed tokens device token signature now db h r d db' x new
              (bytes_eq_refl new)) in
        let is_found : find_where p (rows ++ added ∷ []) ≡ some added =
          only ∙ rw (bytes_eq_refl new, bytes_eq_refl device) refl in
        let kept =
          find_where-update_where p (is_family r.family_id) revoke (rows ++ added ∷ [])
            (λ y. refl) in
        refresh_row_found new device (revoke_family r.family_id at db')
          (record added { revoked_at = some at }) d
          (rw (rows_after sha256 ed tokens device token signature now db h r d db' x)
            (rw (kept, is_found) (rw (bytes_eq_refl r.family_id) refl)))
          (rw x.devices (rw (← own) owner))

reuse_reported :
    (sha256 : Bytes → Bytes) (ed : Ed25519) (tokens : SessionTokens)
    (device token signature : Bytes) (now : ℕ) (db : Backend) (r : RefreshRow) (d : DeviceRow)
    → refresh_row (token_hash sha256 (codes "refresh") token) device db ≡ some (r, d)
    → (is_set r.used_at || is_set r.revoked_at) ≡ true
    → rotate_refresh sha256 ed tokens device token signature now db
      ≡ (err token_reuse, revoke_family r.family_id now db)
unfolding rotate_refresh
reuse_reported sha256 ed tokens device token signature now db r d row used =
    rw (row, rotate_refresh) (rw used refl)

-- In a state where the hashes of tokens are unique and each family has at most one exchangeable
-- token, an exchange succeeds, and then the exchanged token comes once more, with any signature and
-- at any time: the answer is `TokenReuse`, every token of the family is revoked, and from then on
-- the token that the exchange gave is refused as reused, too.
pub rotate_refresh_reuse :
    (sha256 : Bytes → Bytes) (ed : Ed25519) (tokens issued tokens' : SessionTokens)
    (device token signature signature' : Bytes) (now at : ℕ) (db db' : Backend)
    → IsRotated db.refresh_sessions
    → rotate_refresh sha256 ed tokens device token signature now db ≡ (ok issued, db')
    → (family : Bytes) × (rotate_refresh sha256 ed tokens' device token signature' at db'
        ≡ (err token_reuse, revoke_family family at db'))
      × IsRevoked family (revoke_family family at db').refresh_sessions
      × ((tokens'' : SessionTokens) (signature'' : Bytes) (later : ℕ)
          → (rotate_refresh sha256 ed tokens'' device issued.refresh_token signature'' later
              (revoke_family family at db')).0
            ≡ err token_reuse)
unfolding revoke_family
rotate_refresh_reuse sha256 ed tokens issued tokens' device token signature signature' now at db db'
      h e =
    let (same, r, d, x) =
      rotate_refresh-eq-ok sha256 ed tokens device token signature now db issued db' e in
    let old = row_old_after sha256 ed tokens device token signature now db h r d db' x in
    let new = row_new_revoked sha256 ed tokens device token signature now db h r d db' x at in
    let after = revoke_family r.family_id at db' in
    (
      r.family_id,
      reuse_reported sha256 ed tokens' device token signature' at db' _ d old refl,
      revoke_family-IsRevoked r.family_id at db'.refresh_sessions,
      λ tokens'' signature'' later.
          subst
            (λ (i : SessionTokens).
              (rotate_refresh sha256 ed tokens'' device i.refresh_token signature'' later after).0
              ≡ err token_reuse)
            (sym same)
            (ap (λ (p : Result ApiError SessionTokens × Backend). p.0)
              (reuse_reported sha256 ed tokens'' device tokens.refresh_token signature'' later after
                _ d new refl)),
    )
