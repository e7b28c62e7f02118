-- ===== src/Api/Sessions/Families/Rows.antt =====
-- The rows of `refresh_sessions` after an exchange by `rotate_refresh` of
-- services/core-api/src/lib.rs.
use resilient_messenger.Prelude.{
  ℕ, ◌≡◌, refl, ◌∙◌, true, false, ◌&&◌, [], ◌∷◌, ◌++◌, Bytes, codes, bytes_eq, bytes_eq_iff, some,
  arith, inl, inr, Bool-cases,
}
use resilient_messenger.Transport.Directory.{Ed25519}
use resilient_messenger.Core.Sql.{exists_where, find_where, update_where, exists_where-update_where}
use resilient_messenger.Core.Sql.Keys.{
  update_where-append, find_where_keyed, exists_where-find_where-some,
}
use resilient_messenger.Api.{DeviceRow, RefreshRow, Backend}
use resilient_messenger.Api.Sessions.{SessionTokens, token_hash, is_token, new_session}
use resilient_messenger.Api.Sessions.Families.{IsRotated, exchanged, Exchanged, refresh_row-eq-some}

module _ (sha256 : Bytes → Bytes) (ed : Ed25519) (tokens : SessionTokens)
    (device token signature : Bytes) (now : ℕ) (db : Backend)
    (h : IsRotated db.refresh_sessions) where
  module _ (r : RefreshRow) (d : DeviceRow) (db' : Backend)
      (x : Exchanged sha256 ed tokens device token signature now db r d db') where
    abbrev pub old : Bytes
    old = token_hash sha256 (codes "refresh") token

    abbrev pub new : Bytes
    new = token_hash sha256 (codes "refresh") tokens.refresh_token

    abbrev pub added : RefreshRow
    added = new_session new r.family_id device now

    pub found : find_where (is_token old) db.refresh_sessions ≡ some r
    found =
        let (row, _) = refresh_row-eq-some old device db r d x.row in
        find_where_keyed (is_token old) (λ y. is_token old y && bytes_eq y.device_id device)
          db.refresh_sessions r (λ y e. ground arith) (h.keyed old) row

    -- The new token differs from the old one, whose row is in the table.
    pub old_is_not_new : is_token old added ≡ false
    old_is_not_new = elim (Bool-cases (bytes_eq new old)) [
      | inr differs ↦ differs
      | inl same ↦
          let equal : new ≡ old = (bytes_eq_iff new old).0 same in
          let there = exists_where-find_where-some (is_token old) db.refresh_sessions found in
          let absent : exists_where (is_token old) db.refresh_sessions ≡ false =
            rw equal at x.new in
          cc
    ]

    pub rows_after :
        db'.refresh_sessions
        ≡ update_where (is_token old) (exchanged new now) db.refresh_sessions ++ added ∷ []
    unfolding update_where
    rows_after =
        x.rows
        ∙ update_where-append (is_token old) (exchanged new now) db.refresh_sessions (added ∷ [])
        ∙ rw old_is_not_new refl

    pub absent_after :
        (hash : Bytes)
        → is_token hash added ≡ true
        → exists_where
            (is_token hash)
            (update_where (is_token old) (exchanged new now) db.refresh_sessions)
          ≡ false
    absent_after hash e =
        let same : new ≡ hash = (bytes_eq_iff new hash).0 e in
        exists_where-update_where (is_token hash) (is_token old) (exchanged new now)
          db.refresh_sessions (λ y. refl)
        ∙ rw (← same) x.new
