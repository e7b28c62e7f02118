-- ===== src/Api/Sessions/Families/Kept.antt =====
-- What `rotate_refresh` of services/core-api/src/lib.rs keeps of every family of tokens.
use resilient_messenger.Prelude.{
  ℕ, ◌+◌, ◌≤◌, ◌≡◌, refl, true, List, [], ◌∷◌, Bytes, codes, if◌then◌else◌, Option, none, some,
  arith, inl, inr, Bool-cases,
}
use resilient_messenger.Transport.Directory.{Ed25519}
use resilient_messenger.Core.Sql.{find_where, update_where, count_where}
use resilient_messenger.Core.Sql.Keys.{
  AtMostOne, update_where_absent, AtMostOne-update_where, AtMostOne-append_new,
  count_where-append_one,
}
use resilient_messenger.Api.{DeviceRow, RefreshRow, Backend}
use resilient_messenger.Api.Sessions.{
  SessionTokens, is_set, coalesce, token_hash, is_token, new_session, is_family, revoke_family,
  rotate_refresh,
}
use resilient_messenger.Api.Sessions.Families.{
  is_live, IsRotated, exchanged, Exchanged, rotate_refresh-eq-ok, rotate_refresh-cases,
}
use resilient_messenger.Api.Sessions.Families.Rows.{found, rows_after, absent_after}

-- An exchange leaves as many live tokens in each family as there were before it.
count_where-exchanged :
    (family hash new_hash : Bytes) (now : ℕ) (rows : List RefreshRow) (r : RefreshRow)
    → AtMostOne (is_token hash) rows
    → find_where (is_token hash) rows ≡ some r
    → is_live family r ≡ is_family family r
    → count_where (is_live family) (update_where (is_token hash) (exchanged new_hash now) rows)
        + (if is_family family r then 1 else 0)
      ≡ count_where (is_live family) rows
unfolding count_where update_where find_where
count_where-exchanged family hash new_hash now [] r one found live = ground arith
count_where-exchanged family hash new_hash now (x ∷ rows) r one found live =
    elim (Bool-cases (is_token hash x)) [
      | inl here ↦
          (let same : some x ≡ some r = rw here at found in
            let rest =
              update_where_absent (is_token hash) (exchanged new_hash now) rows (one.0 here) in
            rw (here, rest) (ground arith))
      | inr there ↦ ground (arith, count_where-exchanged family hash new_hash now rows r one.1)
    ]

-- Revoking a family takes no token that is not live, and makes none live.
count_where-revoked :
    (family other : Bytes) (now : ℕ) (rows : List RefreshRow)
    → count_where (is_live other) (
        update_where
          (is_family family)
          (λ r. record r { revoked_at = coalesce r.revoked_at now })
          rows)
      ≤ count_where (is_live other) rows
unfolding count_where update_where
count_where-revoked family other now [] = omega arith
count_where-revoked family other now (r ∷ rows) =
    ground (arith, coalesce_set r.revoked_at, count_where-revoked family other now rows)
  where
    coalesce_set : (o : Option ℕ) → is_set (coalesce o now) ≡ true
    coalesce_set none = refl
    coalesce_set (some t) = refl

revoke_family-IsRotated :
    (family : Bytes) (now : ℕ) (db : Backend)
    → IsRotated db.refresh_sessions
    → IsRotated (revoke_family family now db).refresh_sessions
unfolding revoke_family
revoke_family-IsRotated family now db h = record {
  keyed = λ hash.
      AtMostOne-update_where (is_token hash) (is_family family)
        (λ r. record r { revoked_at = coalesce r.revoked_at now }) db.refresh_sessions (λ y. refl)
        (h.keyed hash);
  one_live = λ other.
      omega (arith, count_where-revoked family other now db.refresh_sessions, h.one_live other);
}

module _ (sha256 : Bytes → Bytes) (ed : Ed25519) (tokens : SessionTokens)
    (device token signature : Bytes) (now : ℕ) (db : Backend)
    (h : IsRotated db.refresh_sessions) where
  module _ (r : RefreshRow) (d : DeviceRow) (db' : Backend)
      (x : Exchanged sha256 ed tokens device token signature now db r d db') where
    abbrev old : Bytes
    old = token_hash sha256 (codes "refresh") token

    abbrev new : Bytes
    new = token_hash sha256 (codes "refresh") tokens.refresh_token

    abbrev added : RefreshRow
    added = new_session new r.family_id device now

    live_after :
        (family : Bytes)
        → count_where (is_live family) db'.refresh_sessions
          ≡ count_where (is_live family) db.refresh_sessions
    live_after family =
        let is_usable : is_live family r ≡ is_family family r =
          rw (x.unused, x.unrevoked) (ground arith) in
        let is_usable_new : is_live family added ≡ is_family family r = ground arith in
        rw
          (
            (rows_after sha256 ed tokens device token signature now db h r d db' x),
            count_where-append_one (is_live family)
                (update_where (is_token old) (exchanged new now) db.refresh_sessions) added,
            is_usable_new,
          )
          (count_where-exchanged family old new now db.refresh_sessions r (h.keyed old)
            (found sha256 ed tokens device token signature now db h r d db' x) is_usable)

    Exchanged-IsRotated : IsRotated db'.refresh_sessions
    Exchanged-IsRotated = record {
      keyed = λ hash. rw (rows_after sha256 ed tokens device token signature now db h r d db' x) (
          AtMostOne-append_new (is_token hash)
            (update_where (is_token old) (exchanged new now) db.refresh_sessions) added
            (absent_after sha256 ed tokens device token signature now db h r d db' x hash)
            (AtMostOne-update_where (is_token hash) (is_token old) (exchanged new now)
              db.refresh_sessions (λ y. refl) (h.keyed hash)));
      one_live = λ family. omega (arith, live_after family, h.one_live family);
    }

  -- From a state where the hashes of the tokens are unique and at most one token of each family can
  -- be exchanged, `rotate_refresh` leads to such a state, whatever is asked and answered.
  pub rotate_refresh-IsRotated :
      IsRotated (rotate_refresh sha256 ed tokens device token signature now db).1.refresh_sessions
  rotate_refresh-IsRotated =
      elim (rotate_refresh-cases sha256 ed tokens device token signature now db) [
        | inl (issued, db', e) ↦
            (let (_, r, d, x) =
                rotate_refresh-eq-ok sha256 ed tokens device token signature now db issued db' e in
              rw e (Exchanged-IsRotated r d db' x))
        | inr (inl same) ↦ rw same h
        | inr (inr (family, revoked)) ↦ rw revoked (revoke_family-IsRotated family now db h)
      ]
