-- ===== src/Api/Sessions.antt =====
-- Challenges, sessions and refresh tokens in services/core-api/src/lib.rs. SHA-256, Ed25519, the random values
-- and the clock are arguments.
pub mod Challenges
pub mod Families
use resilient_messenger.Prelude.{
  ℕ, ◌+◌, ◌*◌, ◌^◌, Bool, true, false, not, ◌&&◌, ◌||◌, List, [], ◌∷◌, ◌++◌, Bytes, codes, bytes_eq,
  ltb, leb, if◌then◌else◌, Option, none, some, Result, ok, err, ◌>>=◌, ◌>>◌, ensure, ok_or,
}
use resilient_messenger.Transport.Directory.{Ed25519}
use resilient_messenger.Core.Sql.{exists_where, find_where, update_where}
use resilient_messenger.Identity.{auth_challenge_payload, refresh_proof_payload}
use resilient_messenger.Api.{
  ApiError, invalid_credentials, expired, replay, token_reuse, conflict, unauthorized, database,
  AccountRow, DeviceRow, ChallengeRow, AccessRow, RefreshRow, Backend,
}
use resilient_messenger.Api.Groups.{is_device, is_active_device, in_transaction}

-- The TTLs, in microseconds.
abbrev pub access_ttl : ℕ
access_ttl = 900 * 1000000

abbrev pub refresh_ttl : ℕ
refresh_ttl = 2592000 * 1000000

abbrev pub challenge_ttl : ℕ
challenge_ttl = 120 * 1000000

pub record Challenge : Type 0 where
  pub challenge_id : Bytes
  pub challenge : Bytes

pub record SessionTokens : Type 0 where
  pub access_token : Bytes
  pub refresh_token : Bytes

-- IS NOT NULL
abbrev pub is_set : Option ℕ → Bool
is_set none = false
is_set (some t) = true

-- COALESCE(value, now())
abbrev pub coalesce : Option ℕ → ℕ → Option ℕ
coalesce none now = some now
coalesce (some t) now = some t

abbrev pub is_token : Bytes → RefreshRow → Bool
is_token hash r = bytes_eq r.token_hash hash

abbrev pub new_session : Bytes → Bytes → Bytes → ℕ → RefreshRow
new_session hash family device now = record {
  token_hash = hash;
  family_id = family;
  device_id = device;
  replaced_by_hash = none;
  expires_at = now + refresh_ttl;
  used_at = none;
  revoked_at = none;
}

unfoldable pub begin_challenge :
    Challenge → Bytes → ℕ → Backend → Result ApiError Challenge × Backend
begin_challenge fresh device now db =
    if not (exists_where (is_active_device device) db.devices)
    then (err invalid_credentials, db)
    else if exists_where
        (λ c. bytes_eq c.challenge_id fresh.challenge_id || bytes_eq c.challenge fresh.challenge)
        db.challenges
    then (err database, db)
    else (
      ok fresh,
      record db {
        challenges =
            db.challenges
            ++ record {
              challenge_id = fresh.challenge_id;
              device_id = device;
              challenge = fresh.challenge;
              expires_at = now + challenge_ttl;
              consumed_at = none;
            }
              ∷ [];
      },
    )

abbrev pub is_challenge : Bytes → ChallengeRow → Bool
is_challenge id c = bytes_eq c.challenge_id id

-- A signature that a device's key has to have made.
unfoldable pub check_proof : Ed25519 → Bytes → Bytes → Bytes → Result ApiError (Unit {0})
check_proof ed public message signature =
    if ed.valid_key public && ed.verify public message signature
    then ok tt
    else err invalid_credentials

-- The row of the challenge with the row of its device.
unfoldable pub challenge_row : Bytes → Backend → Option (ChallengeRow × DeviceRow)
challenge_row id db = elim (find_where (is_challenge id) db.challenges) [
  | none ↦ none
  | some c ↦ elim (find_where (is_device c.device_id) db.devices) [
    | none ↦ none
    | some d ↦ some (c, d)
  ]
]

unfoldable pub consume_challenge : Bytes → ℕ → Backend → Backend
consume_challenge id now db = record db {
  challenges =
      update_where (is_challenge id) (λ c. record c { consumed_at = some now }) db.challenges;
}

-- The row of the refresh session of the device, with the row of the device.
unfoldable pub refresh_row : Bytes → Bytes → Backend → Option (RefreshRow × DeviceRow)
refresh_row hash device db =
    elim (find_where (λ r. is_token hash r && bytes_eq r.device_id device) db.refresh_sessions) [
      | none ↦ none
      | some r ↦ elim (find_where (is_device r.device_id) db.devices) [
        | none ↦ none
        | some d ↦ some (r, d)
      ]
    ]

abbrev pub is_family : Bytes → RefreshRow → Bool
is_family family r = bytes_eq r.family_id family

unfoldable pub revoke_family : Bytes → ℕ → Backend → Backend
revoke_family family now db = record db {
  refresh_sessions =
      update_where (is_family family) (λ r. record r { revoked_at = coalesce r.revoked_at now })
        db.refresh_sessions;
}

unfoldable pub replace_token : Bytes → Bytes → ℕ → Backend → Backend
replace_token hash new_hash now db = record db {
  refresh_sessions =
      update_where (is_token hash)
        (λ r. record r { used_at = some now; replaced_by_hash = some new_hash })
        db.refresh_sessions;
}

module _ (sha256 : Bytes → Bytes) where
  unfoldable pub token_hash : Bytes → Bytes → Bytes
  token_hash domain token = sha256 (codes "resilient/session/v1" ++ (domain ++ token))

  abbrev pub is_live_session : Bytes → ℕ → Backend → AccessRow → Bool
  is_live_session token now db a =
      bytes_eq a.token_hash (token_hash (codes "access") token)
      && ltb now a.expires_at
      && exists_where (is_active_device a.device_id) db.devices

  unfoldable pub authenticate_access : Bytes → ℕ → Backend → Result ApiError Bytes
  authenticate_access token now db =
      elim (find_where (is_live_session token now db) db.access_sessions) [
        | none ↦ err invalid_credentials
        | some a ↦ ok a.device_id
      ]

  -- The primary key of a session table.
  unfoldable pub insert_access : Bytes → Bytes → ℕ → Backend → Result ApiError Backend
  insert_access token device now db =
      let hash = token_hash (codes "access") token in
      if exists_where (λ a. bytes_eq a.token_hash hash) db.access_sessions
      then err database
      else ok (record db {
        access_sessions =
            db.access_sessions
            ++ record { token_hash = hash; device_id = device; expires_at = now + access_ttl } ∷ [];
      })

  unfoldable pub insert_refresh : Bytes → Bytes → Bytes → ℕ → Backend → Result ApiError Backend
  insert_refresh token family device now db =
      let hash = token_hash (codes "refresh") token in
      if exists_where (is_token hash) db.refresh_sessions
      then err database
      else ok (record db {
        refresh_sessions = db.refresh_sessions ++ new_session hash family device now ∷ [];
      })

  -- The two random tokens come as an argument.
  unfoldable pub issue_tokens :
      SessionTokens → Bytes → Bytes → ℕ → Backend → Result ApiError (SessionTokens × Backend)
  issue_tokens tokens device family now db = do
    opened ← insert_access tokens.access_token device now db
    refreshed ← insert_refresh tokens.refresh_token family device now opened
    ok (tokens, refreshed)

  -- `family` is the random identifier that `issue_tokens` makes.
  unfoldable pub answer_challenge :
      Ed25519
      → SessionTokens
      → Bytes
      → Bytes
      → Bytes
      → ℕ
      → Backend
      → Result ApiError (SessionTokens × Backend)
  answer_challenge ed tokens family id signature now db = do
    (c, d) ← ok_or invalid_credentials (challenge_row id db)
    ensure (not (is_set c.consumed_at)) replay
    ensure (ltb now c.expires_at) expired
    check_proof ed d.device_public_key (auth_challenge_payload id c.challenge) signature
    issue_tokens tokens c.device_id family now (consume_challenge id now db)

  unfoldable pub complete_challenge :
      Ed25519
      → SessionTokens
      → Bytes
      → Bytes
      → Bytes
      → ℕ
      → Backend
      → Result ApiError SessionTokens × Backend
  complete_challenge ed tokens family id signature now db =
      in_transaction (answer_challenge ed tokens family id signature now) db

  -- What follows the check for a reuse.
  unfoldable pub rotate_once :
      Ed25519
      → SessionTokens
      → Bytes
      → Bytes
      → Bytes
      → ℕ
      → RefreshRow
      → DeviceRow
      → Backend
      → Result ApiError (SessionTokens × Backend)
  rotate_once ed tokens device token signature now r d db = do
    ensure (ltb now r.expires_at) expired
    check_proof ed d.device_public_key (refresh_proof_payload token) signature
    (issued, db') ← issue_tokens tokens device r.family_id now db
    ok (
      issued,
      replace_token (token_hash (codes "refresh") token)
          (token_hash (codes "refresh") issued.refresh_token) now db',
    )

  -- A reuse commits the revocation of the family before it is reported.
  unfoldable pub rotate_refresh :
      Ed25519
      → SessionTokens
      → Bytes
      → Bytes
      → Bytes
      → ℕ
      → Backend
      → Result ApiError SessionTokens × Backend
  rotate_refresh ed tokens device token signature now db =
      elim (refresh_row (token_hash (codes "refresh") token) device db) [
        | none ↦ (err invalid_credentials, db)
        | some (r, d) ↦
            if is_set r.used_at || is_set r.revoked_at
            then (err token_reuse, revoke_family r.family_id now db)
            else in_transaction (rotate_once ed tokens device token signature now r d) db
      ]
