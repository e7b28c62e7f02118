-- ===== src/Api/Sessions/Challenges.antt =====
-- What `begin_challenge`, `complete_challenge` and `authenticate_access` of
-- services/core-api/src/lib.rs guarantee together.
use resilient_messenger.Prelude.{
  ℕ, ◌+◌, ◌<◌, ◌≡◌, refl, true, false, ◌||◌, [], ◌∷◌, ◌++◌, Bytes, codes, bytes_eq, bytes_eq_refl,
  ltb, lt→ltb, if◌then◌else◌, none, some, ok, err, arith, inl, inr, Bool-cases,
}
use resilient_messenger.Transport.Directory.{Ed25519}
use resilient_messenger.Core.Sql.{exists_where, find_where}
use resilient_messenger.Core.Sql.Keys.{
  find_where-update_where, find_where-append_new, find_where-append_only, exists_where_narrow,
}
use resilient_messenger.Identity.{auth_challenge_payload}
use resilient_messenger.Api.{
  invalid_credentials, replay, ChallengeRow, AccessRow, DeviceRow, Backend,
}
use resilient_messenger.Api.Groups.{is_device, is_active_device, in_transaction}
use resilient_messenger.Api.Sessions.{
  access_ttl, challenge_ttl, Challenge, SessionTokens, token_hash, is_live_session,
  authenticate_access, insert_access, is_token, insert_refresh, issue_tokens, begin_challenge,
  is_challenge, check_proof, challenge_row, consume_challenge, answer_challenge, complete_challenge,
  new_session,
}

-- The row that a successful `begin_challenge` adds.
abbrev pub challenge_of : Challenge → Bytes → ℕ → ChallengeRow
challenge_of ch device now = record {
  challenge_id = ch.challenge_id;
  device_id = device;
  challenge = ch.challenge;
  expires_at = now + challenge_ttl;
  consumed_at = none;
}

begin_challenge-eq-ok :
    (ch : Challenge) (device : Bytes) (now : ℕ) (db db1 : Backend)
    → begin_challenge ch device now db ≡ (ok ch, db1)
    → (db1 ≡ record db { challenges = db.challenges ++ challenge_of ch device now ∷ [] })
      × (exists_where (is_active_device device) db.devices ≡ true)
      × (exists_where
            (λ c. bytes_eq c.challenge_id ch.challenge_id || bytes_eq c.challenge ch.challenge)
            db.challenges
          ≡ false)
unfolding begin_challenge
begin_challenge-eq-ok ch device now db db1 e = ground arith

-- The database after two tokens are issued whose hashes are new.
abbrev pub issued : (Bytes → Bytes) → SessionTokens → Bytes → Bytes → ℕ → Backend → Backend
issued sha256 tokens device family now db = record db {
  access_sessions =
      db.access_sessions
      ++ record {
        token_hash = token_hash sha256 (codes "access") tokens.access_token;
        device_id = device;
        expires_at = now + access_ttl;
      }
        ∷ [];
  refresh_sessions =
      db.refresh_sessions
      ++ new_session (token_hash sha256 (codes "refresh") tokens.refresh_token) family device now
        ∷ [];
}

-- Tokens whose hashes no session has, as those of fresh random tokens.
pub record AreFresh (sha256 : Bytes → Bytes) (tokens : SessionTokens) (db : Backend) : Type 0 where
  pub access :
      exists_where
        (λ a. bytes_eq a.token_hash (token_hash sha256 (codes "access") tokens.access_token))
        db.access_sessions
      ≡ false
  pub refresh :
      exists_where
        (is_token (token_hash sha256 (codes "refresh") tokens.refresh_token))
        db.refresh_sessions
      ≡ false

module _ (sha256 : Bytes → Bytes) where
  issue_tokens_fresh :
      (tokens : SessionTokens) (device family : Bytes) (now : ℕ) (db : Backend)
      → AreFresh sha256 tokens db
      → issue_tokens sha256 tokens device family now db
        ≡ ok (tokens, issued sha256 tokens device family now db)
  unfolding issue_tokens insert_access insert_refresh
  issue_tokens_fresh tokens device family now db h = rw (h.access, h.refresh) refl

  -- A new access token authenticates its active device until it expires.
  authenticate_access-issued :
      (tokens : SessionTokens) (device family : Bytes) (now t : ℕ) (db : Backend)
      → AreFresh sha256 tokens db
      → exists_where (is_active_device device) db.devices ≡ true
      → authenticate_access sha256 tokens.access_token t (issued sha256 tokens device family now db)
        ≡ (if ltb t (now + access_ttl) then ok device else err invalid_credentials)
  unfolding authenticate_access
  authenticate_access-issued tokens device family now t db h active =
      let db' = issued sha256 tokens device family now db in
      let hash = token_hash sha256 (codes "access") tokens.access_token in
      let row : AccessRow = record {
        token_hash = hash;
        device_id = device;
        expires_at = now + access_ttl;
      } in
      let found =
        find_where-append_only (is_live_session sha256 tokens.access_token t db')
          (λ a. bytes_eq a.token_hash hash) db.access_sessions row (λ a e. ground arith) h.access in
      let live : is_live_session sha256 tokens.access_token t db' row ≡ ltb t (now + access_ttl) =
        rw (bytes_eq_refl hash, active) (ground arith) in
      rw (found, authenticate_access)
        (rw live
          (elim (Bool-cases (ltb t (now + access_ttl))) [ inl e ↦ rw e refl | inr e ↦ rw e refl ]))

  module _ (ed : Ed25519) (d : DeviceRow) (ch : Challenge) (tokens : SessionTokens)
      (family signature : Bytes) (now t : ℕ) (db db1 : Backend)
      (known : find_where (is_device d.device_id) db.devices ≡ some d)
      (begun : begin_challenge ch d.device_id now db ≡ (ok ch, db1))
      (in_time : t < now + challenge_ttl)
      (signed : check_proof ed d.device_public_key
          (auth_challenge_payload ch.challenge_id ch.challenge)
          signature
        ≡ ok tt)
      (fresh : AreFresh sha256 tokens db) where
    abbrev c : ChallengeRow
    c = challenge_of ch d.device_id now

    challenge_row-begun : challenge_row ch.challenge_id db1 ≡ some (c, d)
    unfolding challenge_row
    challenge_row-begun =
        let (db1_is, _, new) = begin_challenge-eq-ok ch d.device_id now db db1 begun in
        let mine =
          exists_where_narrow (is_challenge ch.challenge_id) _ db.challenges (λ x e. ground arith)
            new in
        let found =
          find_where-append_new (is_challenge ch.challenge_id) db.challenges c mine
            (bytes_eq_refl ch.challenge_id) in
        rw db1_is (rw (found, challenge_row) (rw (known, challenge_row) refl))

    abbrev pub db2 : Backend
    db2 = issued sha256 tokens d.device_id family t (consume_challenge ch.challenge_id t db1)

    still_fresh : AreFresh sha256 tokens (consume_challenge ch.challenge_id t db1)
    unfolding consume_challenge
    still_fresh =
        let (db1_is, _, _) = begin_challenge-eq-ok ch d.device_id now db db1 begun in
        record { access = rw db1_is fresh.access; refresh = rw db1_is fresh.refresh }

    answer_challenge-begun :
        answer_challenge sha256 ed tokens family ch.challenge_id signature t db1 ≡ ok (tokens, db2)
    unfolding answer_challenge
    answer_challenge-begun =
        let made =
          issue_tokens_fresh tokens d.device_id family t (consume_challenge ch.challenge_id t db1)
            still_fresh in
        rw (challenge_row-begun, lt→ltb t (now + challenge_ttl) in_time, signed, made) refl

    complete_challenge-begun :
        complete_challenge sha256 ed tokens family ch.challenge_id signature t db1
        ≡ (ok tokens, db2)
    unfolding complete_challenge in_transaction
    complete_challenge-begun = rw (answer_challenge-begun, in_transaction) refl

    challenge_row-consumed :
        challenge_row ch.challenge_id db2 ≡ some (record c { consumed_at = some t }, d)
    unfolding challenge_row consume_challenge
    challenge_row-consumed =
        let (db1_is, _, new) = begin_challenge-eq-ok ch d.device_id now db db1 begun in
        let mine =
          exists_where_narrow (is_challenge ch.challenge_id) _ db.challenges (λ x e. ground arith)
            new in
        let found =
          find_where-append_new (is_challenge ch.challenge_id) db.challenges c mine
            (bytes_eq_refl ch.challenge_id) in
        let kept =
          find_where-update_where (is_challenge ch.challenge_id) (is_challenge ch.challenge_id)
            (λ x. record x { consumed_at = some t }) (db.challenges ++ c ∷ []) (λ x. refl) in
        rw db1_is (
          rw (kept, challenge_row)
            (rw (found, bytes_eq_refl ch.challenge_id, challenge_row)
              (rw (known, challenge_row) (rw (bytes_eq_refl ch.challenge_id) refl))))

    -- A device whose row is known begins a challenge, and a signature of the challenge that its key
    -- verifies comes before the challenge expires, with tokens whose hashes are not in use. Then the
    -- answer is accepted with these tokens; the access token authenticates exactly this device,
    -- until its 15 minutes are over; and every other answer to the same challenge is refused as a
    -- replay and changes nothing.
    pub complete_challenge_once :
        (complete_challenge sha256 ed tokens family ch.challenge_id signature t db1
          ≡ (ok tokens, db2))
        × ((at : ℕ)
            → authenticate_access sha256 tokens.access_token at db2
              ≡ (if ltb at (t + access_ttl) then ok d.device_id else err invalid_credentials))
        × ((tokens' : SessionTokens) (family' signature' : Bytes) (at : ℕ)
            → complete_challenge sha256 ed tokens' family' ch.challenge_id signature' at db2
              ≡ (err replay, db2))
    unfolding complete_challenge answer_challenge in_transaction
    complete_challenge_once =
        let (db1_is, active, _) = begin_challenge-eq-ok ch d.device_id now db db1 begun in
        let still_active : exists_where (is_active_device d.device_id)
              (consume_challenge ch.challenge_id t db1).devices
            ≡ true =
          unfold consume_challenge in rw db1_is active in
        (
          complete_challenge-begun,
          λ at.
              authenticate_access-issued tokens d.device_id family t at
                (consume_challenge ch.challenge_id t db1) still_fresh still_active,
          λ tokens' family' signature' at. rw (challenge_row-consumed, in_transaction) refl,
        )
