-- ===== src/Api/AccountTests.antt =====
-- Tests of the accounts, sessions, usernames and limits of services/core-api/src/lib.rs.
use resilient_messenger.Prelude.{
  ℕ, ◌+◌, ◌≡◌, ◌≢◌, refl, true, ◌&&◌, [], ◌∷◌, ◌++◌, Bytes, codes, bytes_eq, ltb, if◌then◌else◌,
  none, some, ok, err, arith,
}
use resilient_messenger.Fixtures.{zeros, empty, fit, toy_ed, toy_hash}
use resilient_messenger.Core.Sql.{exists_where, find_where, update_where, count_where}
use resilient_messenger.Identity.{
  DeviceCertificate, account_id_from_root_public, verify_device_certificate, auth_challenge_payload,
  refresh_proof_payload,
}
use resilient_messenger.Api.{
  invalid_credentials, replay, token_reuse, DeviceRow, RefreshRow, Backend,
}
use resilient_messenger.Api.Groups.{in_transaction, is_device}
use resilient_messenger.Api.Devices.{
  is_account, has_root, insert_account, insert_device, insert_certificate, register_once,
  register_account_device,
}
use resilient_messenger.Api.Devices.Registered.{
  Registrations, new_device, register_account_device_binds,
}
use resilient_messenger.Api.Sessions.{
  access_ttl, Challenge, SessionTokens, token_hash, authenticate_access, insert_access,
  insert_refresh, issue_tokens, begin_challenge, check_proof, consume_challenge, complete_challenge,
  refresh_row, revoke_family, replace_token, rotate_once, rotate_refresh, new_session,
}
use resilient_messenger.Api.Sessions.Challenges.{issued, AreFresh, complete_challenge_once}
use resilient_messenger.Api.Sessions.Families.{IsRotated, IsRevoked}
use resilient_messenger.Api.Sessions.Families.Kept.{rotate_refresh-IsRotated}
use resilient_messenger.Api.Sessions.Families.Reuse.{rotate_refresh_reuse}

abbrev root : Bytes
root = 7 ∷ zeros 31

abbrev certificate : DeviceCertificate
certificate = record {
  device_id = 3 ∷ zeros 15;
  device_public_key = 9 ∷ zeros 31;
  issued_at = 1000;
  signature = fit 64 (
      fit 32 root
      ++ ((3 ∷ zeros 15) ++ ((9 ∷ zeros 31) ++ (0 ∷ 0 ∷ 0 ∷ 0 ∷ 0 ∷ 0 ∷ 3 ∷ 232 ∷ []))));
}

abbrev account : Bytes
account = account_id_from_root_public toy_hash root

-- The backend with the account and its device.
abbrev registered : Backend
registered = record empty {
  accounts =
      record {
        account_id = toy_hash (codes "resilient/account-id/v1" ++ root);
        root_public_key = root;
        recovery_identifier = none;
        recovery_blob = none;
      }
      ∷ [];
  devices = new_device (toy_hash (codes "resilient/account-id/v1" ++ root)) certificate ∷ [];
  certificates =
      record {
        device_id = certificate.device_id;
        certificate_signature = certificate.signature;
        issued_at = 1000;
      }
      ∷ [];
}

register_first :
    register_account_device toy_hash toy_ed account root certificate empty ≡ (ok tt, registered)
unfolding register_account_device verify_device_certificate in_transaction register_once
    insert_account insert_device insert_certificate account_id_from_root_public exists_where
    bytes_eq
register_first = refl

register_account_device_binds_example :
    (account_id_from_root_public toy_hash root ≡ account)
    × (verify_device_certificate toy_ed root certificate ≡ true)
    × (exists_where (λ a. is_account account a && has_root root a) registered.accounts ≡ true)
    × ((b : Backend)
        → Registrations toy_hash toy_ed registered b
        → (find_where (is_device certificate.device_id) b.devices
            ≡ some (new_device account certificate))
          × ((account' root' : Bytes) (cert' : DeviceCertificate)
              → cert'.device_id ≡ certificate.device_id
              → ((register_account_device toy_hash toy_ed account' root' cert' b).0 ≢ ok tt)
                × ((register_account_device toy_hash toy_ed account' root' cert' b).1 ≡ b)))
register_account_device_binds_example =
    register_account_device_binds toy_hash toy_ed account root certificate empty registered
      register_first

abbrev device : DeviceRow
device = new_device account certificate

abbrev question : Challenge
question = record { challenge_id = 4 ∷ zeros 15; challenge = 5 ∷ zeros 31 }

-- The registered backend with the challenge.
abbrev asked : Backend
asked = record registered {
  challenges =
      record {
        challenge_id = 4 ∷ zeros 15;
        device_id = certificate.device_id;
        challenge = 5 ∷ zeros 31;
        expires_at = 120001000;
        consumed_at = none;
      }
      ∷ [];
}

begin_question : begin_challenge question device.device_id 1000 registered ≡ (ok question, asked)
unfolding begin_challenge exists_where bytes_eq
begin_question = refl

device_known : find_where (is_device device.device_id) registered.devices ≡ some device
unfolding find_where bytes_eq account_id_from_root_public
device_known = refl

abbrev first_tokens : SessionTokens
first_tokens = record { access_token = 1 ∷ zeros 31; refresh_token = 2 ∷ zeros 31 }

abbrev proof_a : Bytes
proof_a = fit 64 (
    device.device_public_key
    ++ (codes "resilient/auth-challenge/v1" ++ ((4 ∷ zeros 15) ++ (5 ∷ zeros 31))))

proof_a_checks :
    check_proof toy_ed device.device_public_key
      (auth_challenge_payload question.challenge_id question.challenge)
      proof_a
    ≡ ok tt
unfolding check_proof auth_challenge_payload bytes_eq
proof_a_checks = refl

first_tokens-AreFresh : AreFresh toy_hash first_tokens registered
unfolding exists_where
first_tokens-AreFresh = record { access = refl; refresh = refl }

complete_challenge_once_example :
    let db2 =
      issued toy_hash first_tokens device.device_id
        (zeros 16)
        2000
        (consume_challenge question.challenge_id 2000 asked) in
    (complete_challenge toy_hash toy_ed first_tokens
        (zeros 16)
        question.challenge_id
        proof_a
        2000
        asked
      ≡ (ok first_tokens, db2))
    × ((at : ℕ)
        → authenticate_access toy_hash first_tokens.access_token at db2
          ≡ (if ltb at (2000 + access_ttl) then ok device.device_id else err invalid_credentials))
    × ((tokens' : SessionTokens) (family' signature' : Bytes) (at : ℕ)
        → complete_challenge toy_hash toy_ed tokens' family' question.challenge_id signature' at db2
          ≡ (err replay, db2))
complete_challenge_once_example =
    complete_challenge_once toy_hash toy_ed device question first_tokens (zeros 16) proof_a 1000
      2000 registered asked device_known begin_question (omega arith) proof_a_checks
      first_tokens-AreFresh

abbrev first_hash : Bytes
first_hash = 2 ∷ zeros 31

abbrev session_a : RefreshRow
session_a = new_session first_hash (zeros 16) device.device_id 2000

-- The device has one refresh token.
abbrev logged_in : Backend
logged_in = record registered { refresh_sessions = session_a ∷ [] }

abbrev second_tokens : SessionTokens
second_tokens = record { access_token = 3 ∷ zeros 31; refresh_token = 4 ∷ zeros 31 }

one_session-IsRotated : IsRotated logged_in.refresh_sessions
unfolding exists_where count_where
one_session-IsRotated = record {
  keyed = λ hash. ((λ e. refl), tt);
  one_live = λ family. ground arith;
}

abbrev proof_b : Bytes
proof_b =
    fit 64 (device.device_public_key ++ (codes "resilient/refresh-proof/v1" ++ (2 ∷ zeros 31)))

abbrev exchanged_db : Backend
exchanged_db = record registered {
  access_sessions =
      record { token_hash = zeros 32; device_id = device.device_id; expires_at = 900003000 } ∷ [];
  refresh_sessions =
      record session_a { used_at = some 3000; replaced_by_hash = some (4 ∷ zeros 31) }
      ∷ new_session (4 ∷ zeros 31) (zeros 16) device.device_id 3000
      ∷ [];
}

exchange_a :
    rotate_refresh toy_hash toy_ed second_tokens device.device_id
      (2 ∷ zeros 31)
      proof_b
      3000
      logged_in
    ≡ (ok second_tokens, exchanged_db)
unfolding rotate_refresh refresh_row token_hash rotate_once check_proof refresh_proof_payload
    issue_tokens insert_access insert_refresh replace_token in_transaction find_where exists_where
    update_where bytes_eq
exchange_a = refl

rotate_refresh-IsRotated_example :
    IsRotated
      (rotate_refresh toy_hash toy_ed second_tokens device.device_id
        (2 ∷ zeros 31)
        proof_b
        3000
        logged_in).1.refresh_sessions
rotate_refresh-IsRotated_example =
    rotate_refresh-IsRotated toy_hash toy_ed second_tokens device.device_id (2 ∷ zeros 31) proof_b
      3000 logged_in one_session-IsRotated

rotate_refresh_reuse_example :
    (family : Bytes) × (rotate_refresh toy_hash toy_ed first_tokens device.device_id
        (2 ∷ zeros 31)
        proof_b
        4000
        exchanged_db
      ≡ (err token_reuse, revoke_family family 4000 exchanged_db))
    × IsRevoked family (revoke_family family 4000 exchanged_db).refresh_sessions
    × ((tokens'' : SessionTokens) (signature'' : Bytes) (later : ℕ)
        → (rotate_refresh toy_hash toy_ed tokens'' device.device_id second_tokens.refresh_token
            signature'' later
            (revoke_family family 4000 exchanged_db)).0
          ≡ err token_reuse)
rotate_refresh_reuse_example =
    rotate_refresh_reuse toy_hash toy_ed second_tokens second_tokens first_tokens device.device_id
      (2 ∷ zeros 31) proof_b proof_b 3000 4000 logged_in exchanged_db one_session-IsRotated
      exchange_a
