-- ===== src/Identity.antt =====
-- crates/messenger-identity/src/lib.rs: accounts, device certificates and the payloads that are
-- signed. SHA-256, Ed25519, the random bytes and the clock are parameters or arguments.
pub mod Invites
pub mod Recovery
pub mod Usernames
pub mod Payloads
mod Tests
use resilient_messenger.Prelude.{
  ℕ, ◌^◌, ◌<◌, ◌≡◌, true, Bool, ◌++◌, [], ◌∷◌, if◌then◌else◌, false, Option, Bytes, codes, be64,
  length, take,
}
use resilient_messenger.Transport.Directory.{Ed25519}

pub data IdentityError : Type 0 where
  invalid_input cryptographic_failure : IdentityError

pub record DeviceCertificate : Type 0 where
  pub device_id : Bytes
  pub device_public_key : Bytes
  pub issued_at : ℕ
  pub signature : Bytes

pub record SignedInvite : Type 0 where
  pub version : ℕ
  pub account_id : Bytes
  pub fingerprint : Bytes
  pub expires_at : Option ℕ
  pub signature : Bytes

-- The rest of ed25519_dalek: a signing key is its 32 secret bytes.
pub record Signing : Type 0 where
  pub verifying_key : Bytes → Bytes
  -- secret, message
  pub sign : Bytes → Bytes → Bytes

-- The documented behaviour of Ed25519: the key of a secret is a valid key of 32 bytes, and verifies
-- what the secret signs, in 64 bytes.
pub record IsSigning (ed : Ed25519) (keys : Signing) : Type 0 where
  pub valid : (secret : Bytes) → ed.valid_key (keys.verifying_key secret) ≡ true
  pub verifies :
      (secret message : Bytes)
      → ed.verify (keys.verifying_key secret) message (keys.sign secret message) ≡ true
  pub key_width : (secret : Bytes) → length (keys.verifying_key secret) ≡ 32
  pub signature_width : (secret message : Bytes) → length (keys.sign secret message) ≡ 64

-- ACCOUNT_ID_DOMAIN
abbrev pub account_id_domain : Bytes
account_id_domain = codes "resilient/account-id/v1"

module _ (sha256 : Bytes → Bytes) where
  unfoldable pub account_id_from_root_public : Bytes → Bytes
  account_id_from_root_public root_public = sha256 (account_id_domain ++ root_public)

unfoldable pub device_certificate_signing_payload : DeviceCertificate → Bytes
device_certificate_signing_payload cert =
    cert.device_id ++ (cert.device_public_key ++ be64 cert.issued_at)

-- `account_id`
unfoldable pub account_id : (Bytes → Bytes) → Signing → Bytes → Bytes
account_id sha256 keys root = account_id_from_root_public sha256 (keys.verifying_key root)

-- The random identifier and the time are arguments.
unfoldable pub sign_device_certificate : Signing → Bytes → Bytes → Bytes → ℕ → DeviceCertificate
sign_device_certificate keys root device id issued =
    let v = id ++ (keys.verifying_key device ++ be64 issued) in
    record {
      device_id = id;
      device_public_key = keys.verifying_key device;
      issued_at = issued;
      signature = keys.sign root v;
    }

-- `create_account`: the two generated secrets are arguments.
unfoldable pub create_account :
    Signing → Bytes → Bytes → Bytes → ℕ → Bytes × Bytes × DeviceCertificate
create_account keys root device id issued =
    (root, device, sign_device_certificate keys root device id issued)

unfoldable pub verify_device_certificate : Ed25519 → Bytes → DeviceCertificate → Bool
verify_device_certificate ed root_public cert =
    if ed.valid_key root_public
    then ed.verify root_public (cert.device_id ++ (cert.device_public_key ++ be64 cert.issued_at))
        cert.signature
    else false

-- `copy_from_slice(&digest[..16])`
unfoldable pub device_certificate_fingerprint : (Bytes → Bytes) → DeviceCertificate → Bytes
device_certificate_fingerprint sha256 cert = take 16 (
    sha256 (
      codes "resilient/device-certificate-fingerprint/v1"
      ++ (device_certificate_signing_payload cert ++ cert.signature)))

unfoldable pub auth_challenge_payload : Bytes → Bytes → Bytes
auth_challenge_payload challenge_id challenge =
    codes "resilient/auth-challenge/v1" ++ (challenge_id ++ challenge)

unfoldable pub refresh_proof_payload : Bytes → Bytes
refresh_proof_payload refresh_token = codes "resilient/refresh-proof/v1" ++ refresh_token
