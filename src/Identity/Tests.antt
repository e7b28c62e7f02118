-- ===== src/Identity/Tests.antt =====
-- Tests of crates/messenger-identity/src/lib.rs.
use resilient_messenger.Prelude.{
  ℕ, bytes_eq, ◌≡◌, ◌≢◌, refl, true, false, ◌∷◌, ◌++◌, Bytes, length, if◌then◌else◌, some, ok, err,
  arith,
}
use resilient_messenger.Fixtures.{
  zeros, fit, length-fit, toy, toy-IsAead, toy_ed, toy_keys, toy-IsSigning, toy_hash,
}
use resilient_messenger.Api.Groups.{membership_operation_payload}
use resilient_messenger.Identity.{
  invalid_input, DeviceCertificate, SignedInvite, sign_device_certificate,
  account_id_from_root_public, verify_device_certificate, device_certificate_signing_payload,
  auth_challenge_payload, refresh_proof_payload, account_id,
}
use resilient_messenger.Identity.Invites.{
  is_before, invite_payload, sign_invite, verify_invite, encode_qr_payload,
  decode_and_verify_qr_payload, qr_bytes, qr_invite,
}
use resilient_messenger.Identity.Invites.RoundTrip.{decode-encode-sign_invite}
use resilient_messenger.Identity.Invites.Accepted.{decode_and_verify_qr_payload-eq-ok}
use resilient_messenger.Identity.Recovery.{
  Phrases, IsPhrases, RecoveryPackage, encrypt_recovery_blob, create_recovery_package,
  recovery_identifier, restore_account_root, restore_account_root-create_recovery_package,
}
use resilient_messenger.Identity.Payloads.{payloads_apart}

abbrev root : Bytes
root = 7 ∷ zeros 31

abbrev invite : SignedInvite
invite = sign_invite toy_hash toy_keys root (some 50)

decode-encode-sign_invite_example :
    (out : Bytes) × (encode_qr_payload toy_hash toy_ed toy_keys root invite ≡ ok out)
    × ((at : ℕ)
        → decode_and_verify_qr_payload toy_hash toy_ed out at
          ≡ (if is_before (some 50) at then err invalid_input else ok (fit 32 root, invite)))
decode-encode-sign_invite_example =
    decode-encode-sign_invite toy_hash toy_ed toy_keys (λ m. length-fit 32 _) toy-IsSigning root
      (some 50) (omega arith)

qr_code : Bytes
qr_code = qr_bytes (fit 32 root) invite

decoded_at_9 : decode_and_verify_qr_payload toy_hash toy_ed qr_code 9 ≡ ok (fit 32 root, invite)
unfolding qr_code decode_and_verify_qr_payload qr_invite qr_bytes verify_invite sign_invite
    account_id account_id_from_root_public invite_payload bytes_eq
decoded_at_9 = refl

decode_and_verify_qr_payload-eq-ok_example :
    (invite.version ≡ 1)
    × (is_before invite.expires_at 9 ≡ false)
    × (toy_ed.verify
          (fit 32 root)
          (invite_payload 1 invite.account_id invite.fingerprint invite.expires_at)
          invite.signature
        ≡ true)
    × (account_id_from_root_public toy_hash (fit 32 root) ≡ invite.account_id)
decode_and_verify_qr_payload-eq-ok_example =
    decode_and_verify_qr_payload-eq-ok toy_hash toy_ed qr_code 9 (fit 32 root) invite decoded_at_9

-- A phrase is its entropy.
abbrev toy_phrases : Phrases
toy_phrases = record {
  parse = λ text. some text;
  words = λ entropy. entropy;
  expand = λ salt material info. fit 32 material;
}

toy_phrases-IsPhrases : IsPhrases toy_phrases
toy_phrases-IsPhrases = record { parses = λ entropy h. refl }

abbrev package_a : RecoveryPackage
package_a = record {
  phrase = zeros 32;
  recovery_identifier = recovery_identifier toy_hash (zeros 32);
  encrypted_root = zeros 24 ++ (root ++ zeros 16);
}

create_package_a :
    create_recovery_package toy_phrases toy toy_hash (zeros 32) (zeros 24) root ≡ ok package_a
unfolding create_recovery_package encrypt_recovery_blob
create_package_a = refl

restore_account_root-create_recovery_package_example :
    restore_account_root toy_phrases toy (zeros 32) package_a.encrypted_root ≡ ok root
restore_account_root-create_recovery_package_example =
    restore_account_root-create_recovery_package toy_phrases toy toy_hash (zeros 32) (zeros 24) root
      package_a toy_phrases-IsPhrases toy-IsAead refl refl refl create_package_a

abbrev certificate : DeviceCertificate
certificate = sign_device_certificate toy_keys root (9 ∷ zeros 31) (3 ∷ zeros 15) 1000

certificate_verifies : verify_device_certificate toy_ed (fit 32 root) certificate ≡ true
unfolding sign_device_certificate verify_device_certificate bytes_eq
certificate_verifies = refl

certificate_widths :
    (length certificate.device_id ≡ 16) × (length certificate.device_public_key ≡ 32)
unfolding sign_device_certificate
certificate_widths = (refl, refl)

payloads_apart_example :
    (device_certificate_signing_payload certificate
      ≢ invite_payload 1 (zeros 32) (zeros 16) (some 5))
    × (auth_challenge_payload (zeros 16) (zeros 32) ≢ refresh_proof_payload (zeros 32))
    × (auth_challenge_payload (zeros 16) (zeros 32)
        ≢ membership_operation_payload (zeros 16) (zeros 16) (zeros 16) (zeros 16) 1 true)
    × (refresh_proof_payload (zeros 32)
        ≢ membership_operation_payload (zeros 16) (zeros 16) (zeros 16) (zeros 16) 1 true)
payloads_apart_example =
    payloads_apart certificate 1 (zeros 32) (zeros 16) (some 5) (zeros 16) (zeros 32) (zeros 32)
      (zeros 16) (zeros 16) (zeros 16) (zeros 16) 1 true certificate_widths (refl, refl)
      (refl, refl, refl) (refl, refl, refl, refl)
