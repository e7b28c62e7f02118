-- ===== src/Identity/Invites/Accepted.antt =====
-- What `decode_and_verify_qr_payload` of crates/messenger-identity/src/lib.rs accepts.
use resilient_messenger.Prelude.{ℕ, ◌≡◌, true, false, Bytes, bytes_eq, bytes_eq_iff, ok, arith}
use resilient_messenger.Transport.Directory.{Ed25519}
use resilient_messenger.Identity.{SignedInvite, account_id_from_root_public}
use resilient_messenger.Identity.Invites.{
  is_before, invite_payload, verify_invite, decode_and_verify_qr_payload,
}

-- What a verified invitation is.
verify_invite-eq-true :
    (ed : Ed25519) (public : Bytes) (invite : SignedInvite) (at : ℕ)
    → verify_invite ed public invite at ≡ true
    → (invite.version ≡ 1)
      × (is_before invite.expires_at at ≡ false)
      × (ed.verify public
            (invite_payload invite.version invite.account_id invite.fingerprint invite.expires_at)
            invite.signature
          ≡ true)
unfolding verify_invite
verify_invite-eq-true ed public invite at e = ground arith

decoded_is_verified :
    (sha256 : Bytes → Bytes) (ed : Ed25519) (value : Bytes) (at : ℕ) (public : Bytes)
    (invite : SignedInvite)
    → decode_and_verify_qr_payload sha256 ed value at ≡ ok (public, invite)
    → (verify_invite ed public invite at ≡ true)
      × (bytes_eq (account_id_from_root_public sha256 public) invite.account_id ≡ true)
unfolding decode_and_verify_qr_payload
decoded_is_verified sha256 ed value at public invite e = ground arith

-- What `decode_and_verify_qr_payload` accepts holds an invitation of version 1 that is not expired,
-- that the root key in the code has signed, and that names the account of this root key.
pub decode_and_verify_qr_payload-eq-ok :
    (sha256 : Bytes → Bytes) (ed : Ed25519) (value : Bytes) (at : ℕ) (public : Bytes)
    (invite : SignedInvite)
    → decode_and_verify_qr_payload sha256 ed value at ≡ ok (public, invite)
    → (invite.version ≡ 1)
      × (is_before invite.expires_at at ≡ false)
      × (ed.verify public
            (invite_payload 1 invite.account_id invite.fingerprint invite.expires_at)
            invite.signature
          ≡ true)
      × (account_id_from_root_public sha256 public ≡ invite.account_id)
unfolding decode_and_verify_qr_payload verify_invite
decode_and_verify_qr_payload-eq-ok sha256 ed value at public invite e =
    let (verified, named) = decoded_is_verified sha256 ed value at public invite e in
    let (one, fresh, signed) = verify_invite-eq-true ed public invite at verified in
    (one, fresh, rw one at signed, (bytes_eq_iff _ _).0 named)
