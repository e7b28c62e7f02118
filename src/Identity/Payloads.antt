-- ===== src/Identity/Payloads.antt =====
-- What the signatures of crates/messenger-identity/src/lib.rs cover, beside the operations on
-- memberships of services/core-api/src/lib.rs.
use resilient_messenger.Prelude.{
  ℕ, ◌<◌, ◌^◌, ◌≡◌, ◌≢◌, refl, sym, ap, ◌∙◌, Bool, ◌++◌, [], ◌∷◌, Bytes, codes, be64, length,
  length-append, append_cut, be16, if◌then◌else◌, from_be, from_be-be64, Option, arith,
}
use resilient_messenger.Api.Groups.{membership_operation_payload}
use resilient_messenger.Api.Groups.Payload.{flat}
use resilient_messenger.Identity.{
  DeviceCertificate, device_certificate_signing_payload, auth_challenge_payload,
  refresh_proof_payload,
}
use resilient_messenger.Identity.Invites.{invite_payload, or_zero}

module _ (cert : DeviceCertificate) (h : length cert.device_id ≡ 16)
    (k : length cert.device_public_key ≡ 32) where
  length-device_certificate_signing_payload : length (device_certificate_signing_payload cert) ≡ 56
  unfolding device_certificate_signing_payload
  length-device_certificate_signing_payload = omega (
    arith,
    length-append cert.device_id (cert.device_public_key ++ be64 cert.issued_at),
    length-append cert.device_public_key (be64 cert.issued_at),
    h,
    k,
  )

length-auth_challenge_payload :
    (id challenge : Bytes)
    → length id ≡ 16
    → length challenge ≡ 32
    → length (auth_challenge_payload id challenge) ≡ 75
unfolding auth_challenge_payload
length-auth_challenge_payload id challenge h k = omega (arith, length-append id challenge, h, k)

length-refresh_proof_payload :
    (token : Bytes) → length token ≡ 32 → length (refresh_proof_payload token) ≡ 58
unfolding refresh_proof_payload
length-refresh_proof_payload token h = omega (arith, h)

length-invite_payload :
    (version : ℕ) (id fingerprint : Bytes) (expires_at : Option ℕ)
    → length id ≡ 32
    → length fingerprint ≡ 16
    → length (invite_payload version id fingerprint expires_at) ≡ 57
unfolding invite_payload
length-invite_payload version id fingerprint expires_at h k = omega (
  arith,
  length-append id (fingerprint ++ be64 (or_zero expires_at)),
  length-append fingerprint (be64 (or_zero expires_at)),
  h,
  k,
)

length-membership_operation_payload :
    (c g a t : Bytes) (role : ℕ) (remove : Bool)
    → (length c ≡ 16) × (length g ≡ 16) × (length a ≡ 16) × (length t ≡ 16)
    → length (membership_operation_payload c g a t role remove) ≡ 100
unfolding membership_operation_payload
length-membership_operation_payload c g a t role remove h =
    let end = be16 role ++ (if remove then 1 else 0) ∷ [] in
    omega (
      arith,
      ap length (flat c g a t role remove),
      length-append c (g ++ (a ++ (t ++ end))),
      length-append g (a ++ (t ++ end)),
      length-append a (t ++ end),
      length-append t end,
      h,
    )

-- The payloads of the account key (certificates, invitations) and of the device keys (challenges,
-- refresh proofs, operations on memberships) never coincide, whatever their fields of the fixed
-- widths are: a signature for one purpose is not one for another.
pub payloads_apart :
    (cert : DeviceCertificate) (version : ℕ) (account fingerprint : Bytes) (expires_at : Option ℕ)
    (id challenge token c g a t : Bytes) (role : ℕ) (remove : Bool)
    → (length cert.device_id ≡ 16) × (length cert.device_public_key ≡ 32)
    → (length account ≡ 32) × (length fingerprint ≡ 16)
    → (length id ≡ 16) × (length challenge ≡ 32) × (length token ≡ 32)
    → (length c ≡ 16) × (length g ≡ 16) × (length a ≡ 16) × (length t ≡ 16)
    → (device_certificate_signing_payload cert
        ≢ invite_payload version account fingerprint expires_at)
      × (auth_challenge_payload id challenge ≢ refresh_proof_payload token)
      × (auth_challenge_payload id challenge ≢ membership_operation_payload c g a t role remove)
      × (refresh_proof_payload token ≢ membership_operation_payload c g a t role remove)
payloads_apart cert version account fingerprint expires_at id challenge token c g a t role remove hd
      hi hs hm =
    let l1 = length-device_certificate_signing_payload cert hd.0 hd.1 in
    let l2 = length-invite_payload version account fingerprint expires_at hi.0 hi.1 in
    let l3 = length-auth_challenge_payload id challenge hs.0 hs.1 in
    let l4 = length-refresh_proof_payload token hs.2 in
    let l5 = length-membership_operation_payload c g a t role remove hm in
    (
      λ e. absurd (omega (arith, l1, l2, ap length e)),
      λ e. absurd (omega (arith, l3, l4, ap length e)),
      λ e. absurd (omega (arith, l3, l5, ap length e)),
      λ e. absurd (omega (arith, l4, l5, ap length e)),
    )

-- A signed challenge determines the challenge and its identifier, and a device certificate's
-- payload its three fields, where the fields have the fixed widths.
pub payloads_determine :
    (id id' challenge challenge' : Bytes) (cert cert' : DeviceCertificate)
    → (length id ≡ 16) × (length id' ≡ 16)
    → (length cert.device_id ≡ 16) × (length cert'.device_id ≡ 16)
    → (length cert.device_public_key ≡ 32) × (length cert'.device_public_key ≡ 32)
    → (cert.issued_at < 2 ^ 64) × (cert'.issued_at < 2 ^ 64)
    → (auth_challenge_payload id challenge ≡ auth_challenge_payload id' challenge'
        → (id ≡ id') × (challenge ≡ challenge'))
      × (device_certificate_signing_payload cert ≡ device_certificate_signing_payload cert'
          → (cert.device_id ≡ cert'.device_id)
            × (cert.device_public_key ≡ cert'.device_public_key)
            × (cert.issued_at ≡ cert'.issued_at))
unfolding auth_challenge_payload device_certificate_signing_payload
payloads_determine id id' challenge challenge' cert cert' hi hd hk ht = (
  λ e.
      (let tag = codes "resilient/auth-challenge/v1" in
        let (_, rest) = append_cut tag tag (id ++ challenge) (id' ++ challenge') refl e in
        append_cut id id' challenge challenge' (hi.0 ∙ sym hi.1) rest),
  λ e.
      (let (ids, rest) =
          append_cut cert.device_id cert'.device_id (cert.device_public_key ++ be64 cert.issued_at)
            (cert'.device_public_key ++ be64 cert'.issued_at) (hd.0 ∙ sym hd.1) e in
        let (keys, times) =
          append_cut cert.device_public_key cert'.device_public_key (be64 cert.issued_at)
            (be64 cert'.issued_at) (hk.0 ∙ sym hk.1) rest in
        (
          ids,
          keys,
          sym (from_be-be64 cert.issued_at ht.0)
              ∙ ap from_be times
              ∙ from_be-be64 cert'.issued_at ht.1,
        )),
)
