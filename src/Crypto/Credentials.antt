-- ===== src/Crypto/Credentials.antt =====
-- `MemberCredential` and `verify_member_credential` of crates/messenger-crypto/src/lib.rs.
use resilient_messenger.Prelude.{
  ◌≡◌, ◌↔◌, refl, sym, ◌∙◌, Bool, true, false, not, ◌||◌, [], ◌∷◌, ◌++◌, append-nil, Bytes,
  bytes_eq, bytes_eq_iff, bytes_eq_refl, length, length-append, length-take, drop_part, slice_part,
  drop, get_or, ◌==◌, arith, >>=-eq-ok, if◌then◌else◌, Result, ok, err, ◌>>=◌, ◌>>◌, ensure,
}
use resilient_messenger.Transport.Directory.{Ed25519}
use resilient_messenger.Identity.{
  DeviceCertificate, account_id_from_root_public, verify_device_certificate,
  device_certificate_fingerprint,
}
use resilient_messenger.Identity.Invites.{slice}
use resilient_messenger.Crypto.{CryptoError, invalid_credential, MemberCredential}

unfoldable pub encode : MemberCredential → Bytes
encode m = 1 ∷ (m.device_id ++ (m.account_id ++ m.certificate_fingerprint))

unfoldable pub decode : Bytes → Result CryptoError MemberCredential
decode value =
    if not (length value == 65) || not (get_or value 0 0 == 1)
    then err invalid_credential
    else ok (record {
      device_id = slice 1 17 value;
      account_id = slice 17 49 value;
      certificate_fingerprint = slice 49 65 value;
    })

-- The widths that the types of the fields give.
pub record IsCredential (m : MemberCredential) : Type 0 where
  pub device : length m.device_id ≡ 16
  pub account : length m.account_id ≡ 32
  pub fingerprint : length m.certificate_fingerprint ≡ 16

decode-encode : (m : MemberCredential) → IsCredential m → decode (encode m) ≡ ok m
unfolding decode encode
decode-encode m h =
    let b = encode m in
    let at_1 : drop 1 b ≡ m.device_id ++ (m.account_id ++ m.certificate_fingerprint) = refl in
    let at_17 = drop_part 1 16 b m.device_id _ h.device at_1 in
    let at_49 : drop 49 b ≡ m.certificate_fingerprint ++ [] =
      drop_part 17 32 b m.account_id _ h.account at_17 ∙ sym (append-nil _) in
    let width : length b ≡ 65 = omega (
      arith,
      length-append m.device_id (m.account_id ++ m.certificate_fingerprint),
      length-append m.account_id m.certificate_fingerprint,
      h.device,
      h.account,
      h.fingerprint,
    ) in
    rw
      (
        width,
        slice_part 1 16 b m.device_id _ h.device at_1,
        slice_part 17 32 b m.account_id _ h.account at_17,
        slice_part 49 16 b m.certificate_fingerprint _ h.fingerprint at_49,
      )
      refl

module _ (sha256 : Bytes → Bytes) (ed : Ed25519) where
  -- the test of `verify_member_credential`
  unfoldable pub is_foreign : MemberCredential → Bytes → DeviceCertificate → Bool
  is_foreign member root_public_key certificate =
      not (bytes_eq member.account_id (account_id_from_root_public sha256 root_public_key))
      || not (bytes_eq member.device_id certificate.device_id)
      || not (
          bytes_eq member.certificate_fingerprint
            (device_certificate_fingerprint sha256 certificate))
      || not (verify_device_certificate ed root_public_key certificate)

  unfoldable pub verify_member_credential :
      Bytes → Bytes → DeviceCertificate → Result CryptoError MemberCredential
  verify_member_credential value root_public_key certificate = do
    member ← decode value
    ensure (not (is_foreign member root_public_key certificate)) invalid_credential
    ok member

  -- The credential of a certificate.
  abbrev pub member_of : Bytes → DeviceCertificate → MemberCredential
  member_of root_public_key certificate = record {
    device_id = certificate.device_id;
    account_id = account_id_from_root_public sha256 root_public_key;
    certificate_fingerprint = device_certificate_fingerprint sha256 certificate;
  }

  own_member :
      (m : MemberCredential) (root : Bytes) (cert : DeviceCertificate)
      → is_foreign m root cert ≡ false
      → (verify_device_certificate ed root cert ≡ true) × (m ≡ member_of root cert)
  unfolding is_foreign
  own_member m root cert h =
      let account : bytes_eq m.account_id (account_id_from_root_public sha256 root) ≡ true =
        ground arith in
      let device : bytes_eq m.device_id cert.device_id ≡ true = ground arith in
      let print : bytes_eq m.certificate_fingerprint (device_certificate_fingerprint sha256 cert)
          ≡ true =
        ground arith in
      let a : m.account_id ≡ account_id_from_root_public sha256 root =
        (bytes_eq_iff m.account_id _).0 account in
      let d : m.device_id ≡ cert.device_id = (bytes_eq_iff m.device_id _).0 device in
      let p : m.certificate_fingerprint ≡ device_certificate_fingerprint sha256 cert =
        (bytes_eq_iff m.certificate_fingerprint _).0 print in
      (ground arith, rw (← p, ← a, ← d) refl)

  own_member_is :
      (root : Bytes) (cert : DeviceCertificate)
      → verify_device_certificate ed root cert ≡ true
      → is_foreign (member_of root cert) root cert ≡ false
  unfolding is_foreign
  own_member_is root cert h =
      rw
        (
          bytes_eq_refl (account_id_from_root_public sha256 root),
          bytes_eq_refl cert.device_id,
          bytes_eq_refl (device_certificate_fingerprint sha256 cert),
          h,
        )
        refl

  -- With a hash of 32 bytes and a device identifier of 16: a credential is accepted for a root key
  -- and a certificate exactly if the root key has signed the certificate and the credential decodes
  -- to the certificate's device, the root key's account and the certificate's fingerprint; the
  -- encoded credential of a signed certificate is accepted.
  pub verify_member_credential_exact :
      (value root : Bytes) (cert : DeviceCertificate) (m : MemberCredential)
      → ((b : Bytes) → length (sha256 b) ≡ 32)
      → length cert.device_id ≡ 16
      → ((verify_member_credential value root cert ≡ ok m) ↔ (
          (decode value ≡ ok m)
          × (m ≡ member_of root cert)
          × (verify_device_certificate ed root cert ≡ true)))
        × (verify_device_certificate ed root cert ≡ true
            → verify_member_credential (encode (member_of root cert)) root cert
              ≡ ok (member_of root cert))
  unfolding verify_member_credential account_id_from_root_public device_certificate_fingerprint
  verify_member_credential_exact value root cert m hash id = (
    (
      λ e.
          let (m', decoded, last) = >>=-eq-ok (decode value) _ e in
          let same : m' ≡ m = ground arith in
          let own : is_foreign m' root cert ≡ false = ground arith in
          let (signed, is) = own_member m' root cert own in
          (rw (← same) decoded, rw (← same) is, signed),
      λ (decoded, is, signed).
          let own : is_foreign m root cert ≡ false = rw is (own_member_is root cert signed) in
          rw decoded (rw own refl),
    ),
    λ signed.
        let proper : IsCredential (member_of root cert) = record {
          device = id;
          account = hash _;
          fingerprint = omega (arith, length-take 16 (sha256 _), hash _);
        } in
        rw (decode-encode (member_of root cert) proper) (rw (own_member_is root cert signed) refl),
  )
