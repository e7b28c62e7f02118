-- ===== src/Identity/Invites.antt =====
-- Invitations and their QR codes in crates/messenger-identity/src/lib.rs.
pub mod RoundTrip
pub mod Accepted
use resilient_messenger.Prelude.{
  ℕ, ◌-◌, ◌≡◌, Bool, true, false, not, ◌&&◌, ◌||◌, [], ◌∷◌, ◌++◌, Bytes, codes, be64, from_be,
  bytes_eq, length, take, drop, get_or, ltb, ◌==◌, if◌then◌else◌, Option, none, some, Result, ok,
  err,
}
use resilient_messenger.Transport.Directory.{Ed25519}
use resilient_messenger.Identity.{
  IdentityError, invalid_input, SignedInvite, Signing, account_id, account_id_from_root_public,
}

-- `unwrap_or(0)`
abbrev pub or_zero : Option ℕ → ℕ
or_zero none = 0
or_zero (some x) = x

-- `is_some_and(|x| x < at)`
abbrev pub is_before : Option ℕ → ℕ → Bool
is_before none at = false
is_before (some x) at = ltb x at

abbrev pub is_some : Option ℕ → Bool
is_some none = false
is_some (some x) = true

-- What an invitation's signature covers.
unfoldable pub invite_payload : ℕ → Bytes → Bytes → Option ℕ → Bytes
invite_payload version id fingerprint expires_at =
    version ∷ (id ++ (fingerprint ++ be64 (or_zero expires_at)))

module _ (sha256 : Bytes → Bytes) (keys : Signing) where
  unfoldable pub sign_invite : Bytes → Option ℕ → SignedInvite
  sign_invite root expires_at =
      let id = account_id sha256 keys root in
      let fp = take 16 (keys.verifying_key root) in
      record {
        version = 1;
        account_id = id;
        fingerprint = fp;
        expires_at = expires_at;
        signature = keys.sign root (invite_payload 1 id fp expires_at);
      }

unfoldable pub verify_invite : Ed25519 → Bytes → SignedInvite → ℕ → Bool
verify_invite ed root_public invite at =
    if not (invite.version == 1) || is_before invite.expires_at at
    then false
    else if not (ed.valid_key root_public)
    then false
    else ed.verify root_public
        (invite_payload invite.version invite.account_id invite.fingerprint invite.expires_at)
        invite.signature

-- The fields of the QR code, in their order.
unfoldable pub qr_bytes : Bytes → SignedInvite → Bytes
qr_bytes public invite =
    codes "RMQ1"
    ++ (public
        ++ ((invite.version ∷ [])
            ++ (invite.account_id
                ++ (invite.fingerprint
                    ++ (((if is_some invite.expires_at then 1 else 0) ∷ [])
                        ++ (be64 (or_zero invite.expires_at) ++ invite.signature))))))

-- `value[from..to]`
abbrev pub slice : ℕ → ℕ → Bytes → Bytes
slice from to value = take (to - from) (drop from value)

-- `(has_expiry == 1).then_some(expiry)`
abbrev pub then_some : Bool → ℕ → Option ℕ
then_some true x = some x
then_some false x = none

-- The invitation that a QR code of 158 bytes holds; all positions lie inside it.
unfoldable pub qr_invite : Bytes → SignedInvite
qr_invite value = record {
  version = get_or value 36 0;
  account_id = slice 37 69 value;
  fingerprint = slice 69 85 value;
  expires_at = then_some (get_or value 85 0 == 1) (from_be (slice 86 94 value));
  signature = slice 94 158 value;
}

module _ (sha256 : Bytes → Bytes) (ed : Ed25519) where
  unfoldable pub encode_qr_payload : Signing → Bytes → SignedInvite → Result IdentityError Bytes
  encode_qr_payload keys root invite =
      let public = keys.verifying_key root in
      if not (verify_invite ed public invite 0)
        || not (bytes_eq (account_id sha256 keys root) invite.account_id)
      then err invalid_input
      else ok (qr_bytes public invite)

  unfoldable pub decode_and_verify_qr_payload :
      Bytes → ℕ → Result IdentityError (Bytes × SignedInvite)
  decode_and_verify_qr_payload value at =
      let root_public = slice 4 36 value in
      let invite = qr_invite value in
      if not (length value == 158) || not (bytes_eq (slice 0 4 value) (codes "RMQ1"))
      then err invalid_input
      else if ltb 1 (get_or value 85 0)
      then err invalid_input
      else if verify_invite ed root_public invite at
          && bytes_eq (account_id_from_root_public sha256 root_public) invite.account_id
      then ok (root_public, invite)
      else err invalid_input
