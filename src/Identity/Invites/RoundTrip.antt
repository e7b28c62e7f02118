-- ===== src/Identity/Invites/RoundTrip.antt =====
-- QR codes of crates/messenger-identity/src/lib.rs: `decode_and_verify_qr_payload` on what
-- `encode_qr_payload` wrote.
use resilient_messenger.Prelude.{
  ℕ, length-take, ◌<◌, ◌^◌, ◌≡◌, refl, sym, ap, ◌∙◌, Bool, true, false, not, ◌&&◌, [], ◌∷◌, ◌++◌,
  append-nil, Bytes, codes, be64, from_be-be64, bytes_eq, bytes_eq_refl, length, length-append,
  length-drop, drop, drop_part, slice_part, get_or_part, get_or, ltb, ◌==◌, if◌then◌else◌, Option,
  none, some, ok, err, arith, inl, inr, Bool-cases,
}
use resilient_messenger.Transport.Directory.{Ed25519}
use resilient_messenger.Identity.{
  invalid_input, SignedInvite, Signing, IsSigning, account_id, account_id_from_root_public,
}
use resilient_messenger.Identity.Invites.{
  or_zero, is_before, is_some, sign_invite, verify_invite, qr_bytes, slice, then_some, qr_invite,
  encode_qr_payload, decode_and_verify_qr_payload,
}

-- The widths that the types of the fields give.
pub record IsInvite (invite : SignedInvite) : Type 0 where
  pub account : length invite.account_id ≡ 32
  pub fingerprint : length invite.fingerprint ≡ 16
  pub expiry : or_zero invite.expires_at < 2 ^ 64
  pub signature : length invite.signature ≡ 64

flag_expiry : (o : Option ℕ) → then_some ((if is_some o then 1 else 0) == 1) (or_zero o) ≡ o
flag_expiry none = refl
flag_expiry (some x) = refl

flag_small : (o : Option ℕ) → ltb 1 (if is_some o then 1 else 0) ≡ false
flag_small none = refl
flag_small (some x) = refl

module _ (public : Bytes) (invite : SignedInvite) (width : length public ≡ 32)
    (h : IsInvite invite) where
  abbrev b : Bytes
  b = qr_bytes public invite

  abbrev flag : ℕ
  flag = if is_some invite.expires_at then 1 else 0

  abbrev after_flag : Bytes
  after_flag = be64 (or_zero invite.expires_at) ++ invite.signature

  abbrev after_account : Bytes
  after_account = invite.fingerprint ++ ((flag ∷ []) ++ after_flag)

  at_4 : drop 4 b ≡ public ++ ((invite.version ∷ []) ++ (invite.account_id ++ after_account))
  unfolding qr_bytes
  at_4 = refl

  at_36 : drop 36 b ≡ (invite.version ∷ []) ++ (invite.account_id ++ after_account)
  at_36 = drop_part 4 32 b public _ width at_4

  at_37 : drop 37 b ≡ invite.account_id ++ after_account
  at_37 = drop_part 36 1 b (invite.version ∷ []) _ refl at_36

  at_69 : drop 69 b ≡ after_account
  at_69 = drop_part 37 32 b invite.account_id _ h.account at_37

  at_85 : drop 85 b ≡ (flag ∷ []) ++ after_flag
  at_85 = drop_part 69 16 b invite.fingerprint _ h.fingerprint at_69

  at_86 : drop 86 b ≡ after_flag
  at_86 = drop_part 85 1 b (flag ∷ []) _ refl at_85

  at_94 : drop 94 b ≡ invite.signature ++ []
  at_94 =
      drop_part 86 8 b (be64 (or_zero invite.expires_at)) invite.signature refl at_86
      ∙ sym (append-nil invite.signature)

  length-qr_bytes : length b ≡ 158
  unfolding qr_bytes
  length-qr_bytes =
      omega
        (arith, length-drop 94 b, ap length at_94, length-append invite.signature [], h.signature)

  qr_invite-qr_bytes : qr_invite b ≡ invite
  unfolding qr_invite
  qr_invite-qr_bytes =
      rw
        (
          get_or_part 36 0 invite.version b _ at_36,
          slice_part 37 32 b invite.account_id _ h.account at_37,
          slice_part 69 16 b invite.fingerprint _ h.fingerprint at_69,
          get_or_part 85 0 flag b _ at_85,
          slice_part 86 8 b (be64 (or_zero invite.expires_at)) invite.signature refl at_86,
          slice_part 94 64 b invite.signature [] h.signature at_94,
          from_be-be64 (or_zero invite.expires_at) h.expiry,
          flag_expiry invite.expires_at,
        )
        refl

  tag-qr_bytes : bytes_eq (slice 0 4 b) (codes "RMQ1") ≡ true
  unfolding qr_bytes
  tag-qr_bytes = bytes_eq_refl (codes "RMQ1")

  root-qr_bytes : slice 4 36 b ≡ public
  root-qr_bytes = slice_part 4 32 b public _ width at_4

  flag-qr_bytes : ltb 1 (get_or b 85 0) ≡ false
  flag-qr_bytes = rw (get_or_part 85 0 flag b _ at_85) (flag_small invite.expires_at)

  -- A QR code is accepted exactly if the invitation that it was written for verifies.
  decode-qr_bytes :
      (sha256 : Bytes → Bytes) (ed : Ed25519) (at : ℕ)
      → decode_and_verify_qr_payload sha256 ed b at ≡ (
          if verify_invite ed public invite at
            && bytes_eq (account_id_from_root_public sha256 public) invite.account_id
          then ok (public, invite)
          else err invalid_input)
  unfolding decode_and_verify_qr_payload
  decode-qr_bytes sha256 ed at =
      rw (length-qr_bytes, tag-qr_bytes, flag-qr_bytes, root-qr_bytes, qr_invite-qr_bytes) refl

module _ (sha256 : Bytes → Bytes) (ed : Ed25519) (keys : Signing)
    (hash_width : (m : Bytes) → length (sha256 m) ≡ 32) (laws : IsSigning ed keys) where
  sign_invite-IsInvite :
      (root : Bytes) (expires_at : Option ℕ)
      → or_zero expires_at < 2 ^ 64
      → IsInvite (sign_invite sha256 keys root expires_at)
  unfolding sign_invite
  sign_invite-IsInvite root expires_at small = record {
    account = unfold account_id account_id_from_root_public in hash_width _;
    fingerprint = omega (arith, length-take 16 (keys.verifying_key root), laws.key_width root);
    expiry = small;
    signature = laws.signature_width root _;
  }

  verify_invite-sign_invite :
      (root : Bytes) (expires_at : Option ℕ) (at : ℕ)
      → verify_invite ed (keys.verifying_key root) (sign_invite sha256 keys root expires_at) at
        ≡ not (is_before expires_at at)
  unfolding verify_invite sign_invite
  verify_invite-sign_invite root expires_at at = elim (Bool-cases (is_before expires_at at)) [
    | inl late ↦ rw late refl
    | inr fresh ↦ rw (fresh, laws.valid root) (laws.verifies root _)
  ]

  -- For every root and every expiry that is a u64, with a hash of 32 bytes and a signature scheme
  -- that verifies what it signs: the invitation that the root signs is written as a QR code, and
  -- the code is decoded at any time to the root's public key and that invitation, or, exactly if
  -- the expiry lies before that time, it is refused.
  pub decode-encode-sign_invite :
      (root : Bytes) (expires_at : Option ℕ)
      → or_zero expires_at < 2 ^ 64
      → let invite = sign_invite sha256 keys root expires_at in
        (out : Bytes) × (encode_qr_payload sha256 ed keys root invite ≡ ok out)
        × ((at : ℕ)
            → decode_and_verify_qr_payload sha256 ed out at ≡ (
                if is_before expires_at at
                then err invalid_input
                else ok (keys.verifying_key root, invite)))
  unfolding encode_qr_payload
  decode-encode-sign_invite root expires_at small =
      let public = keys.verifying_key root in
      let invite = sign_invite sha256 keys root expires_at in
      let own : bytes_eq (account_id sha256 keys root) invite.account_id ≡ true =
        unfold sign_invite in bytes_eq_refl (account_id sha256 keys root) in
      let known : bytes_eq (account_id_from_root_public sha256 public) invite.account_id ≡ true =
        unfold sign_invite account_id in
        bytes_eq_refl (account_id_from_root_public sha256 public) in
      (
        qr_bytes public invite,
        rw (verify_invite-sign_invite root expires_at 0, never_before expires_at, own) refl,
        λ at.
            decode-qr_bytes public invite (laws.key_width root)
              (sign_invite-IsInvite root expires_at small) sha256 ed at
            ∙ rw (verify_invite-sign_invite root expires_at at, known)
                (flip _ _ (is_before expires_at at)),
      )
    where
      never_before : (o : Option ℕ) → is_before o 0 ≡ false
      never_before none = refl
      never_before (some x) = ground arith

      flip :
          {A : Type 0} (x y : A) (c : Bool)
          → (if not c && true then x else y) ≡ (if c then y else x)
      flip x y true = refl
      flip x y false = refl
