-- ===== src/Identity/Recovery.antt =====
-- The recovery phrase and the encrypted root in crates/messenger-identity/src/lib.rs. BIP-39, HKDF
-- and the cipher are parameters; a phrase is its entropy, and the random bytes are arguments.
use resilient_messenger.Prelude.{
  ◌≡◌, refl, false, ◌++◌, Bytes, codes, length, take, drop, ltb, ◌==◌, if◌then◌else◌, Option, some,
  Result, ok, err, ok_or, ◌>>=◌, ◌>>◌, >>=-eq-ok, ensure, arith,
}
use resilient_messenger.Core.Cipher.{Aead, IsAead, unseal-seal}
use resilient_messenger.Identity.{IdentityError, invalid_input, cryptographic_failure}

-- The bip39 and hkdf crates.
pub record Phrases : Type 0 where
  -- `Mnemonic::parse_in_normalized`, to the entropy
  pub parse : Bytes → Option Bytes
  -- the words of an entropy
  pub words : Bytes → Bytes
  -- salt, input keying material, info; 32 bytes are always allowed
  pub expand : Bytes → Bytes → Bytes → Bytes

-- A phrase that is printed parses to the entropy that it stands for.
pub record IsPhrases (ph : Phrases) : Type 0 where
  pub parses : (entropy : Bytes) → length entropy ≡ 32 → ph.parse (ph.words entropy) ≡ some entropy

pub record RecoveryPackage : Type 0 where
  pub phrase : Bytes
  pub recovery_identifier : Bytes
  pub encrypted_root : Bytes

unfoldable pub recovery_identifier : (Bytes → Bytes) → Bytes → Bytes
recovery_identifier sha256 phrase = sha256 (codes "resilient/recovery-id/v1" ++ phrase)

module _ (ph : Phrases) (aead : Aead) where
  unfoldable pub recovery_key : Bytes → Bytes
  recovery_key phrase =
      ph.expand (codes "resilient/recovery/salt/v1") phrase (codes "recovery-blob")

  unfoldable pub encrypt_recovery_blob : Bytes → Bytes → Bytes → Result IdentityError Bytes
  encrypt_recovery_blob nonce phrase plaintext =
      ok_or cryptographic_failure (aead.seal (recovery_key phrase) nonce (codes "") plaintext)
      >>= λ sealed. ok (nonce ++ sealed)

  unfoldable pub decrypt_recovery_blob : Bytes → Bytes → Result IdentityError Bytes
  decrypt_recovery_blob phrase blob =
      if ltb (length blob) 24
      then err invalid_input
      else ok_or cryptographic_failure
          (aead.unseal (recovery_key phrase) (take 24 blob) (codes "") (drop 24 blob))

  unfoldable pub create_recovery_package :
      (Bytes → Bytes) → Bytes → Bytes → Bytes → Result IdentityError RecoveryPackage
  create_recovery_package sha256 phrase nonce root =
      encrypt_recovery_blob nonce phrase root >>= λ encrypted_root. ok (record {
        phrase = phrase;
        recovery_identifier = recovery_identifier sha256 phrase;
        encrypted_root = encrypted_root;
      })

  unfoldable pub restore_account_root : Bytes → Bytes → Result IdentityError Bytes
  restore_account_root text encrypted_root = do
    phrase ← ok_or invalid_input (ph.parse text)
    secret ← decrypt_recovery_blob phrase encrypted_root
    ensure (length secret == 32) invalid_input
    ok secret

  -- With a cipher that opens what it sealed, a blob that was encrypted for a phrase under a nonce
  -- of 24 bytes decrypts under that phrase to the plaintext.
  pub decrypt_recovery_blob-encrypt_recovery_blob :
      (phrase nonce plaintext blob : Bytes)
      → IsAead aead
      → length nonce ≡ 24
      → encrypt_recovery_blob nonce phrase plaintext ≡ ok blob
      → decrypt_recovery_blob phrase blob ≡ ok plaintext
  unfolding encrypt_recovery_blob decrypt_recovery_blob
  decrypt_recovery_blob-encrypt_recovery_blob phrase nonce plaintext blob laws width e =
      let key = recovery_key phrase in
      let made = aead.seal key nonce (codes "") plaintext in
      let (sealed, sealing, out) = >>=-eq-ok (ok_or cryptographic_failure made) _ e in
      let sealed_is : made ≡ some sealed = ground arith in
      let blob_is : nonce ++ sealed ≡ blob = cc in
      let (opens, long) =
        unseal-seal aead key nonce (codes "") plaintext sealed laws width sealed_is in
      let enough : ltb (length (nonce ++ sealed)) 24 ≡ false = ground arith in
      rw (← blob_is) (rw enough (rw opens refl))

  -- With a cipher that opens what it sealed, words that parse back to their entropy, 32 bytes of
  -- entropy and a nonce of 24: the words of the package that is created for a root of 32 bytes
  -- restore that root.
  pub restore_account_root-create_recovery_package :
      (sha256 : Bytes → Bytes) (phrase nonce root : Bytes) (p : RecoveryPackage)
      → IsPhrases ph
      → IsAead aead
      → length phrase ≡ 32
      → length nonce ≡ 24
      → length root ≡ 32
      → create_recovery_package sha256 phrase nonce root ≡ ok p
      → restore_account_root (ph.words p.phrase) p.encrypted_root ≡ ok root
  unfolding create_recovery_package restore_account_root
  restore_account_root-create_recovery_package sha256 phrase nonce root p texts laws entropy width
        root_width e =
      let (blob, made, last) = >>=-eq-ok (encrypt_recovery_blob nonce phrase root) _ e in
      let phrase_is : phrase ≡ p.phrase = ground arith in
      let blob_is : blob ≡ p.encrypted_root = ground arith in
      rw (← phrase_is, ← blob_is)
        (rw
          (
            texts.parses phrase entropy,
            decrypt_recovery_blob-encrypt_recovery_blob phrase nonce root blob laws width made,
          )
          (rw root_width refl))
