-- ===== src/Core/Cipher.antt =====
-- `encrypt` and `decrypt` of crates/messenger-core/src/lib.rs. XChaCha20-Poly1305 is a parameter;
-- the random nonce is an argument.
use resilient_messenger.Prelude.{
  ◌+◌, ◌≤◌, ◌≡◌, refl, false, ◌++◌, Bytes, codes, length, length-append, take, drop,
  take-length_append, drop-length_append, ltb, if◌then◌else◌, Option, some, Result, ok, err, ok_or,
  ◌>>=◌, >>=-eq-ok, arith,
}
use resilient_messenger.Core.{CoreError, authentication}

-- Keys of 32 bytes are always accepted, so `new_from_slice` has no failing branch here.
pub record Aead : Type 0 where
  -- key, nonce, associated data, message
  pub seal : Bytes → Bytes → Bytes → Bytes → Option Bytes
  pub unseal : Bytes → Bytes → Bytes → Bytes → Option Bytes

-- The documented behaviour of the cipher: what is sealed opens under the same key, nonce and
-- associated data, and the tag takes 16 bytes.
pub record IsAead (aead : Aead) : Type 0 where
  pub opens :
      (key nonce aad message sealed : Bytes)
      → aead.seal key nonce aad message ≡ some sealed
      → aead.unseal key nonce aad sealed ≡ some message
  pub tag :
      (key nonce aad message sealed : Bytes)
      → aead.seal key nonce aad message ≡ some sealed
      → length sealed ≡ length message + 16

-- A sealed message behind its nonce of 24 bytes opens.
pub unseal-seal :
    (aead : Aead) (key nonce aad message sealed : Bytes)
    → IsAead aead
    → length nonce ≡ 24
    → aead.seal key nonce aad message ≡ some sealed
    → (aead.unseal key (take 24 (nonce ++ sealed)) aad (drop 24 (nonce ++ sealed)) ≡ some message)
      × (40 ≤ length (nonce ++ sealed))
unseal-seal aead key nonce aad message sealed laws width e =
    let front : take 24 (nonce ++ sealed) ≡ nonce =
      rw (← width) (take-length_append nonce sealed) in
    let back : drop 24 (nonce ++ sealed) ≡ sealed =
      rw (← width) (drop-length_append nonce sealed) in
    (
      rw (front, back, laws.opens key nonce aad message sealed e) refl,
      omega (arith, width, length-append nonce sealed, laws.tag key nonce aad message sealed e),
    )

-- MESSAGE_AAD
abbrev pub message_aad : Bytes
message_aad = codes "resilient/local-message/v1"

module _ (aead : Aead) where
  unfoldable pub encrypt : Bytes → Bytes → Bytes → Result CoreError Bytes
  encrypt key nonce plaintext =
      ok_or authentication (aead.seal key nonce message_aad plaintext) >>= λ sealed.
      ok (nonce ++ sealed)

  unfoldable pub decrypt : Bytes → Bytes → Result CoreError Bytes
  decrypt key blob =
      if ltb (length blob) 40
      then err authentication
      else ok_or authentication (aead.unseal key (take 24 blob) message_aad (drop 24 blob))

  -- With a cipher that opens what it sealed, what was encrypted under a nonce of 24 bytes decrypts
  -- under the same key to the plaintext.
  pub decrypt-encrypt :
      (key nonce plaintext blob : Bytes)
      → IsAead aead
      → length nonce ≡ 24
      → encrypt key nonce plaintext ≡ ok blob
      → decrypt key blob ≡ ok plaintext
  unfolding encrypt decrypt
  decrypt-encrypt key nonce plaintext blob laws width e =
      let (sealed, made, out) =
        >>=-eq-ok (ok_or authentication (aead.seal key nonce message_aad plaintext)) _ e in
      let sealed_is : aead.seal key nonce message_aad plaintext ≡ some sealed = ground arith in
      let blob_is : nonce ++ sealed ≡ blob = cc in
      let (opens, long) =
        unseal-seal aead key nonce message_aad plaintext sealed laws width sealed_is in
      let enough : ltb (length (nonce ++ sealed)) 40 ≡ false = ground arith in
      rw (← blob_is) (rw enough (rw opens refl))
