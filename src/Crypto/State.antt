-- ===== src/Crypto/State.antt =====
-- The exported state of crates/messenger-crypto/src/lib.rs. The random nonce is an argument; locks
-- do not fail.
use resilient_messenger.Prelude.{
  ℕ, zero, suc, ◌%◌, ◌^◌, Bool, not, [], ◌∷◌, ◌++◌, Bytes, bytes_eq, bytes_le, be32, from_be, codes,
  length, take, drop, ltb, ◌==◌, if◌then◌else◌, none, some, sort_by, Result, ok, err, ok_or, ensure,
  ◌>>=◌, ◌>>◌,
}
use resilient_messenger.Core.Cipher.{Aead}
use resilient_messenger.Core.Sql.{delete_where, find_where, exists_where}
use resilient_messenger.Crypto.{
  CryptoError, open_mls, conversation_not_found, state_authentication, Entries, OpenMls,
  CryptoEngine,
}

-- STATE_AAD
abbrev pub state_aad : Bytes
state_aad = codes "resilient/openmls-state/v1"

module _ (aead : Aead) where
  unfoldable pub encrypt_state : Bytes → Bytes → Bytes → Result CryptoError Bytes
  encrypt_state key nonce plain =
      ok_or state_authentication (aead.seal key nonce state_aad plain) >>= λ sealed.
      ok (nonce ++ sealed)

  unfoldable pub decrypt_state : Bytes → Bytes → Result CryptoError Bytes
  decrypt_state key blob =
      if ltb (length blob) 40
      then err state_authentication
      else ok_or state_authentication (aead.unseal key (take 24 blob) state_aad (drop 24 blob))

abbrev pub put_u32 : ℕ → Bytes
put_u32 value = be32 value

-- `value.len() as u32` wraps.
unfoldable pub put_bytes : Bytes → Bytes
put_bytes value = put_u32 (length value % 2 ^ 32) ++ value

unfoldable pub take_u32 : Bytes → Result CryptoError (ℕ × Bytes)
take_u32 input =
    if ltb (length input) 4
    then err state_authentication
    else ok (from_be (take 4 input), drop 4 input)

unfoldable pub take_bytes : Bytes → Result CryptoError (Bytes × Bytes)
take_bytes input = do
  (len, rest) ← take_u32 input
  ensure (not (ltb (length rest) len)) state_authentication
  ok (take len rest, drop len rest)

abbrev pub has_key : {V : Type 0} → Bytes → Bytes × V → Bool
has_key key e = bytes_eq key e.0

-- `HashMap::insert`
unfoldable pub put : {V : Type 0} → Bytes → V → Entries V → Entries V
put key value entries = delete_where (has_key key) entries ++ (key, value) ∷ []

-- The comparison of `entries.sort_by(|a, b| a.0.cmp(b.0))`.
unfoldable pub entry_at_most : Bytes × Bytes → Bytes × Bytes → Bool
entry_at_most a b = bytes_le a.0 b.0

unfoldable pub put_entries : Entries Bytes → Bytes
put_entries [] = []
put_entries ((key, value) ∷ entries) = put_bytes key ++ (put_bytes value ++ put_entries entries)

-- The loop over `0..count`.
unfoldable pub take_entries : ℕ → Entries Bytes → Bytes → Result CryptoError (Entries Bytes × Bytes)
take_entries zero values input = ok (values, input)
take_entries (suc n) values input = do
  (key, input) ← take_bytes input
  (value, input) ← take_bytes input
  take_entries n (put key value values) input

module _ (mls : OpenMls) where
  unfoldable pub plain_state : mls.Signer → Bytes → Bytes → Entries Bytes → Result CryptoError Bytes
  plain_state signer identity group_id values = do
    signer_bytes ← ok_or open_mls (mls.serialize signer)
    let entries = sort_by entry_at_most values
    ok (
        put_bytes signer_bytes
        ++ (put_bytes identity
            ++ (put_bytes group_id ++ (put_u32 (length entries % 2 ^ 32) ++ put_entries entries))))

  unfoldable pub export_conversation_state :
      Aead → Bytes → Bytes → CryptoEngine mls → Result CryptoError Bytes
  export_conversation_state aead nonce group_id engine = do
    ensure (exists_where (has_key group_id) engine.groups) conversation_not_found
    plain ← plain_state engine.signer engine.credential group_id engine.values
    encrypt_state aead engine.state_key nonce plain

  -- What `import_conversation_state` reads: the signer, the identity, the group and the values.
  unfoldable pub read_state :
      Bytes → Result CryptoError (mls.Signer × Bytes × Bytes × Entries Bytes)
  read_state plain = do
    (signer_bytes, input) ← take_bytes plain
    (identity, input) ← take_bytes input
    (group_id, input) ← take_bytes input
    (count, input) ← take_u32 input
    signer ← ok_or state_authentication (mls.deserialize signer_bytes)
    (values, input) ← take_entries count [] input
    ensure (length input == 0) state_authentication
    ok (signer, identity, group_id, values)

  unfoldable pub restored :
      mls.Signer × Bytes × Bytes × Entries Bytes → CryptoEngine mls → CryptoEngine mls
  restored (signer, identity, group_id, values) engine = record engine {
    values = values;
    signer = signer;
    credential = identity;
    signature_key = mls.public_key signer;
  }

  -- The storage, the signer and the credential are replaced before the group is loaded, and stay
  -- replaced if that fails.
  unfoldable pub load_group : Bytes → CryptoEngine mls → Result CryptoError Bytes × CryptoEngine mls
  load_group group_id engine = elim (mls.load engine.values group_id) [
    | some (some group) ↦ (ok group_id, record engine { groups = put group_id group engine.groups })
    | some none ↦ (err state_authentication, engine)
    | none ↦ (err state_authentication, engine)
  ]

  unfoldable pub import_conversation_state :
      Aead → Bytes → CryptoEngine mls → Result CryptoError Bytes × CryptoEngine mls
  import_conversation_state aead encrypted engine =
      elim (decrypt_state aead engine.state_key encrypted >>= read_state) [
        | err e ↦ (err e, engine)
        | ok state ↦ load_group state.2 (restored state engine)
      ]

  unfoldable pub destroy_local_conversation_state :
      Bytes → CryptoEngine mls → Result CryptoError (Unit {0}) × CryptoEngine mls
  destroy_local_conversation_state group_id engine =
      elim (find_where (has_key group_id) engine.groups) [
        | none ↦ (err conversation_not_found, engine)
        | some e ↦
            let (deleted, values) = mls.delete e.1 engine.values in
            (
              ok_or open_mls deleted,
              record engine {
                groups = delete_where (has_key group_id) engine.groups;
                values = values;
              },
            )
      ]
