-- ===== src/Crypto/Snapshots.antt =====
-- The state of crates/messenger-crypto/src/lib.rs: what an import makes of an export.
use resilient_messenger.Prelude.{
  ℕ, ◌%◌, ◌^◌, ◌<◌, ◌≡◌, refl, ap, ◌∙◌, false, [], ◌∷◌, ◌++◌, append-nil, append_assoc, Bytes,
  bytes_eq, be32, from_be, length, length-append, take-length_append, drop-length_append, ltb, none,
  some, sort_by, insert, All, All-sort_by, All-insert, length-sort_by, ok, err, ok_or, >>=-eq-ok,
  ensure, arith, inl, inr, ◌⊎◌, Bool-cases,
}
use resilient_messenger.Core.Cipher.{Aead, IsAead, unseal-seal}
use resilient_messenger.Core.Sql.{delete_where, exists_where}
use resilient_messenger.Crypto.{state_authentication, Entries, OpenMls, CryptoEngine}
use resilient_messenger.Crypto.State.{
  state_aad, encrypt_state, decrypt_state, put_u32, put_bytes, take_u32, take_bytes, has_key, put,
  entry_at_most, put_entries, take_entries, plain_state, export_conversation_state, read_state,
  restored, load_group, import_conversation_state,
}

from_be-be32 : (n : ℕ) → n < 2 ^ 32 → from_be (be32 n) ≡ n
from_be-be32 n h = omega arith

take_u32-put_u32 : (n : ℕ) (rest : Bytes) → n < 2 ^ 32 → take_u32 (put_u32 n ++ rest) ≡ ok (n, rest)
unfolding take_u32
take_u32-put_u32 n rest h =
    let long : ltb (length (put_u32 n ++ rest)) 4 ≡ false = ground arith in
    rw long (rw (from_be-be32 n h) refl)

take_bytes-put_bytes :
    (value rest : Bytes)
    → length value < 2 ^ 32
    → take_bytes (put_bytes value ++ rest) ≡ ok (value, rest)
unfolding take_bytes put_bytes
take_bytes-put_bytes value rest h =
    let fits : length value % 2 ^ 32 ≡ length value = omega (arith, h) in
    let long : ltb (length (value ++ rest)) (length value) ≡ false =
      ground (arith, length-append value rest) in
    rw (fits, append_assoc (put_u32 (length value)) value rest)
      (rw (take_u32-put_u32 (length value) (value ++ rest) h)
        (rw (long, take-length_append value rest, drop-length_append value rest) refl))

decrypt_state-encrypt_state :
    (aead : Aead) (key nonce plain blob : Bytes)
    → IsAead aead
    → length nonce ≡ 24
    → encrypt_state aead key nonce plain ≡ ok blob
    → decrypt_state aead key blob ≡ ok plain
unfolding encrypt_state decrypt_state
decrypt_state-encrypt_state aead key nonce plain blob laws width e =
    let made = aead.seal key nonce state_aad plain in
    let (sealed, sealing, out) = >>=-eq-ok (ok_or state_authentication made) _ e in
    let sealed_is : made ≡ some sealed = ground arith in
    let blob_is : nonce ++ sealed ≡ blob = cc in
    let (opens, long) = unseal-seal aead key nonce state_aad plain sealed laws width sealed_is in
    let enough : ltb (length (nonce ++ sealed)) 40 ≡ false = ground arith in
    rw (← blob_is) (rw enough (rw opens refl))

-- The keys of a HashMap are different.
abbrev IsApart : Bytes × Bytes → Bytes × Bytes → Type 0
IsApart a b = (bytes_eq a.0 b.0 ≡ false) × (bytes_eq b.0 a.0 ≡ false)

abbrev pub IsMap : Entries Bytes → Type 0
IsMap [] = Unit
IsMap (x ∷ xs) = All (IsApart x) xs × IsMap xs

insert-IsMap :
    (x : Bytes × Bytes) (xs : Entries Bytes)
    → All (IsApart x) xs
    → IsMap xs
    → IsMap (insert entry_at_most x xs)
unfolding insert
insert-IsMap x [] h m = (tt, tt)
insert-IsMap x (y ∷ ys) h m = elim (Bool-cases (entry_at_most x y)) [
  | inl e ↦ rw e (h, m)
  | inr e ↦
      rw e (All-insert entry_at_most (IsApart y) x ys (h.0.1, h.0.0) m.0, insert-IsMap x ys h.1 m.1)
]

sort_by-IsMap : (xs : Entries Bytes) → IsMap xs → IsMap (sort_by entry_at_most xs)
unfolding sort_by
sort_by-IsMap [] m = tt
sort_by-IsMap (x ∷ xs) m =
    insert-IsMap x (sort_by entry_at_most xs) (All-sort_by entry_at_most (IsApart x) xs m.0)
      (sort_by-IsMap xs m.1)

All-middle :
    (P : Bytes × Bytes → Type 0) (xs : Entries Bytes) (x : Bytes × Bytes) (ys : Entries Bytes)
    → All P (xs ++ x ∷ ys)
    → P x
All-middle P [] x ys h = h.0
All-middle P (y ∷ xs) x ys h = All-middle P xs x ys h.1

-- A new key is put behind the others.
delete_where_new :
    (xs : Entries Bytes) (x : Bytes × Bytes) (ys : Entries Bytes)
    → IsMap (xs ++ x ∷ ys)
    → delete_where (has_key x.0) xs ≡ xs
unfolding delete_where
delete_where_new [] x ys m = refl
delete_where_new (y ∷ xs) x ys m =
    rw ((All-middle (IsApart y) xs x ys m.0).1) (ap (λ r. y ∷ r) (delete_where_new xs x ys m.1))

abbrev IsShort : Bytes × Bytes → Type 0
IsShort e = (length e.0 < 2 ^ 32) × (length e.1 < 2 ^ 32)

take_entries-put_entries :
    (es acc : Entries Bytes)
    → IsMap (acc ++ es)
    → All IsShort es
    → take_entries (length es) acc (put_entries es) ≡ ok (acc ++ es, [])
unfolding take_entries put_entries put
take_entries-put_entries [] acc m h = rw (append-nil acc) refl
take_entries-put_entries ((key, value) ∷ es) acc m h =
    let step = append_assoc acc ((key, value) ∷ []) es in
    rw (take_bytes-put_bytes key (put_bytes value ++ put_entries es) h.0.0) (
      rw (take_bytes-put_bytes value (put_entries es) h.0.1) (
        rw (delete_where_new acc (key, value) es m)
          (take_entries-put_entries es (acc ++ (key, value) ∷ []) (rw step m) h.1 ∙ rw step refl)))

-- A SignatureKeyPair is read back from its serialization.
abbrev pub IsOpenMls : OpenMls → Type 0
IsOpenMls mls = (s : mls.Signer) (b : Bytes) → mls.serialize s ≡ some b → mls.deserialize b ≡ some s

module _ (mls : OpenMls) where
  -- The lengths that fit into the u32 of the codec.
  pub record IsSmall (group_id : Bytes) (engine : CryptoEngine mls) : Type 0 where
    pub group : length group_id < 2 ^ 32
    pub credential : length engine.credential < 2 ^ 32
    pub signer : (b : Bytes) → mls.serialize engine.signer ≡ some b → length b < 2 ^ 32
    pub count : length engine.values < 2 ^ 32
    pub entries : All IsShort engine.values

  module _ (laws : IsOpenMls mls) (group_id : Bytes) (engine : CryptoEngine mls)
      (small : IsSmall group_id engine) (keyed : IsMap engine.values) where
    abbrev sorted : Entries Bytes
    sorted = sort_by entry_at_most engine.values

    read_state-plain_state :
        (plain : Bytes)
        → plain_state mls engine.signer engine.credential group_id engine.values ≡ ok plain
        → read_state mls plain ≡ ok (engine.signer, engine.credential, group_id, sorted)
    unfolding plain_state read_state
    read_state-plain_state plain e =
        let (b, serialized, last) = >>=-eq-ok (ok_or _ (mls.serialize engine.signer)) _ e in
        let written : mls.serialize engine.signer ≡ some b = ground arith in
        let same_count : length sorted ≡ length engine.values =
          length-sort_by entry_at_most engine.values in
        let fits : length sorted % 2 ^ 32 ≡ length sorted =
          omega (arith, same_count, small.count) in
        let counted : length sorted < 2 ^ 32 = omega (arith, same_count, small.count) in
        let entries = put_entries sorted in
        let tail_3 = put_u32 (length sorted % 2 ^ 32) ++ entries in
        let tail_2 = put_bytes group_id ++ tail_3 in
        let tail_1 = put_bytes engine.credential ++ tail_2 in
        let plain_is : put_bytes b ++ tail_1 ≡ plain = cc in
        rw (← plain_is) (
          rw (take_bytes-put_bytes b tail_1 (small.signer b written)) (
            rw (take_bytes-put_bytes engine.credential tail_2 small.credential) (
              rw (take_bytes-put_bytes group_id tail_3 small.group) (
                rw (fits, take_u32-put_u32 (length sorted) entries counted)
                  (rw (laws engine.signer b written) (
                    rw
                      (take_entries-put_entries sorted [] (sort_by-IsMap engine.values keyed)
                        (All-sort_by entry_at_most IsShort engine.values small.entries))
                      refl))))))

    -- The target with what the export holds.
    abbrev pub replaced : CryptoEngine mls → CryptoEngine mls
    replaced target = record target {
      values = sorted;
      signer = engine.signer;
      credential = engine.credential;
      signature_key = mls.public_key engine.signer;
    }

    -- With a cipher that opens what it sealed and a codec of signers that reads what it writes, for
    -- an engine whose storage has each key once and whose parts are shorter than 2^32: what it
    -- exports under a nonce of 24 bytes is imported by every engine with the same state key, which
    -- then has the signer, the credential and the stored values of the first one, and the group, if
    -- it loads from them. If it does not load, the import fails, but the signer, the credential and
    -- the storage are replaced nevertheless.
    pub import-export_conversation_state :
        (aead : Aead) (nonce blob : Bytes) (target : CryptoEngine mls)
        → IsAead aead
        → length nonce ≡ 24
        → target.state_key ≡ engine.state_key
        → export_conversation_state mls aead nonce group_id engine ≡ ok blob
        → ((group : mls.Group)
            → mls.load sorted group_id ≡ some (some group)
            → import_conversation_state mls aead blob target ≡ (
              ok group_id,
              record (replaced target) { groups = put group_id group target.groups },
            ))
          × ((mls.load sorted group_id ≡ none) ⊎ (mls.load sorted group_id ≡ some none)
              → import_conversation_state mls aead blob target
                ≡ (err state_authentication, replaced target))
    unfolding export_conversation_state import_conversation_state load_group restored
    import-export_conversation_state aead nonce blob target ciphers width same e =
        let (u, held, e1) =
          >>=-eq-ok (ensure (exists_where (has_key group_id) engine.groups) _) _ e in
        let (plain, written, e2) =
          >>=-eq-ok (plain_state mls engine.signer engine.credential group_id engine.values) _ e1 in
        let opened =
          decrypt_state-encrypt_state aead engine.state_key nonce plain blob ciphers width e2 in
        let opened_there : decrypt_state aead target.state_key blob ≡ ok plain =
          ap (λ k. decrypt_state aead k blob) same ∙ opened in
        let state = read_state-plain_state plain written in
        let loaded : import_conversation_state mls aead blob target
            ≡ load_group mls group_id (replaced target) =
          rw (opened_there, import_conversation_state)
            (rw (state, import_conversation_state) refl) in
        (
          λ group found. loaded ∙ rw (found, load_group) refl,
          λ failed.
              loaded
              ∙ elim failed [ inl f ↦ rw (f, load_group) refl | inr f ↦ rw (f, load_group) refl ],
        )
