-- ===== src/Crypto/Tests.antt =====
-- Tests of crates/messenger-crypto/src/lib.rs. A signer of the stand-in for OpenMLS is its bytes, and
-- a group is the value that is stored under its identifier.
use resilient_messenger.Prelude.{
  ◌≡◌, ◌↔◌, ◌⊎◌, refl, sym, true, [], ◌∷◌, ◌++◌, Bytes, none, some, bytes_eq, bytes_le, insert, ok,
  err, sort_by, arith,
}
use resilient_messenger.Core.Sql.{find_where, exists_where}
use resilient_messenger.Fixtures.{
  zeros, length-zeros, length-fit, toy, toy-IsAead, toy_ed, toy_keys, toy_hash,
}
use resilient_messenger.Identity.{
  DeviceCertificate, sign_device_certificate, verify_device_certificate,
}
use resilient_messenger.Crypto.{
  state_authentication, Entries, OpenMls, CryptoEngine, MemberCredential,
}
use resilient_messenger.Crypto.Credentials.{
  encode, decode, verify_member_credential, member_of, verify_member_credential_exact,
}
use resilient_messenger.Crypto.State.{
  has_key, put, entry_at_most, put_bytes, put_entries, plain_state, encrypt_state,
  export_conversation_state, import_conversation_state,
}
use resilient_messenger.Crypto.Snapshots.{import-export_conversation_state}

abbrev toy_mls : OpenMls
toy_mls = record {
  Signer = Bytes;
  Group = Bytes;
  serialize = λ s. some s;
  deserialize = λ b. some b;
  public_key = λ s. s;
  load = λ values id. elim (find_where (has_key id) values) [
    | none ↦ some none
    | some e ↦ some (some e.1)
  ];
  delete = λ group values. (some tt, values);
}

abbrev engine : CryptoEngine toy_mls
engine = record {
  values = (2 ∷ [], 20 ∷ []) ∷ (1 ∷ [], 10 ∷ []) ∷ [];
  signer = 5 ∷ 5 ∷ [];
  credential = 6 ∷ [];
  signature_key = 5 ∷ 5 ∷ [];
  groups = (1 ∷ [], 10 ∷ []) ∷ [];
  state_key = zeros 32;
}

abbrev target : CryptoEngine toy_mls
target = record {
  values = [];
  signer = 7 ∷ [];
  credential = [];
  signature_key = 7 ∷ [];
  groups = [];
  state_key = zeros 32;
}

abbrev sorted : Entries Bytes
sorted = (1 ∷ [], 10 ∷ []) ∷ (2 ∷ [], 20 ∷ []) ∷ []

abbrev snapshot : Bytes
snapshot =
    zeros 24
    ++ (put_bytes (5 ∷ 5 ∷ [])
        ++ (put_bytes (6 ∷ [])
            ++ (put_bytes (1 ∷ []) ++ ((0 ∷ 0 ∷ 0 ∷ 2 ∷ []) ++ put_entries sorted))))
    ++ zeros 16

snapshot_made : export_conversation_state toy_mls toy (zeros 24) (1 ∷ []) engine ≡ ok snapshot
unfolding export_conversation_state plain_state encrypt_state put_bytes put_entries sort_by
    exists_where bytes_eq insert entry_at_most bytes_le
snapshot_made = refl

import-export_conversation_state_example :
    ((group : Bytes)
      → toy_mls.load (sort_by entry_at_most engine.values) (1 ∷ []) ≡ some (some group)
      → import_conversation_state toy_mls toy snapshot target ≡ (
        ok (1 ∷ []),
        record engine {
          values = sort_by entry_at_most engine.values;
          groups = put (1 ∷ []) group [];
        },
      ))
    × ((toy_mls.load (sort_by entry_at_most engine.values) (1 ∷ []) ≡ none)
          ⊎ (toy_mls.load (sort_by entry_at_most engine.values) (1 ∷ []) ≡ some none)
        → import_conversation_state toy_mls toy snapshot target ≡ (
          err state_authentication,
          record engine { values = sort_by entry_at_most engine.values; groups = [] },
        ))
unfolding bytes_eq
import-export_conversation_state_example =
    import-export_conversation_state toy_mls (λ s b e. sym e) (1 ∷ []) engine
      (record {
        group = omega arith;
        credential = omega arith;
        signer = λ b e. ground arith;
        count = omega arith;
        entries = ((omega arith, omega arith), ((omega arith, omega arith), tt));
      })
      (((refl, refl), tt), (tt, tt)) toy (zeros 24) snapshot target toy-IsAead (length-zeros 24)
      refl snapshot_made

abbrev certificate : DeviceCertificate
certificate = sign_device_certificate toy_keys (zeros 32) (zeros 32) (zeros 16) 9

abbrev member : MemberCredential
member = member_of toy_hash toy_ed (zeros 32) certificate

verify_member_credential_exact_example :
    ((verify_member_credential toy_hash toy_ed (encode member) (zeros 32) certificate ≡ ok member)
      ↔ ((decode (encode member) ≡ ok member)
          × (member ≡ member_of toy_hash toy_ed (zeros 32) certificate)
          × (verify_device_certificate toy_ed (zeros 32) certificate ≡ true)))
    × (verify_device_certificate toy_ed (zeros 32) certificate ≡ true
        → verify_member_credential toy_hash toy_ed (encode member) (zeros 32) certificate
          ≡ ok member)
unfolding sign_device_certificate
verify_member_credential_exact_example =
    verify_member_credential_exact toy_hash toy_ed (encode member) (zeros 32) certificate member
      (λ b. length-fit 32 _) refl
