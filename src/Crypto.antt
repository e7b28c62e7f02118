-- ===== src/Crypto.antt =====
-- crates/messenger-crypto/src/lib.rs: the credentials of members, and the exported state with its
-- codec. OpenMLS is a parameter, as the cipher is; the messages of groups are not modelled.
pub mod Credentials
pub mod State
pub mod Snapshots
mod Tests
use resilient_messenger.Prelude.{List, Bytes, Option}

pub data CryptoError : Type 0 where
  -- the text of the message is left out
  open_mls invalid_message conversation_not_found invalid_credential state_authentication :
      CryptoError

pub record MemberCredential : Type 0 where
  pub device_id : Bytes
  pub account_id : Bytes
  pub certificate_fingerprint : Bytes

-- A HashMap from bytes, with each key once.
abbrev pub Entries : Type 0 → Type 0
Entries V = List (Bytes × V)

-- What the code relies on of the openmls crates: the codec of a SignatureKeyPair, its public key,
-- `MlsGroup::load` on the values of a storage, which may fail or find no group, and
-- `MlsGroup::delete`, which changes the values and may fail.
pub record OpenMls : Type 1 where
  pub Signer : Type 0
  pub Group : Type 0
  pub serialize : Signer → Option Bytes
  pub deserialize : Bytes → Option Signer
  pub public_key : Signer → Bytes
  pub load : Entries Bytes → Bytes → Option (Option Group)
  pub delete : Group → Entries Bytes → Option (Unit {0}) × Entries Bytes

pub record CryptoEngine (mls : OpenMls) : Type 0 where
  -- the values of the provider's storage
  pub values : Entries Bytes
  pub signer : mls.Signer
  -- the serialized content of the credential, and its signature key
  pub credential : Bytes
  pub signature_key : Bytes
  pub groups : Entries mls.Group
  pub state_key : Bytes
