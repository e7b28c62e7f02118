-- ===== src/Core/Rotation.antt =====
-- `open` and `rotate_master_key` of crates/messenger-core/src/lib.rs: the state of `MessengerCore`
-- is the database and the active key.
pub mod Texts
use resilient_messenger.Prelude.{
  ℕ, zero, suc, ◌+◌, Bool, not, List, [], ◌∷◌, Bytes, length, ◌==◌, if◌then◌else◌, Result, ok, err,
  ◌>>=◌,
}
use resilient_messenger.Core.{CoreError, invalid_transition, invalid_master_key, MessageRow, Db}
use resilient_messenger.Core.Sql.{update_where, count_where}
use resilient_messenger.Core.Cipher.{Aead, encrypt, decrypt}
use resilient_messenger.Core.Messages.{is_message}

pub record MessengerCore : Type 0 where
  pub db : Db
  pub master_key : Bytes

-- `try_into` an array of 32 bytes, as `open` and `open_in_memory` begin; migrating is not modelled.
unfoldable pub open_with : Bytes → Db → Result CoreError MessengerCore
open_with master_key db =
    if length master_key == 32
    then ok (record { db = db; master_key = master_key })
    else err invalid_master_key

abbrev pub set_body : Bytes → MessageRow → MessageRow
set_body body m = record m { body_ciphertext = body }

-- UPDATE messages SET body_ciphertext, with its trigger.
unfoldable pub update_body : Bytes → Bytes → Db → Db
update_body id body db = record db {
  messages = update_where (is_message id) (set_body body) db.messages;
  revision = db.revision + count_where (is_message id) db.messages;
}

module _ (aead : Aead) (active replacement : Bytes) where
  -- The loop over the rows that were selected before it; `nonces` are the random nonces.
  unfoldable pub reencrypt : (ℕ → Bytes) → ℕ → List MessageRow → Db → Result CoreError Db
  reencrypt nonces i [] db = ok db
  reencrypt nonces i (row ∷ rest) db = do
    plaintext ← decrypt aead active row.body_ciphertext
    reencrypted ← encrypt aead replacement (nonces i) plaintext
    reencrypt nonces (suc i) rest (update_body row.client_message_id reencrypted db)

-- A failure rolls the transaction back and keeps the active key.
unfoldable pub rotate_master_key :
    Aead → (ℕ → Bytes) → Bytes → ℕ → MessengerCore → Result CoreError (Unit {0}) × MessengerCore
rotate_master_key aead nonces new_key new_version core =
    if not (length new_key == 32)
    then (err invalid_master_key, core)
    else if not (new_version == core.db.key_version + 1)
    then (err invalid_transition, core)
    else elim (reencrypt aead core.master_key new_key nonces 0 core.db.messages core.db) [
      | err e ↦ (err e, core)
      | ok db ↦
          (ok tt, record { db = record db { key_version = new_version }; master_key = new_key })
    ]
