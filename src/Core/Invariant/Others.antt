-- ===== src/Core/Invariant/Others.antt =====
-- The well-formedness of the database, the operations of crates/messenger-core/src/lib.rs on the
-- other tables, and the rotation of the key.
use resilient_messenger.Prelude.{
  ℕ, suc, ◌+◌, ◌≡◌, refl, ◌∙◌, subst, inl, inr, ◌==◌, Bool-cases, Result-cases, List, [], ◌∷◌,
  All-weaken, Bytes, length, ok, >>=-eq-ok, arith,
}
use resilient_messenger.Core.{
  IncomingEvent, CachedRelayDirectory, NetworkMode, MessageRow, Db, empty_db,
}
use resilient_messenger.Core.Sql.{update_where}
use resilient_messenger.Core.Cipher.{Aead, encrypt, decrypt}
use resilient_messenger.Core.Messages.{is_message}
use resilient_messenger.Core.Sync.{
  insert_event, insert_events, ingest_server_event, ingest_server_batch, set_sync_cursor,
  cache_relay_directory,
}
use resilient_messenger.Core.Account.{
  add_member, remove_member, block_account, unblock_account, set_network_mode, wipe_local_account,
}
use resilient_messenger.Core.Rotation.{
  MessengerCore, set_body, update_body, reencrypt, rotate_master_key,
}
use resilient_messenger.Core.Invariant.{
  IsValid, IsOpen, KeepsKeys, DistinctMessages-update, IsOpen-update, HasConversation-update,
}

-- The three tables of the invariant are as before.
pub record SameTables (db db' : Db) : Type 0 where
  messages : db'.messages ≡ db.messages
  outbox : db'.outbox ≡ db.outbox
  conversations : db'.conversations ≡ db.conversations

pub SameTables-IsValid : (db db' : Db) → SameTables db db' → IsValid db → IsValid db'
SameTables-IsValid db db' same h = record {
  messages = rw same.messages h.messages;
  outbox = rw same.outbox h.outbox;
  open_messages = rw (same.messages, same.outbox) h.open_messages;
  conversations = rw (same.messages, same.conversations) h.conversations;
}

insert_events-SameTables :
    (n : ℕ) (events : List (IncomingEvent × ℕ)) (db : Db)
    → SameTables db (insert_events n events db).1
unfolding insert_events insert_event
insert_events-SameTables n [] db = record { messages = refl; outbox = refl; conversations = refl }
insert_events-SameTables n ((event, now) ∷ rest) db =
    let (changed, db') =
      insert_event event.event_id event.conversation_id event.encrypted_event now db in
    let more = insert_events-SameTables (n + changed) rest db' in
    record {
      messages = more.messages ∙ ground arith;
      outbox = more.outbox ∙ ground arith;
      conversations = more.conversations ∙ ground arith;
    }

pub ingest_server_event-SameTables :
    (event conversation body : Bytes) (now : ℕ) (db : Db)
    → SameTables db (ingest_server_event event conversation body now db).1
unfolding ingest_server_event insert_event
ingest_server_event-SameTables event conversation body now db = record {
  messages = ground arith;
  outbox = ground arith;
  conversations = ground arith;
}

pub ingest_server_batch-SameTables :
    (events : List (IncomingEvent × ℕ)) (db : Db) → SameTables db (ingest_server_batch events db).1
unfolding ingest_server_batch
ingest_server_batch-SameTables events db =
    let more = insert_events-SameTables 0 events db in
    record {
      messages = ground (arith, more.messages);
      outbox = ground (arith, more.outbox);
      conversations = ground (arith, more.conversations);
    }

pub set_sync_cursor-SameTables :
    (scope : Bytes) (cursor : ℕ) (db : Db) → SameTables db (set_sync_cursor scope cursor db).1
unfolding set_sync_cursor
set_sync_cursor-SameTables scope cursor db = record {
  messages = ground arith;
  outbox = ground arith;
  conversations = ground arith;
}

pub cache_relay_directory-SameTables :
    (d : CachedRelayDirectory) (db : Db) → SameTables db (cache_relay_directory d db).1
unfolding cache_relay_directory
cache_relay_directory-SameTables d db = record {
  messages = ground arith;
  outbox = ground arith;
  conversations = ground arith;
}

pub add_member-SameTables :
    (group device account : Bytes) (db : Db) → SameTables db (add_member group device account db).1
unfolding add_member
add_member-SameTables group device account db = record {
  messages = ground arith;
  outbox = ground arith;
  conversations = ground arith;
}

pub remove_member-SameTables :
    (group device : Bytes) (now : ℕ) (db : Db) → SameTables db (remove_member group device now db).1
unfolding remove_member
remove_member-SameTables group device now db = record {
  messages = ground arith;
  outbox = ground arith;
  conversations = ground arith;
}

pub block_account-SameTables :
    (account : Bytes) (now : ℕ) (db : Db) → SameTables db (block_account account now db).1
unfolding block_account
block_account-SameTables account now db = record {
  messages = ground arith;
  outbox = ground arith;
  conversations = ground arith;
}

pub unblock_account-SameTables :
    (account : Bytes) (db : Db) → SameTables db (unblock_account account db).1
unfolding unblock_account
unblock_account-SameTables account db = record {
  messages = refl;
  outbox = refl;
  conversations = refl;
}

pub set_network_mode-SameTables :
    (mode : NetworkMode) (db : Db) → SameTables db (set_network_mode mode db).1
unfolding set_network_mode
set_network_mode-SameTables mode db = record {
  messages = refl;
  outbox = refl;
  conversations = refl;
}

pub empty_db-IsValid : IsValid empty_db
empty_db-IsValid = record { messages = tt; outbox = tt; open_messages = tt; conversations = tt }

pub wipe_local_account-IsValid : (db : Db) → IsValid (wipe_local_account db).1
unfolding wipe_local_account
wipe_local_account-IsValid db = record {
  messages = tt;
  outbox = tt;
  open_messages = tt;
  conversations = tt;
}

KeepsKeys-set_body : (body : Bytes) → KeepsKeys (set_body body)
KeepsKeys-set_body body = record { id = λ m. refl; conversation = λ m. refl }

update_body-IsValid : (id body : Bytes) (db : Db) → IsValid db → IsValid (update_body id body db)
unfolding update_body
update_body-IsValid id body db h =
    let p = is_message id in
    let f = set_body body in
    let keys = KeepsKeys-set_body body in
    record {
      messages = DistinctMessages-update p f keys db.messages h.messages;
      outbox = h.outbox;
      open_messages =
          All-weaken (IsOpen db.messages) (IsOpen (update_where p f db.messages)) db.outbox
            (λ o k. IsOpen-update p f keys o db.messages (λ m a b. a) k) h.open_messages;
      conversations = HasConversation-update p f keys db.conversations db.messages h.conversations;
    }

module _ (aead : Aead) (active replacement : Bytes) (nonces : ℕ → Bytes) where
  reencrypt-IsValid :
      (i : ℕ) (rows : List MessageRow) (db db' : Db)
      → IsValid db
      → reencrypt aead active replacement nonces i rows db ≡ ok db'
      → IsValid db'
  unfolding reencrypt
  reencrypt-IsValid i [] db db' h e = let same : db ≡ db' = cc in subst IsValid same h
  reencrypt-IsValid i (row ∷ rest) db db' h e =
      let (plaintext, _, e1) = >>=-eq-ok (decrypt aead active row.body_ciphertext) _ e in
      let (body, _, e2) = >>=-eq-ok (encrypt aead replacement (nonces i) plaintext) _ e1 in
      reencrypt-IsValid (suc i) rest (update_body row.client_message_id body db) db'
        (update_body-IsValid row.client_message_id body db h) e2

keys_change : (db : Db) (n : ℕ) → IsValid db → IsValid (record db { key_version = n })
keys_change db n h = record {
  messages = h.messages;
  outbox = h.outbox;
  open_messages = h.open_messages;
  conversations = h.conversations;
}

pub rotate_master_key-IsValid :
    (aead : Aead) (nonces : ℕ → Bytes) (key : Bytes) (version : ℕ) (core : MessengerCore)
    → IsValid core.db
    → IsValid (rotate_master_key aead nonces key version core).1.db
unfolding rotate_master_key
rotate_master_key-IsValid aead nonces key version core h = elim (Bool-cases (length key == 32)) [
  | inr e ↦ rw e h
  | inl e ↦ rw e (elim (Bool-cases (version == core.db.key_version + 1)) [
    | inr f ↦ rw f h
    | inl f ↦
        rw f
          (elim (Result-cases
            (reencrypt aead core.master_key key nonces 0 core.db.messages core.db)) [
              | inr (x, g) ↦ rw (g, rotate_master_key) h
              | inl (db, g) ↦
                  rw (g, rotate_master_key)
                    (keys_change db version (
                      reencrypt-IsValid aead core.master_key key nonces 0 core.db.messages core.db
                        db h g))
            ])
  ])
]
