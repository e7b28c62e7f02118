-- ===== src/Core/Messages.antt =====
-- Creating and reading messages in crates/messenger-core/src/lib.rs. The random identifier, the
-- nonce and the clock are arguments. A transaction that fails leaves the database as it was.
pub mod Durable
use resilient_messenger.Prelude.{
  ℕ, ◌+◌, min, max, Bool, true, false, not, ◌&&◌, ◌||◌, List, [], ◌∷◌, ◌++◌, Bytes, length, take,
  bytes_eq, bytes_le, starts_with, is_utf8, sort_by, ltb, leb, ◌==◌, if◌then◌else◌, Option, none,
  some, Result, ok, err, ◌>>=◌, ◌>>◌, ensure,
}
use resilient_messenger.Core.{
  CoreError, database, authentication, status_of, status_code, ready_to_upload, LocalMessage,
  PendingUpload, ConversationSummary, MessageRow, OutboxRow, Db,
}
use resilient_messenger.Core.Sql.{exists_where, select_where, update_where, find_where, collect}
use resilient_messenger.Core.Cipher.{Aead, encrypt, decrypt}

-- `transaction … commit`: an error that leaves by `?` rolls back.
unfoldable pub in_transaction :
    {A : Type 0} → (Db → Result CoreError (A × Db)) → Db → Result CoreError A × Db
in_transaction body db = elim (body db) [ ok (a, db') ↦ (ok a, db') | err e ↦ (err e, db) ]

abbrev pub is_conversation : Bytes → ConversationSummary → Bool
is_conversation id c = bytes_eq c.conversation_id id

abbrev pub is_message : Bytes → MessageRow → Bool
is_message id m = bytes_eq m.client_message_id id

abbrev pub is_outbox : Bytes → OutboxRow → Bool
is_outbox id o = bytes_eq o.client_message_id id

-- INSERT OR IGNORE INTO conversations, with its trigger.
unfoldable pub insert_conversation : Bytes → ℕ → Db → Db
insert_conversation id now db =
    if exists_where (is_conversation id) db.conversations then db else record db {
      conversations = db.conversations ++ record { conversation_id = id; updated_at_ms = now } ∷ [];
      revision = db.revision + 1;
    }

-- INSERT INTO messages, with its primary key, its foreign key and its trigger.
unfoldable pub insert_message : MessageRow → Db → Result CoreError Db
insert_message row db =
    if exists_where (is_message row.client_message_id) db.messages
    then err database
    else if not (exists_where (is_conversation row.conversation_id) db.conversations)
    then err database
    else ok (record db { messages = db.messages ++ row ∷ []; revision = db.revision + 1 })

-- INSERT INTO outbox, with its primary key and its foreign key.
unfoldable pub insert_outbox : OutboxRow → Db → Result CoreError Db
insert_outbox row db =
    if exists_where (is_outbox row.client_message_id) db.outbox
    then err database
    else if not (exists_where (is_message row.client_message_id) db.messages)
    then err database
    else ok (record db { outbox = db.outbox ++ row ∷ [] })

-- UPDATE conversations SET updated_at_ms
unfoldable pub touch_conversation : Bytes → ℕ → Db → Db
touch_conversation id now db = record db {
  conversations =
      update_where (is_conversation id) (λ c. record c { updated_at_ms = now }) db.conversations;
}

-- The row that `create_message` inserts.
abbrev pub new_message : Bytes → Bytes → Bytes → ℕ → MessageRow
new_message id conversation_id encrypted now = record {
  client_message_id = id;
  conversation_id = conversation_id;
  body_ciphertext = encrypted;
  status = status_code ready_to_upload;
  created_at_ms = now;
}

unfoldable pub store_message : Bytes → Bytes → Bytes → ℕ → Db → Result CoreError (Bytes × Db)
store_message conversation_id id encrypted now db = do
  let opened = insert_conversation conversation_id now db
  stored ← insert_message (new_message id conversation_id encrypted now) opened
  queued ←
      insert_outbox (record { client_message_id = id; next_attempt_at_ms = now; attempts = 0 })
        stored
  ok (id, touch_conversation conversation_id now queued)

-- `fixed_id`
unfoldable pub fixed_id : Bytes → Result CoreError Bytes
fixed_id value = if length value == 16 then ok value else err authentication

-- `str::contains`
unfoldable pub contains : Bytes → Bytes → Bool
contains [] query = starts_with [] query
contains (c ∷ s) query = starts_with (c ∷ s) query || contains s query

module _ (aead : Aead) where
  unfoldable pub create_message :
      Bytes → Bytes → Bytes → Bytes → Bytes → ℕ → Db → Result CoreError Bytes × Db
  create_message master_key conversation_id plaintext id nonce now db =
      elim (encrypt aead master_key nonce plaintext) [
        | err e ↦ (err e, db)
        | ok encrypted ↦ in_transaction (store_message conversation_id id encrypted now) db
      ]

  -- `String::from_utf8(decrypt(…)?)`
  unfoldable pub read_text : Bytes → Bytes → Result CoreError Bytes
  read_text master_key ciphertext = do
    plaintext ← decrypt aead master_key ciphertext
    if is_utf8 plaintext then ok plaintext else err authentication

  unfoldable pub read_message : Bytes → MessageRow → Result CoreError LocalMessage
  read_message master_key row = do
    plaintext ← read_text master_key row.body_ciphertext
    id ← fixed_id row.client_message_id
    status ← status_of row.status
    ok (record {
      client_message_id = id;
      conversation_id = row.conversation_id;
      plaintext = plaintext;
      status = status;
      created_at_ms = row.created_at_ms;
    })

  unfoldable pub list_messages : Bytes → Bytes → Db → Result CoreError (List LocalMessage)
  list_messages master_key conversation_id db = collect (read_message master_key) (
      sort_by (λ a b. leb a.created_at_ms b.created_at_ms)
        (select_where (λ m. bytes_eq m.conversation_id conversation_id) db.messages))

  -- The value that `local_search` pushes for a row whose text matches.
  unfoldable pub read_found : MessageRow → Bytes → Result CoreError LocalMessage
  read_found row plaintext = do
    id ← fixed_id row.client_message_id
    conversation ← fixed_id row.conversation_id
    status ← status_of row.status
    ok (record {
      client_message_id = id;
      conversation_id = conversation;
      plaintext = plaintext;
      status = status;
      created_at_ms = row.created_at_ms;
    })

  -- The loop of `local_search`: a row is read to the end only if its text matches.
  unfoldable pub search_rows :
      (Bytes → Bytes) → Bytes → Bytes → List MessageRow → Result CoreError (List LocalMessage)
  search_rows lower master_key query [] = ok []
  search_rows lower master_key query (row ∷ rest) = do
    plaintext ← read_text master_key row.body_ciphertext
    elim (contains (lower plaintext) (lower query)) [
      | true ↦
          (read_found row plaintext >>= λ message.
          search_rows lower master_key query rest >>= λ found. ok (message ∷ found))
      | false ↦ search_rows lower master_key query rest
    ]

  -- `local_search`; `to_lowercase` is a parameter.
  unfoldable pub local_search :
      (Bytes → Bytes) → Bytes → Bytes → Db → Result CoreError (List LocalMessage)
  local_search lower master_key query db =
      if length query == 0
      then ok []
      else search_rows lower master_key query
          (sort_by (λ a b. leb b.created_at_ms a.created_at_ms) db.messages)

unfoldable pub list_conversations : Db → Result CoreError (List ConversationSummary)
list_conversations db =
    collect
      (λ c. fixed_id c.conversation_id >>= λ id.
        ok (record { conversation_id = id; updated_at_ms = c.updated_at_ms }))
      (sort_by
        (λ a b.
          ltb b.updated_at_ms a.updated_at_ms
          || b.updated_at_ms == a.updated_at_ms && bytes_le a.conversation_id b.conversation_id)
        db.conversations)

unfoldable pub observe_conversation_changes : ℕ → Db → ℕ
observe_conversation_changes after_revision db = max db.revision after_revision

-- outbox JOIN messages USING(client_message_id)
unfoldable pub join_messages : List MessageRow → List OutboxRow → List (OutboxRow × MessageRow)
join_messages messages [] = []
join_messages messages (o ∷ os) =
    let rest = join_messages messages os in
    elim (find_where (is_message o.client_message_id) messages) [
      | none ↦ rest
      | some m ↦ (o, m) ∷ rest
    ]

unfoldable pub read_upload : OutboxRow × MessageRow → Result CoreError PendingUpload
read_upload (o, m) = do
  message ← fixed_id m.client_message_id
  conversation ← fixed_id m.conversation_id
  ok (record {
    client_message_id = message;
    conversation_id = conversation;
    encrypted_payload = m.body_ciphertext;
    attempts = o.attempts;
  })

unfoldable pub get_pending_uploads : ℕ → ℕ → Db → Result CoreError (List PendingUpload)
get_pending_uploads limit now db = collect read_upload (
    take (min limit 50) (
      sort_by (λ a b. leb a.0.next_attempt_at_ms b.0.next_attempt_at_ms)
        (join_messages db.messages (select_where (λ o. leb o.next_attempt_at_ms now) db.outbox))))
