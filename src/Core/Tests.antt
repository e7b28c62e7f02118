-- ===== src/Core/Tests.antt =====
-- Tests of crates/messenger-core/src/lib.rs: one message from its creation on, with a cipher that
-- appends a tag of zeros.
use resilient_messenger.Fixtures.{zeros, toy, toy-IsAead}
use resilient_messenger.Prelude.{
  ℕ, ◌+◌, ◌≤◌, ◌≡◌, refl, true, [], ◌∷◌, ◌++◌, All, Bytes, bytes_eq, codes, length, is_utf8, some,
  ok, err, arith,
}
use resilient_messenger.Core.{
  invalid_master_key, database, status_code, ready_to_upload, retry_scheduled, LocalMessage,
  MessageRow, IncomingEvent, CachedRelayDirectory, Db, empty_db,
}
use resilient_messenger.Core.Sql.{exists_where, find_where, update_where, count_where, delete_where}
use resilient_messenger.Core.Cipher.{encrypt, decrypt}
use resilient_messenger.Core.Messages.{
  in_transaction, is_message, is_outbox, insert_conversation, insert_message, insert_outbox,
  touch_conversation, store_message, create_message, read_message, list_messages, new_message,
}
use resilient_messenger.Core.Messages.Durable.{create_message_stores}
use resilient_messenger.Core.Rotation.{MessengerCore, rotate_master_key, reencrypt, update_body}
use resilient_messenger.Core.Rotation.Texts.{DistinctMessages, rotate_master_key-list_messages}
use resilient_messenger.Core.Operations.{create, accept, apply, opened, after}
use resilient_messenger.Core.Invariant.{IsValid}
use resilient_messenger.Core.Invariant.Keys.{keyed, HasKeys}
use resilient_messenger.Core.Invariant.Reachable.{Reach-IsValid}
use resilient_messenger.Core.Delivery.{
  set_status, mark_upload_accepted, retry_message, apply_delivery_receipt, apply_read_receipt,
}
use resilient_messenger.Core.Delivery.Accepting.{accept_by_row, mark_upload_accepted-accept_by_row}
use resilient_messenger.Core.Delivery.Receipts.{receipts_in_any_order}
use resilient_messenger.Core.Delivery.Lifecycle.{retry_message_schedules}
use resilient_messenger.Core.Sync.{ingest_server_batch}
use resilient_messenger.Core.Sync.Inbox.{IsStored, ingest_server_batch_once}

abbrev key_a : Bytes
key_a = 1 ∷ zeros 31

abbrev key_b : Bytes
key_b = 2 ∷ zeros 31

abbrev id_a : Bytes
id_a = 3 ∷ zeros 15

abbrev chat : Bytes
chat = 4 ∷ zeros 15

abbrev nonce_a : Bytes
nonce_a = zeros 24

abbrev hello : Bytes
hello = codes "hello"

abbrev body_a : Bytes
body_a = nonce_a ++ hello ++ zeros 16

abbrev row_a : MessageRow
row_a = new_message id_a chat body_a 1000

-- The database after the message was created.
abbrev one_message : Db
one_message = record empty_db {
  conversations = record { conversation_id = chat; updated_at_ms = 1000 } ∷ [];
  messages = row_a ∷ [];
  outbox = record { client_message_id = id_a; next_attempt_at_ms = 1000; attempts = 0 } ∷ [];
  revision = 2;
}

create_hello :
    create_message toy key_a chat hello id_a nonce_a 1000 empty_db ≡ (ok id_a, one_message)
unfolding create_message encrypt in_transaction store_message insert_conversation insert_message
    insert_outbox touch_conversation exists_where update_where bytes_eq
create_hello = refl

distinct_a : DistinctMessages one_message.messages
unfolding exists_where
distinct_a = (refl, tt)

found_a : find_where (is_message id_a) one_message.messages ≡ some row_a
unfolding find_where bytes_eq
found_a = refl

queued_a :
    find_where (is_outbox id_a) one_message.outbox
    ≡ some (record { client_message_id = id_a; next_attempt_at_ms = 1000; attempts = 0 })
unfolding find_where bytes_eq
queued_a = refl

text_a : is_utf8 hello ≡ true
unfolding is_utf8
text_a = refl

abbrev start : MessengerCore
start = record { db = empty_db; master_key = key_a }

Reach-IsValid_example :
    IsValid (apply toy (accept id_a) (apply toy (create chat hello id_a nonce_a 1000) start)).db
    × HasKeys
        (keyed (apply toy (accept id_a) (apply toy (create chat hello id_a nonce_a 1000) start)).db)
Reach-IsValid_example =
    Reach-IsValid toy
      (apply toy (accept id_a) (apply toy (create chat hello id_a nonce_a 1000) start))
      (after (accept id_a) (after (create chat hello id_a nonce_a 1000) (opened key_a refl)))

abbrev message_a : LocalMessage
message_a = record {
  client_message_id = id_a;
  conversation_id = chat;
  plaintext = hello;
  status = ready_to_upload;
  created_at_ms = 1000;
}

create_message_stores_example :
    (row : MessageRow) × (one_message.messages ≡ empty_db.messages ++ row ∷ [])
    × (find_where (is_message id_a) one_message.messages ≡ some row)
    × (read_message toy key_a row ≡ ok message_a)
    × (find_where (is_outbox id_a) one_message.outbox
        ≡ some (record { client_message_id = id_a; next_attempt_at_ms = 1000; attempts = 0 }))
    × (id_a ≡ id_a)
create_message_stores_example =
    create_message_stores toy key_a chat hello id_a nonce_a 1000 empty_db one_message id_a
      toy-IsAead refl refl text_a create_hello

-- The identifier is taken.
create_again :
    create_message toy key_a chat hello id_a nonce_a 2000 one_message ≡ (err database, one_message)
unfolding create_message encrypt in_transaction store_message insert_conversation insert_message
    insert_outbox touch_conversation exists_where update_where bytes_eq
create_again = refl

encrypt-hello : encrypt toy key_a nonce_a hello ≡ ok body_a
unfolding encrypt
encrypt-hello = refl

abbrev rotated_core : MessengerCore
rotated_core = record {
  db = record one_message { key_version = 2; revision = 3 };
  master_key = key_b;
}

rotate_hello :
    rotate_master_key toy (λ i. nonce_a) key_b 2 (record { db = one_message; master_key = key_a })
    ≡ (ok tt, rotated_core)
unfolding rotate_master_key reencrypt update_body encrypt decrypt update_where count_where bytes_eq
rotate_hello = refl

rotate_master_key-list_messages_example :
    (key_b ≡ key_b)
    × (rotated_core.db.key_version ≡ one_message.key_version + 1)
    × ((conversation : Bytes)
        → list_messages toy rotated_core.master_key conversation rotated_core.db
          ≡ list_messages toy key_a conversation one_message)
rotate_master_key-list_messages_example =
    rotate_master_key-list_messages toy (λ i. nonce_a) key_b 2
      (record { db = one_message; master_key = key_a }) rotated_core toy-IsAead (λ i. refl)
      distinct_a rotate_hello

rotate_short :
    rotate_master_key toy (λ i. nonce_a) [] 2 (record { db = one_message; master_key = key_a })
    ≡ (err invalid_master_key, record { db = one_message; master_key = key_a })
unfolding rotate_master_key
rotate_short = refl

mark_upload_accepted-accept_by_row_example :
    mark_upload_accepted id_a one_message
    ≡ accept_by_row id_a one_message (find_where (is_message id_a) one_message.messages)
mark_upload_accepted-accept_by_row_example =
    mark_upload_accepted-accept_by_row id_a one_message distinct_a

abbrev accepted_once : Db
accepted_once = record one_message { messages = set_status 5 row_a ∷ []; outbox = []; revision = 3 }

accept_a : mark_upload_accepted id_a one_message ≡ (ok tt, accepted_once)
unfolding find_where update_where delete_where bytes_eq
accept_a = mark_upload_accepted-accept_by_row id_a one_message distinct_a

retry_message_schedules_example :
    (due : ℕ) × ((retry_message id_a 5000 one_message).0 ≡ ok tt)
    × (find_where (is_outbox id_a) (retry_message id_a 5000 one_message).1.outbox
        ≡ some (record { client_message_id = id_a; next_attempt_at_ms = due; attempts = 1 }))
    × (find_where (is_message id_a) (retry_message id_a 5000 one_message).1.messages
        ≡ some (set_status (status_code retry_scheduled) row_a))
    × (5000 + 1000 ≤ due)
    × (due ≤ 5000 + 1024000)
retry_message_schedules_example =
    retry_message_schedules id_a 5000 one_message
      (record { client_message_id = id_a; next_attempt_at_ms = 1000; attempts = 0 }) row_a queued_a
      (omega arith) found_a

receipts_in_any_order_example :
    ((apply_read_receipt id_a (apply_delivery_receipt id_a one_message).1).1.messages
      ≡ (apply_read_receipt id_a one_message).1.messages)
    × ((apply_delivery_receipt id_a (apply_read_receipt id_a one_message).1).1.messages
        ≡ (apply_read_receipt id_a one_message).1.messages)
receipts_in_any_order_example = receipts_in_any_order id_a one_message

abbrev scope_a : Bytes
scope_a = codes "events"

abbrev event_a : IncomingEvent
event_a = record { event_id = id_a; conversation_id = chat; encrypted_event = body_a }

ingest_server_batch_once_example :
    (n : ℕ) × (db' : Db) × (ingest_server_batch ((event_a, 1000) ∷ (event_a, 1001) ∷ []) one_message
      ≡ (ok n, db'))
    × (length db'.inbox ≡ length one_message.inbox + n)
    × All (IsStored db') ((event_a, 1000) ∷ (event_a, 1001) ∷ [])
    × (ingest_server_batch ((event_a, 1000) ∷ (event_a, 1001) ∷ []) db' ≡ (ok 0, db'))
ingest_server_batch_once_example =
    ingest_server_batch_once ((event_a, 1000) ∷ (event_a, 1001) ∷ []) one_message (omega arith)

abbrev directory_a : CachedRelayDirectory
directory_a = record { version = 3; signed_directory = body_a; expires_at_ms = 9000 }
