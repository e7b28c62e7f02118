-- ===== src/Core/Invariant/Creates.antt =====
-- The well-formedness of the database and `create_message` of crates/messenger-core/src/lib.rs.
use resilient_messenger.Prelude.{
  ℕ, ◌+◌, ◌≡◌, sym, ap, ◌∙◌, inl, inr, true, false, Result-cases, [], ◌∷◌, ◌++◌, Bytes, ok,
  >>=-eq-ok, arith,
}
use resilient_messenger.Core.{MessageRow, OutboxRow, Db}
use resilient_messenger.Core.Sql.{exists_where}
use resilient_messenger.Core.Cipher.{Aead, encrypt}
use resilient_messenger.Core.Messages.{
  in_transaction, is_conversation, is_message, is_outbox, insert_conversation, insert_message,
  insert_outbox, touch_conversation, new_message, store_message, create_message,
}
use resilient_messenger.Core.Invariant.{IsValid}
use resilient_messenger.Core.Invariant.Inserts.{
  insert_conversation-IsValid, touch_conversation-IsValid, stored, queued, both_inserted,
}

-- Where `insert_message` succeeds, the row is new and its conversation is there.
insert_message-ok :
    (row : MessageRow) (db db' : Db)
    → insert_message row db ≡ ok db'
    → (exists_where (is_message row.client_message_id) db.messages ≡ false)
      × (exists_where (is_conversation row.conversation_id) db.conversations ≡ true)
      × (record db { messages = db.messages ++ row ∷ []; revision = db.revision + 1 } ≡ db')
unfolding insert_message
insert_message-ok row db db' e = (ground arith, ground arith, ground arith)

insert_outbox-ok :
    (row : OutboxRow) (db db' : Db)
    → insert_outbox row db ≡ ok db'
    → (exists_where (is_outbox row.client_message_id) db.outbox ≡ false)
      × (record db { outbox = db.outbox ++ row ∷ [] } ≡ db')
unfolding insert_outbox
insert_outbox-ok row db db' e = (ground arith, ground arith)

-- Where `store_message` succeeds, its three inserts did.
pub store_message-ok :
    (conversation id body : Bytes) (now : ℕ) (db : Db) (a : Bytes) (db' : Db)
    → store_message conversation id body now db ≡ ok (a, db')
    → (exists_where (is_message id) (insert_conversation conversation now db).messages ≡ false)
      × (exists_where
            (is_conversation conversation)
            (insert_conversation conversation now db).conversations
          ≡ true)
      × (exists_where (is_outbox id) (insert_conversation conversation now db).outbox ≡ false)
      × (db'
          ≡ touch_conversation conversation now (record (insert_conversation conversation now db) {
            messages =
                (insert_conversation conversation now db).messages
                ++ new_message id conversation body now ∷ [];
            outbox =
                (insert_conversation conversation now db).outbox
                ++ record { client_message_id = id; next_attempt_at_ms = now; attempts = 0 } ∷ [];
            revision = (insert_conversation conversation now db).revision + 1;
          }))
unfolding store_message
store_message-ok conversation id body now db a db' e =
    let opened = insert_conversation conversation now db in
    let (stored, made, e1) =
      >>=-eq-ok (insert_message (new_message id conversation body now) opened) _ e in
    let (new, has, stored_is) =
      insert_message-ok (new_message id conversation body now) opened stored made in
    let row : OutboxRow = record {
      client_message_id = id;
      next_attempt_at_ms = now;
      attempts = 0;
    } in
    let (queued, put, e2) = >>=-eq-ok (insert_outbox row stored) _ e1 in
    let (free, queued_is) = insert_outbox-ok row stored queued put in
    let last : touch_conversation conversation now queued ≡ db' = cc in
    (
      new,
      has,
      rw (← stored_is) at free,
      sym (
          ap
            (λ (d : Db).
              touch_conversation conversation now (record d { outbox = d.outbox ++ row ∷ [] }))
            stored_is
          ∙ ap (touch_conversation conversation now) queued_is
          ∙ last),
    )

pub create_message-IsValid :
    (aead : Aead) (key conversation plaintext id nonce : Bytes) (now : ℕ) (db : Db)
    → IsValid db
    → IsValid (create_message aead key conversation plaintext id nonce now db).1
unfolding create_message in_transaction
create_message-IsValid aead key conversation plaintext id nonce now db h =
    elim (Result-cases (encrypt aead key nonce plaintext)) [
      | inr (x, e) ↦ rw (e, create_message) h
      | inl (body, e) ↦
          rw (e, create_message)
            (elim (Result-cases (store_message conversation id body now db)) [
              | inr (x, f) ↦ rw (f, in_transaction) h
              | inl ((a, db'), f) ↦
                  rw (f, in_transaction)
                    (let (new, has, free, same) =
                        store_message-ok conversation id body now db a db' f in
                      let opened = insert_conversation conversation now db in
                      rw same (
                        touch_conversation-IsValid conversation now _ (
                          both_inserted opened (insert_conversation-IsValid conversation now db h)
                            id conversation body now (opened.revision + 1) has new free)))
            ])
    ]

pub store_message-id :
    (conversation id body : Bytes) (now : ℕ) (db : Db) (a : Bytes) (db' : Db)
    → store_message conversation id body now db ≡ ok (a, db')
    → a ≡ id
unfolding store_message
store_message-id conversation id body now db a db' e =
    let opened = insert_conversation conversation now db in
    let (stored, _, e1) =
      >>=-eq-ok (insert_message (new_message id conversation body now) opened) _ e in
    let (queued, _, e2) =
      >>=-eq-ok
        (insert_outbox (record { client_message_id = id; next_attempt_at_ms = now; attempts = 0 })
          stored)
        _ e1 in
    ground arith
