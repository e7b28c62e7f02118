-- ===== src/Core/Messages/Durable.antt =====
-- `create_message` of crates/messenger-core/src/lib.rs: what is stored when it returns.
use resilient_messenger.Prelude.{
  ℕ, ◌≡◌, refl, sym, ap, ◌∙◌, inl, inr, true, Result-cases, [], ◌∷◌, ◌++◌, Bytes, bytes_eq_refl,
  length, is_utf8, some, Result, ok, err, arith,
}
use resilient_messenger.Core.{
  CoreError, ready_to_upload, MessageRow, OutboxRow, Db, status_of-status_code,
}
use resilient_messenger.Core.Sql.{find_where}
use resilient_messenger.Core.Sql.Keys.{find_where-append_new}
use resilient_messenger.Core.Cipher.{Aead, IsAead, encrypt, decrypt-encrypt}
use resilient_messenger.Core.Messages.{
  in_transaction, is_message, is_outbox, new_message, store_message, create_message, fixed_id,
  read_text, read_message, insert_conversation, touch_conversation,
}
use resilient_messenger.Core.Invariant.Creates.{store_message-ok, store_message-id}

-- What a call that succeeded did.
created :
    (aead : Aead) (key conversation plaintext id nonce : Bytes) (now : ℕ) (db db' : Db) (a : Bytes)
    → create_message aead key conversation plaintext id nonce now db ≡ (ok a, db')
    → (body : Bytes) × (encrypt aead key nonce plaintext ≡ ok body)
      × (store_message conversation id body now db ≡ ok (a, db'))
unfolding create_message in_transaction
created aead key conversation plaintext id nonce now db db' a h =
    elim (Result-cases (encrypt aead key nonce plaintext)) [
      | inr (x, e) ↦
          (let k : ◌≡◌ {A = Result CoreError Bytes × Db} (err x, db) (ok a, db') =
              rw (e, create_message) at h in
            absurd (ground arith))
      | inl (body, e) ↦
          let k : in_transaction (store_message conversation id body now) db ≡ (ok a, db') =
            rw (e, create_message) at h in
          elim (Result-cases (store_message conversation id body now db)) [
            | inr (x, f) ↦
                (let g : ◌≡◌ {A = Result CoreError Bytes × Db} (err x, db) (ok a, db') =
                    rw (f, in_transaction) at k in
                  absurd (ground arith))
            | inl ((b, d), f) ↦
                let g : ◌≡◌ {A = Result CoreError Bytes × Db} (ok b, d) (ok a, db') =
                  rw (f, in_transaction) at k in
                (body, e, f ∙ ap ok (ground arith))
          ]
    ]

opened_tables :
    (conversation : Bytes) (now : ℕ) (db : Db)
    → ((insert_conversation conversation now db).messages ≡ db.messages)
      × ((insert_conversation conversation now db).outbox ≡ db.outbox)
unfolding insert_conversation
opened_tables conversation now db = (ground arith, ground arith)

-- The row that was stored reads back.
read_new :
    (aead : Aead) (key conversation plaintext id nonce body : Bytes) (now : ℕ)
    → IsAead aead
    → length nonce ≡ 24
    → length id ≡ 16
    → is_utf8 plaintext ≡ true
    → encrypt aead key nonce plaintext ≡ ok body
    → read_message aead key (new_message id conversation body now)
      ≡ ok (record {
        client_message_id = id;
        conversation_id = conversation;
        plaintext = plaintext;
        status = ready_to_upload;
        created_at_ms = now;
      })
unfolding read_message read_text fixed_id
read_new aead key conversation plaintext id nonce body now laws width short text e =
    rw (decrypt-encrypt aead key nonce plaintext body laws width e)
      (rw text (rw short (rw (status_of-status_code ready_to_upload) refl)))

-- With a cipher that opens what it sealed, a nonce of 24 bytes, an identifier of 16 and a text that
-- is UTF-8: when `create_message` returns an identifier, it is the drawn one; the last row of
-- `messages` is the new message, which reads back as the text, ready to upload; it is found by its
-- identifier; and its outbox row is there, due at once, with no attempt yet.
pub create_message_stores :
    (aead : Aead) (key conversation plaintext id nonce : Bytes) (now : ℕ) (db db' : Db) (a : Bytes)
    → IsAead aead
    → length nonce ≡ 24
    → length id ≡ 16
    → is_utf8 plaintext ≡ true
    → create_message aead key conversation plaintext id nonce now db ≡ (ok a, db')
    → (row : MessageRow) × (db'.messages ≡ db.messages ++ row ∷ [])
      × (find_where (is_message id) db'.messages ≡ some row)
      × (read_message aead key row
          ≡ ok (record {
            client_message_id = id;
            conversation_id = conversation;
            plaintext = plaintext;
            status = ready_to_upload;
            created_at_ms = now;
          }))
      × (find_where (is_outbox id) db'.outbox
          ≡ some (record { client_message_id = id; next_attempt_at_ms = now; attempts = 0 }))
      × (a ≡ id)
unfolding touch_conversation
create_message_stores aead key conversation plaintext id nonce now db db' a laws width short text
      h =
    let (body, sealed, stored) = created aead key conversation plaintext id nonce now db db' a h in
    let (new, _, free, same) = store_message-ok conversation id body now db a db' stored in
    let row = new_message id conversation body now in
    let entry : OutboxRow = record {
      client_message_id = id;
      next_attempt_at_ms = now;
      attempts = 0;
    } in
    let opened = insert_conversation conversation now db in
    let (old_messages, old_outbox) = opened_tables conversation now db in
    let messages : db'.messages ≡ opened.messages ++ row ∷ [] = ap (λ (d : Db). d.messages) same in
    let outbox : db'.outbox ≡ opened.outbox ++ entry ∷ [] = ap (λ (d : Db). d.outbox) same in
    (
      row,
      messages ∙ ap (λ ms. ms ++ row ∷ []) old_messages,
      ap (find_where (is_message id)) messages
          ∙ find_where-append_new (is_message id) opened.messages row new (bytes_eq_refl id),
      read_new aead key conversation plaintext id nonce body now laws width short text sealed,
      ap (find_where (is_outbox id)) outbox
          ∙ find_where-append_new (is_outbox id) opened.outbox entry free (bytes_eq_refl id),
      store_message-id conversation id body now db a db' stored,
    )

-- When it returns an error, for whatever reason, the database is as it was.
pub create_message-err :
    (aead : Aead) (key conversation plaintext id nonce : Bytes) (now : ℕ) (db db' : Db)
    (x : CoreError)
    → create_message aead key conversation plaintext id nonce now db ≡ (err x, db')
    → db' ≡ db
unfolding create_message in_transaction
create_message-err aead key conversation plaintext id nonce now db db' x h =
    elim (Result-cases (encrypt aead key nonce plaintext)) [
      | inr (y, e) ↦
          (let k : ◌≡◌ {A = Result CoreError Bytes × Db} (err y, db) (err x, db') =
              rw (e, create_message) at h in
            ap (λ r. r.1) (sym k))
      | inl (body, e) ↦
          let k : in_transaction (store_message conversation id body now) db ≡ (err x, db') =
            rw (e, create_message) at h in
          elim (Result-cases (store_message conversation id body now db)) [
            | inr (y, f) ↦
                (let g : ◌≡◌ {A = Result CoreError Bytes × Db} (err y, db) (err x, db') =
                    rw (f, in_transaction) at k in
                  ap (λ r. r.1) (sym g))
            | inl ((b, d), f) ↦
                (let g : ◌≡◌ {A = Result CoreError Bytes × Db} (ok b, d) (err x, db') =
                    rw (f, in_transaction) at k in
                  absurd (ground arith))
          ]
    ]
