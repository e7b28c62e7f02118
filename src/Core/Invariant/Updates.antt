-- ===== src/Core/Invariant/Updates.antt =====
-- The well-formedness of the database and the operations on outgoing messages of
-- crates/messenger-core/src/lib.rs.
use resilient_messenger.Prelude.{
  ℕ, ◌+◌, ◌^◌, ◌≡◌, refl, ◌∙◌, inl, inr, Bool, true, leb, Bool-cases, Option-cases, Result-cases,
  List, [], ◌∷◌, Bytes, Result, ok, arith,
}
use resilient_messenger.Core.{
  CoreError, MessageStatus, queued, ready_to_upload, uploading, server_accepted, delivered, read,
  retry_scheduled, cancelled, MessageRow, OutboxRow, Db,
}
use resilient_messenger.Core.Sql.{
  update_where, find_where, exists_where-update_where, All-update_where,
}
use resilient_messenger.Core.Messages.{in_transaction, is_message, is_outbox}
use resilient_messenger.Core.Delivery.{
  update_status, delete_outbox, in_status, accept_upload, mark_upload_accepted, reschedule,
  retry_message, cancel_pending, cancel_pending_message, is_behind, advance_message_status,
  apply_delivery_receipt, apply_read_receipt, retry_delay,
}
use resilient_messenger.Core.Invariant.{
  DistinctOutbox, IsOpen, IsValid, update_status-IsValid, settle-IsValid,
}

in_status_only :
    (id : Bytes) (a b c : MessageStatus) (m : MessageRow)
    → in_status id a b c m ≡ true
    → is_message id m ≡ true
unfolding in_status
in_status_only id a b c m h = ground arith

-- A transaction keeps the database valid if its body does where it succeeds.
pub in_transaction-IsValid :
    {A : Type 0} (body : Db → Result CoreError (A × Db)) (db : Db)
    → IsValid db
    → ((a : A) (db' : Db) → body db ≡ ok (a, db') → IsValid db')
    → IsValid (in_transaction body db).1
unfolding in_transaction
in_transaction-IsValid body db h keep = elim (Result-cases (body db)) [
  | inl ((a, db'), e) ↦ rw (e, in_transaction) (keep a db' e)
  | inr (x, e) ↦ rw (e, in_transaction) h
]

pub mark_upload_accepted-IsValid :
    (id : Bytes) (db : Db) → IsValid db → IsValid (mark_upload_accepted id db).1
unfolding mark_upload_accepted accept_upload
mark_upload_accepted-IsValid id db h =
    let p = in_status id ready_to_upload uploading retry_scheduled in
    let settled =
      settle-IsValid db h p server_accepted id
        (in_status_only id ready_to_upload uploading retry_scheduled) in
    in_transaction-IsValid (accept_upload id) db h λ a db' e.
      let same : delete_outbox id (update_status p server_accepted db) ≡ db' = ground arith in
      rw (← same) settled

pub cancel_pending_message-IsValid :
    (id : Bytes) (db : Db) → IsValid db → IsValid (cancel_pending_message id db).1
unfolding cancel_pending_message cancel_pending
cancel_pending_message-IsValid id db h =
    let p = in_status id queued ready_to_upload retry_scheduled in
    let settled =
      settle-IsValid db h p cancelled id
        (in_status_only id queued ready_to_upload retry_scheduled) in
    in_transaction-IsValid (cancel_pending id) db h λ a db' e.
      let same : delete_outbox id (update_status p cancelled db) ≡ db' = ground arith in
      rw (← same) settled

-- An update of the outbox that keeps identifiers.
module _ (p : OutboxRow → Bool) (f : OutboxRow → OutboxRow)
    (keep : (o : OutboxRow) → (f o).client_message_id ≡ o.client_message_id) where
  DistinctOutbox-update :
      (os : List OutboxRow) → DistinctOutbox os → DistinctOutbox (update_where p f os)
  unfolding update_where
  DistinctOutbox-update [] h = tt
  DistinctOutbox-update (o ∷ os) h =
      let rest = DistinctOutbox-update os h.1 in
      let other =
        exists_where-update_where (is_outbox o.client_message_id) p f os (λ x. rw (keep x) refl)
        ∙ h.0 in
      elim (Bool-cases (p o)) [
        | inl e ↦ rw e (rw (keep o) other, rest)
        | inr e ↦ rw e (other, rest)
      ]

  update_outbox-IsValid :
      (db : Db) → IsValid db → IsValid (record db { outbox = update_where p f db.outbox })
  update_outbox-IsValid db h = record {
    messages = h.messages;
    outbox = DistinctOutbox-update db.outbox h.outbox;
    open_messages =
        All-update_where (IsOpen db.messages) p f db.outbox
          (λ o _ k. record {
            stored = rw (keep o) (k.stored);
            unsettled = rw (keep o) (k.unsettled);
          })
          h.open_messages;
    conversations = h.conversations;
  }

pub retry_message-IsValid :
    (id : Bytes) (now : ℕ) (db : Db) → IsValid db → IsValid (retry_message id now db).1
unfolding retry_message reschedule
retry_message-IsValid id now db h = elim (Option-cases (find_where (is_outbox id) db.outbox)) [
  | inl e ↦ rw (e, retry_message) h
  | inr (o, e) ↦
      rw (e, retry_message)
        (elim (Bool-cases (leb (2 ^ 32) o.attempts)) [
          | inl big ↦ rw big h
          | inr fits ↦
              let f = λ (x : OutboxRow). record x {
                attempts = x.attempts + 1;
                next_attempt_at_ms = now + retry_delay o.attempts;
              } in
              let moved = record db { outbox = update_where (is_outbox id) f db.outbox } in
              rw fits (
                update_status-IsValid moved
                  (update_outbox-IsValid (is_outbox id) f (λ x. refl) db h) (is_message id)
                  retry_scheduled refl)
        ])
]

advance_message_status-db :
    (id : Bytes) (s : MessageStatus) (db : Db)
    → (advance_message_status id s db).1 ≡ update_status (is_behind id s) s db
unfolding advance_message_status
advance_message_status-db id s db = ground arith

pub apply_delivery_receipt-IsValid :
    (id : Bytes) (db : Db) → IsValid db → IsValid (apply_delivery_receipt id db).1
unfolding apply_delivery_receipt
apply_delivery_receipt-IsValid id db h =
    rw advance_message_status-db
      (update_status-IsValid db h (is_behind id delivered) delivered refl)

pub apply_read_receipt-IsValid :
    (id : Bytes) (db : Db) → IsValid db → IsValid (apply_read_receipt id db).1
unfolding apply_read_receipt
apply_read_receipt-IsValid id db h =
    rw advance_message_status-db (update_status-IsValid db h (is_behind id read) read refl)
